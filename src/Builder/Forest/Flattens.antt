-- ===== src/Builder/Forest/Flattens.antt =====
-- A builder of the right shape is flattened: the recursion ends, no read is out of bounds, and the
-- result is that of its visits in order.
use pathological_v.Prelude.{
  All, ℕ, zero, suc, ◌+◌, ◌<◌, ◌≤◌, ◌≡◌, refl, inl, inr, some, Option-cases, List, [], ◌∷◌, ◌++◌,
  get_elem?, length, arith, ltb, true,
}
use pathological_v.Prelude.Run.{Run, done}
use pathological_v.Builder.{Glm, Node, SceneBuilder, Flat, get_root_nodes, roots_from}
use pathological_v.Builder.Traversal.{
  flatten_mesh, visit_each, traverse_and_flatten, no_flat, scene_of, flatten_from, flatten_to_scene,
}
use pathological_v.Builder.Traversal.Order.{
  Visit, visits_of, visits, add_mesh, mesh_of, add_visits, scene_visits,
}
use pathological_v.Builder.Forest.{IsForest}
use pathological_v.Builder.Forest.Modify.{get_elem?-below, nat_at-some}

ltb-true : (n : ℕ) → n < 4294967296 → ltb n 4294967296 ≡ true
ltb-true n h = ground arith

module _ (g : Glm) (b : SceneBuilder g) where
  add_visits-append :
      (us vs : List (Visit g b)) (out : Flat g)
      → add_visits g b out (us ++ vs) ≡ add_visits g b (add_visits g b out us) vs
  add_visits-append [] vs out = refl
  add_visits-append ((world, node) ∷ us) vs out = add_visits-append us vs _

  visits-some :
      (depth : ℕ) (parent_transform : g.Mat4) (id : ℕ) (node : Node g)
      → get_elem? b.nodes id ≡ some node
      → visits g b (suc depth) parent_transform id
        ≡ (g.times parent_transform node.local_transform, node)
          ∷ visits_of g b
              (visits g b depth (g.times parent_transform node.local_transform))
              node.children
  unfolding visits
  visits-some depth parent_transform id node there = rw (there, visits) refl

  -- The nodes of a list are visited one after another, if each of them is.
  visit_each-done :
      {P : ℕ → Type 0} (visit : ℕ → Flat g → Run (Flat g)) (order : ℕ → List (Visit g b))
      (cs : List ℕ) (out : Flat g)
      → ((c : ℕ) (out : Flat g) → P c → visit c out ≡ done (add_visits g b out (order c)))
      → All P cs
      → visit_each g b visit cs out ≡ done (add_visits g b out (visits_of g b order cs))
  visit_each-done visit order [] out each below = refl
  visit_each-done visit order (c ∷ cs) out each below =
      rw (each c out below.0, add_visits-append (order c) (visits_of g b order cs) out)
        (visit_each-done visit order cs _ each below.1)

  module _ (forest : IsForest g b) where
    flatten_mesh-done :
        (i : ℕ) (node : Node g) (world : g.Mat4) (out : Flat g)
        → get_elem? b.nodes i ≡ some node
        → flatten_mesh g b world node.mesh out
          ≡ done (add_mesh g b world out (mesh_of g b node.mesh))
    unfolding flatten_mesh
    flatten_mesh-done i node world out there = elim (Option-cases node.mesh) [
      | inl bare ↦ rw bare refl
      | inr (m, has) ↦
          let (mesh, found) = get_elem?-below b.meshes m (forest.meshes i node m there has) in
          rw (has, nat_at-some b.meshes m mesh found, found) refl
    ]

    traverse_and_flatten-done :
        (fuel : ℕ) (parent_transform : g.Mat4) (id : ℕ) (out : Flat g)
        → id < length b.nodes
        → length b.nodes ≤ fuel + id
        → traverse_and_flatten g b fuel parent_transform id out
          ≡ done (add_visits g b out (visits g b fuel parent_transform id))
    unfolding traverse_and_flatten
    traverse_and_flatten-done zero parent_transform id out below enough = absurd (omega arith)
    traverse_and_flatten-done (suc fuel) parent_transform id out below enough =
        let (node, there) = get_elem?-below b.nodes id below in
        let world = g.times parent_transform node.local_transform in
        rw
          (
            visits-some fuel parent_transform id node there,
            nat_at-some b.nodes id node there,
            flatten_mesh-done id node world out there,
          )
          (visit_each-done (traverse_and_flatten g b fuel world) (visits g b fuel world)
            node.children _
            (λ c out' (above, inside).
              traverse_and_flatten-done fuel world c out' inside (omega arith))
            (forest.ordered id node there))

    roots_from-All :
        (i : ℕ) (ns : List (Node g))
        → i + length ns ≤ length b.nodes
        → All (λ c. c < length b.nodes) (roots_from g i ns)
    unfolding roots_from
    roots_from-All i [] le = tt
    roots_from-All i (n ∷ ns) le = elim (Option-cases n.parent) [
      | inl root ↦ rw root (omega arith, roots_from-All (i + 1) ns (omega arith))
      | inr (p, child) ↦ rw child (roots_from-All (i + 1) ns (omega arith))
    ]

    flatten_from-done :
        flatten_from g b (get_root_nodes g b)
        ≡ scene_of g b (add_visits g b (no_flat g b) (scene_visits g b))
    unfolding scene_visits get_root_nodes
    flatten_from-done =
        rw
          (visit_each-done (traverse_and_flatten g b (length b.nodes) g.identity)
            (visits g b (length b.nodes) g.identity) (get_root_nodes g b) (no_flat g b)
            (λ c out inside.
              traverse_and_flatten-done (length b.nodes) g.identity c out inside (omega arith))
            (roots_from-All 0 b.nodes (omega arith)))
          refl

    -- A builder with the shape that loading gives and fewer than 2^32 nodes is flattened: the loops
    -- and the recursion end, no read is out of bounds, and the outcome is that of the meshes of all
    -- visits, one after another.
    pub flatten_to_scene_visits :
        length b.nodes < 4294967296
        → flatten_to_scene g b ≡ scene_of g b (add_visits g b (no_flat g b) (scene_visits g b))
    unfolding flatten_to_scene
    flatten_to_scene_visits small = rw (ltb-true (length b.nodes) small) (flatten_from-done)
