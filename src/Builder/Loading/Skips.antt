-- ===== src/Builder/Loading/Skips.antt =====
-- A node whose mesh is not made of triangles.
use pathological_v.Prelude.{
  Bool, ℕ, suc, ◌≡◌, refl, arith, false, Option, List, ◌∷◌, length, length-append, [],
}
use pathological_v.Prelude.Int.{ℤ, pos}
use pathological_v.Prelude.Run.{done, Ensures, Ensures-bind}
use pathological_v.Gltf.{Primitive, GltfNode, nat_at, int_at}
use pathological_v.Builder.{Glm, SceneBuilder, create_node}
use pathological_v.Builder.Loading.{File, load_mesh, load_primitives, load_one, load_gltf_node}
use pathological_v.Builder.Forest.Kept.{Keeps, set_local_transform-Ensures}
use pathological_v.Builder.Forest.Parts.{ParentIn, link_parent-Keeps}

module _ (g : Glm) (model : File g) (index : ℤ) (node : GltfNode g.Real) (m : ℕ)
    (primitive : Primitive) (rest : List Primitive) (found : int_at model.nodes index ≡ done node)
    (has_mesh : node.mesh ≡ pos m) (mesh : nat_at model.meshes m ≡ done (primitive ∷ rest))
    (other_mode : primitive.triangles ≡ false) where
  load_mesh-skips :
      (node_id : ℕ) (b : SceneBuilder g) → load_mesh g model node_id node.mesh b ≡ done (b, false)
  unfolding load_mesh load_primitives
  load_mesh-skips node_id b = rw (has_mesh, mesh, other_mode, load_mesh, load_primitives) refl

  abbrev Skipped : SceneBuilder g → SceneBuilder g × Bool → Type 0
  Skipped b r = (r.1 ≡ false) × (length r.0.nodes ≡ suc (length b.nodes))

  load_one-Skipped :
      (parent : Option ℕ) (b : SceneBuilder g)
      → Ensures (Skipped b) (load_one g model node parent b)
  unfolding load_one create_node
  load_one-Skipped parent b =
      let created = create_node g node.name b in
      let size : length created.0.nodes ≡ suc (length b.nodes) =
        omega (arith, length-append b.nodes (_ ∷ [])) in
      Ensures-bind (Keeps g (Unit {0}) created.0) (Skipped b) _ _
        (set_local_transform-Ensures g created.1 _ created.0)
        λ placed k1.
          Ensures-bind (Keeps g ((created.1 ≡ length b.nodes) × ParentIn g model parent b) placed)
            (Skipped b) _ _
            (link_parent-Keeps g model created.1 parent placed b
              (omega (arith, size, k1.same_nodes)))
            λ linked k2.
              rw (load_mesh-skips created.1 linked)
                (refl, omega (arith, size, k1.same_nodes, k2.same_nodes))

  -- A node whose first primitive is not made of triangles is loaded without any of its children: the
  -- builder has one node more, whatever the children are.
  pub load_gltf_node-skips :
      (fuel : ℕ) (parent : Option ℕ) (b : SceneBuilder g)
      → Ensures
          (λ b'. length b'.nodes ≡ suc (length b.nodes))
          (load_gltf_node g (suc fuel) model index parent b)
  unfolding load_gltf_node
  load_gltf_node-skips fuel parent b = rw found (
      Ensures-bind (Skipped b) (λ b'. length b'.nodes ≡ suc (length b.nodes)) _ _
        (load_one-Skipped parent b) λ r (stops, size). rw stops size)
