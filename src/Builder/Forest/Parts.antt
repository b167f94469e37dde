-- ===== src/Builder/Forest/Parts.antt =====
-- What the loading of one node, without its children, does to the tables and their shape.
use pathological_v.Prelude.{
  ℕ, suc, ◌<◌, ◌≤◌, ◌≡◌, refl, inl, inr, some, none, Option, List, [], ◌∷◌, length, length-append,
  arith, Bool-cases, Bool,
}
use pathological_v.Prelude.Int.{ℤ, pos, negsuc}
use pathological_v.Prelude.Run.{Ensures, Ensures-bind, Ensures-map}
use pathological_v.Gltf.{Primitive, GltfNode, Model}
use pathological_v.Builder.{Glm, SceneBuilder, create_node, create_mesh, create_material}
use pathological_v.Builder.Loading.{
  load_primitive, load_primitives, load_mesh, link_parent, load_one,
}
use pathological_v.Builder.Forest.{IsForest}
use pathological_v.Builder.Forest.Kept.{
  Keeps, set_local_transform-Ensures, set_mesh-Ensures, set_parent-Ensures, create_node-IsForest,
  create_mesh-IsForest, create_material-IsForest,
}
use pathological_v.Gltf.Ends.{nat_at-Ends}
use pathological_v.Builder.Loading.Ends.{load_vertices-Ends, load_indices-Ends, load_material-Ends}

module _ (g : Glm) where
  -- `b'` is no smaller than `b`.
  pub record Grown (b b' : SceneBuilder g) : Type 0 where
    pub more_nodes : length b.nodes ≤ length b'.nodes
    pub more_meshes : length b.meshes ≤ length b'.meshes

  -- A scene whose ids fit 32 bits.
  abbrev pub FitsIds : SceneBuilder g → Type 0
  FitsIds b = (length b.nodes < 4294967296) × (length b.meshes < 4294967296)

  -- What a part of the loading does: the tables grow, and the shape is kept where `C` holds and the
  -- result's ids fit.
  pub record Extends (C : Type 0) (b b' : SceneBuilder g) : Type 0 where
    pub grown : Grown b b'
    pub forest : FitsIds b' → C → IsForest g b → IsForest g b'

  pub Extends-refl : {C : Type 0} (b : SceneBuilder g) → Extends C b b
  Extends-refl b = record {
    grown = record { more_nodes = omega arith; more_meshes = omega arith };
    forest = λ fits c forest. forest;
  }

  -- One part after another.
  pub Extends-trans :
      {C D : Type 0} {b b1 b2 : SceneBuilder g}
      → (Grown b b1 → C → D)
      → Extends C b b1
      → Extends D b1 b2
      → Extends C b b2
  Extends-trans holds k1 k2 = record {
    grown = record {
      more_nodes = omega (arith, k1.grown.more_nodes, k2.grown.more_nodes);
      more_meshes = omega (arith, k1.grown.more_meshes, k2.grown.more_meshes);
    };
    forest = λ fits c forest. k2.forest fits (holds k1.grown c) (
        k1.forest
          (omega (arith, fits.0, k2.grown.more_nodes), omega (arith, fits.1, k2.grown.more_meshes))
          c forest);
  }

  module _ (model : Model g.Real) where
    load_primitive-Extends :
        (node_id : ℕ) (primitive : Primitive) (b : SceneBuilder g)
        → Ensures (Extends (Unit {0}) b) (load_primitive g model node_id primitive b)
    unfolding load_primitive create_mesh create_material
    load_primitive-Extends node_id primitive b =
        let P = Extends (Unit {0}) b in
        Ensures-bind (λ _. Unit) P _ _ (load_vertices-Ends g model primitive.position)
          λ vertices _.
            Ensures-bind (λ _. Unit) P _ _ (load_indices-Ends g model primitive.indices)
              λ indices _.
                Ensures-bind (λ _. Unit) P _ _ (load_material-Ends g model primitive.material)
                  λ mat _.
                    let b1 = (create_material g mat b).0 in
                    let made = create_mesh g vertices indices (create_material g mat b).1 b1 in
                    Ensures-map _ P _ (set_mesh-Ensures g node_id made.1 made.0) λ b' k. record {
                      grown = record {
                        more_nodes = omega (arith, k.same_nodes);
                        more_meshes = omega (arith, k.same_meshes, length-append b.meshes (_ ∷ []));
                      };
                      forest = λ fits _ forest.
                          k.forest
                            (omega (arith, k.same_meshes, fits.1, length-append b.meshes (_ ∷ [])))
                            (create_mesh-IsForest g vertices indices _ b1
                              (create_material-IsForest g mat b forest));
                    }

    load_primitives-Extends :
        (node_id : ℕ) (primitives : List Primitive) (b : SceneBuilder g)
        → Ensures (λ r. Extends (Unit {0}) b r.0) (load_primitives g model node_id primitives b)
    unfolding load_primitives
    load_primitives-Extends node_id [] b = Extends-refl b
    load_primitives-Extends node_id (primitive ∷ rest) b = elim (Bool-cases primitive.triangles) [
      | inl yes_triangles ↦
          rw (yes_triangles, load_primitives)
            (Ensures-bind (Extends (Unit {0}) b) (λ r. Extends (Unit {0}) b r.0) _ _
              (load_primitive-Extends node_id primitive b) λ b' e. e)
      | inr no_triangles ↦ rw (no_triangles, load_primitives) (Extends-refl b)
    ]

    load_mesh-Extends :
        (node_id : ℕ) (mesh : ℤ) (b : SceneBuilder g)
        → Ensures (λ r. Extends (Unit {0}) b r.0) (load_mesh g model node_id mesh b)
    unfolding load_mesh
    load_mesh-Extends node_id (negsuc n) b = Extends-refl b
    load_mesh-Extends node_id (pos index) b =
        Ensures-bind (λ _. Unit) (λ r. Extends (Unit {0}) b r.0) _ _
          (nat_at-Ends model.meshes index) λ ps _. load_primitives-Extends node_id ps b

    -- The parent of a new node is a node.
    abbrev pub ParentIn : Option ℕ → SceneBuilder g → Type 0
    ParentIn none b = Unit
    ParentIn (some p) b = p < length b.nodes

    pub link_parent-Keeps :
        (node_id : ℕ) (parent : Option ℕ) (b c : SceneBuilder g)
        → length b.nodes ≡ suc (length c.nodes)
        → Ensures
            (Keeps g ((node_id ≡ length c.nodes) × ParentIn parent c) b)
            (link_parent g node_id parent b)
    unfolding link_parent
    link_parent-Keeps node_id none b c e = record {
      same_nodes = refl;
      same_meshes = refl;
      forest = λ _ f. f;
    }
    link_parent-Keeps node_id (some p) b c e =
        Ensures-map (Keeps g ((p < node_id) × (node_id < length b.nodes)) b)
          (Keeps g ((node_id ≡ length c.nodes) × (p < length c.nodes)) b) _
          (set_parent-Ensures g node_id p b)
          λ b' k. record {
            same_nodes = k.same_nodes;
            same_meshes = k.same_meshes;
            forest = λ (at_end, below) f. k.forest (omega arith, omega arith) f;
          }

    -- A node was added, and the shape kept if its parent is a node.
    abbrev pub LoadsOne : Option ℕ → SceneBuilder g → SceneBuilder g → Type 0
    LoadsOne parent b b' = (length b.nodes < length b'.nodes) × Extends (ParentIn parent b) b b'

    pub load_one-LoadsOne :
        (node : GltfNode g.Real) (parent : Option ℕ) (b : SceneBuilder g)
        → Ensures (λ r. LoadsOne parent b r.0) (load_one g model node parent b)
    unfolding load_one create_node
    load_one-LoadsOne node parent b =
        let P : SceneBuilder g × Bool → Type 0 = λ r. LoadsOne parent b r.0 in
        let created = create_node g node.name b in
        let size : length created.0.nodes ≡ suc (length b.nodes) =
          omega (arith, length-append b.nodes (_ ∷ [])) in
        Ensures-bind (Keeps g (Unit {0}) created.0) P _ _
          (set_local_transform-Ensures g created.1 _ created.0)
          λ placed k1.
            Ensures-bind (Keeps g ((created.1 ≡ length b.nodes) × ParentIn parent b) placed) P _ _
              (link_parent-Keeps created.1 parent placed b (omega (arith, size, k1.same_nodes)))
              λ linked k2.
                Ensures-map (λ r. Extends (Unit {0}) linked r.0) P _
                  (load_mesh-Extends created.1 node.mesh linked)
                  λ r k3.
                    let bigger : length b.nodes < length r.0.nodes =
                      omega (arith, size, k1.same_nodes, k2.same_nodes, k3.grown.more_nodes) in
                    (
                      bigger,
                      record {
                        grown = record {
                          more_nodes = omega arith;
                          more_meshes =
                              omega (arith, k1.same_meshes, k2.same_meshes, k3.grown.more_meshes);
                        };
                        forest = λ fits parent_in forest. k3.forest fits tt (
                            k2.forest (omega (arith, fits.0), parent_in)
                              (k1.forest tt (create_node-IsForest g node.name b forest)));
                      },
                    )
