-- ===== src/Builder/Forest/Kept.antt =====
-- Each operation of the builder keeps its shape.
use pathological_v.Prelude.{
  ℕ, ◌<◌, ◌≡◌, refl, ◌∙◌, sym, ap, ◌⊎◌, inl, inr, some, List, [], ◌∷◌, ◌++◌, get_elem?, length,
  length-append, get_elem?-append_one, arith, Bool-cases, leb, ◌||◌, Bytes,
}
use pathological_v.Prelude.Run.{Ensures, of_result}
use pathological_v.Builder.{
  Glm, Node, Material, SceneBuilder, modify, change_node, create_node, set_parent,
  set_local_transform, set_mesh, create_mesh, create_material,
}
use pathological_v.Builder.Forest.{AreChildren, IsForest}
use pathological_v.Builder.Forest.Modify.{
  length-modify, get_elem?-modify_cases, AreChildren-wider, AreChildren-append,
}

module _ (g : Glm) where
  -- `b'` has the sizes of `b`, and its shape where `C` holds.
  pub record Keeps (C : Type 0) (b b' : SceneBuilder g) : Type 0 where
    pub same_nodes : length b'.nodes ≡ length b.nodes
    pub same_meshes : length b'.meshes ≡ length b.meshes
    pub forest : C → IsForest g b → IsForest g b'

  abbrev with_nodes : List (Node g) → SceneBuilder g → SceneBuilder g
  with_nodes ns b = record b { nodes = ns }

  -- A node that is changed stays a node with children behind it and a mesh that is there.
  modify-IsForest :
      (i : ℕ) (f : Node g → Node g) (b : SceneBuilder g)
      → ((n : Node g)
          → get_elem? b.nodes i ≡ some n
          → AreChildren i (length b.nodes) (f n).children
            × ((m : ℕ) → (f n).mesh ≡ some m → m < length b.meshes))
      → IsForest g b
      → IsForest g (with_nodes (modify g i f b.nodes) b)
  modify-IsForest i f b good forest =
      let size = length-modify g i f b.nodes in
      record {
        ordered = λ j n e. elim (get_elem?-modify_cases g i j f b.nodes n e) [
          | inl (m, same, there, is) ↦ rw (size, is, sym same) ((good m there).0)
          | inr old ↦ rw size (forest.ordered j n old)
        ];
        meshes = λ j n k e has. elim (get_elem?-modify_cases g i j f b.nodes n e) [
          | inl (m, same, there, is) ↦ (good m there).1 k (rw is at (has))
          | inr old ↦ forest.meshes j n k old has
        ];
      }

  change_node-Ensures :
      (i : ℕ) (complaint : Bytes) (f : Node g → Node g) (b : SceneBuilder g) (C : Type 0)
      → (C
          → (n : Node g)
          → ((f n).children ≡ n.children)
            × (((f n).mesh ≡ n.mesh) ⊎ ((m : ℕ) × ((f n).mesh ≡ some m) × (m < length b.meshes))))
      → Ensures (Keeps C b) (of_result (change_node g i complaint f b))
  unfolding change_node
  change_node-Ensures i complaint f b C good = elim (Bool-cases (leb (length b.nodes) i)) [
    | inl out ↦ rw (out, change_node) tt
    | inr inside ↦
        rw (inside, change_node)
          (record {
            same_nodes = length-modify g i f b.nodes;
            same_meshes = refl;
            forest = λ c forest.
                modify-IsForest i f b
                  (λ n e. (
                    rw ((good c n).0) (forest.ordered i n e),
                    λ m has. elim ((good c n).1) [
                      | inl same ↦ forest.meshes i n m e (sym same ∙ has)
                      | inr (k, is, below) ↦ let same : k ≡ m = cc in omega arith
                    ],
                  ))
                  forest;
          })
  ]

  pub set_local_transform-Ensures :
      (i : ℕ) (t : g.Mat4) (b : SceneBuilder g)
      → Ensures (Keeps (Unit {0}) b) (of_result (set_local_transform g i t b))
  unfolding set_local_transform
  set_local_transform-Ensures i t b = change_node-Ensures i _ _ b (Unit {0}) λ c n. (refl, inl refl)

  pub set_mesh-Ensures :
      (i m : ℕ) (b : SceneBuilder g)
      → Ensures (Keeps (m < length b.meshes) b) (of_result (set_mesh g i m b))
  unfolding set_mesh
  set_mesh-Ensures i m b =
      change_node-Ensures i _ _ b (m < length b.meshes) λ c n. (refl, inr (m, refl, c))

  pub set_parent-Ensures :
      (child parent : ℕ) (b : SceneBuilder g)
      → Ensures
          (Keeps ((parent < child) × (child < length b.nodes)) b)
          (of_result (set_parent g child parent b))
  unfolding set_parent
  set_parent-Ensures child parent b =
      elim (Bool-cases (leb (length b.nodes) child || leb (length b.nodes) parent)) [
        | inl out ↦ rw (out, set_parent) tt
        | inr inside ↦
            let adopted = modify g child (λ n. record n { parent = some parent }) b.nodes in
            let size = length-modify g child (λ n. record n { parent = some parent }) b.nodes in
            rw (inside, set_parent)
              (record {
                same_nodes = length-modify g parent _ adopted ∙ size;
                same_meshes = refl;
                forest = λ c forest.
                    let first : IsForest g (with_nodes adopted b) =
                      modify-IsForest child _ b
                        (λ n e. (forest.ordered child n e, λ m has. forest.meshes child n m e has))
                        forest in
                    modify-IsForest parent (λ n. record n { children = n.children ++ child ∷ [] })
                      (with_nodes adopted b)
                      (λ n e. (
                        AreChildren-append parent _ child n.children c.0 (omega (arith, c.1, size))
                            (first.ordered parent n e),
                        λ m has. first.meshes parent n m e has,
                      ))
                      first;
              })
      ]

  pub create_node-IsForest :
      (name : Bytes) (b : SceneBuilder g) → IsForest g b → IsForest g (create_node g name b).0
  unfolding create_node
  create_node-IsForest name b forest = record {
    ordered = λ i n e. elim (get_elem?-append_one b.nodes _ i n e) [
      | inl new ↦ rw (sym new) tt
      | inr old ↦
          AreChildren-wider i (length b.nodes) _ n.children
            (omega (arith, length-append b.nodes (_ ∷ []))) (forest.ordered i n old)
    ];
    meshes = λ i n m e has. elim (get_elem?-append_one b.nodes _ i n e) [
      | inl new ↦ absurd (cc (ap (λ (k : Node g). k.mesh) new, has))
      | inr old ↦ forest.meshes i n m old has
    ];
  }

  pub create_mesh-IsForest :
      (vertices : List g.Vec3) (indices : List ℕ) (material : ℕ) (b : SceneBuilder g)
      → IsForest g b
      → IsForest g (create_mesh g vertices indices material b).0
  unfolding create_mesh
  create_mesh-IsForest vertices indices material b forest = record {
    ordered = forest.ordered;
    meshes =
        λ i n m e has. omega (arith, forest.meshes i n m e has, length-append b.meshes (_ ∷ []));
  }

  pub create_material-IsForest :
      (mat : Material g) (b : SceneBuilder g)
      → IsForest g b
      → IsForest g (create_material g mat b).0
  unfolding create_material
  create_material-IsForest mat b forest = record {
    ordered = forest.ordered;
    meshes = forest.meshes;
  }
