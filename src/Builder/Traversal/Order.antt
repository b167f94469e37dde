-- ===== src/Builder/Traversal/Order.antt =====
-- The flattened scene without the traversal: the visits of the nodes in their order, and what each of
-- them adds.
use pathological_v.Prelude.{
  ℕ, zero, suc, Option, none, some, List, [], ◌∷◌, ◌++◌, get_elem?, length,
}
use pathological_v.Builder.{Glm, Node, MeshData, SceneBuilder, Flat, append_mesh, get_root_nodes}

module _ (g : Glm) (b : SceneBuilder g) where
  -- A node that is visited, with its transform in the world.
  abbrev pub Visit : Type 0
  Visit = g.Mat4 × Node g

  abbrev pub visits_of : (ℕ → List Visit) → List ℕ → List Visit
  visits_of visits [] = []
  visits_of visits (c ∷ cs) = visits c ++ visits_of visits cs

  -- A node comes before its children, and these in their order; the transforms along a path are
  -- multiplied.
  unfoldable pub visits : ℕ → g.Mat4 → ℕ → List Visit
  visits zero parent_transform id = []
  visits (suc depth) parent_transform id = elim (get_elem? b.nodes id) [
    | none ↦ []
    | some node ↦
        let world = g.times parent_transform node.local_transform in
        (world, node) ∷ visits_of (visits depth world) node.children
  ]

  abbrev pub add_mesh : g.Mat4 → Flat g → Option (MeshData g) → Flat g
  add_mesh world out none = out
  add_mesh world out (some mesh) = append_mesh g world mesh out

  abbrev pub mesh_of : Option ℕ → Option (MeshData g)
  mesh_of none = none
  mesh_of (some m) = get_elem? b.meshes m

  -- The meshes of the visits, one after another.
  abbrev pub add_visits : Flat g → List Visit → Flat g
  add_visits out [] = out
  add_visits out ((world, node) ∷ vs) = add_visits (add_mesh world out (mesh_of node.mesh)) vs

  unfoldable pub scene_visits : List Visit
  scene_visits = visits_of (visits (length b.nodes) g.identity) (get_root_nodes g b)
