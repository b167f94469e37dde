-- ===== src/Builder/Traversal.antt =====
-- `flattenToScene` and `traverseAndFlatten` (render_worker/src/scene_builder.cpp), and the order in
-- which they visit the nodes.
pub mod Order
pub mod Flatness
use pathological_v.Prelude.{
  ℕ, zero, suc, ◌≡◌, Bytes, codes, Bool, Option, none, some, List, [], ◌∷◌, ◌++◌, get_elem?, length,
  ltb, if◌then◌else◌,
}
use pathological_v.Prelude.Run.{Run, done, throws, faults, out_of_fuel, ◌>>=◌}
use pathological_v.Builder.{
  Glm, Node, MeshData, Material, SceneBuilder, Flat, append_mesh, get_root_nodes,
}
use pathological_v.Gltf.{nat_at}

-- The arguments of the constructor of `Scene`.
pub record SceneData (g : Glm) : Type 0 where
  pub flat : Flat g
  pub materials : List (Material g)

module _ (g : Glm) (b : SceneBuilder g) where
  unfoldable pub flatten_mesh : g.Mat4 → Option ℕ → Flat g → Run (Flat g)
  unfolding append_mesh
  flatten_mesh world none out = done out
  flatten_mesh world (some mesh) out =
      nat_at b.meshes mesh >>= λ m. done (append_mesh g world m out)

  -- The loop over the children, with what it does for each.
  abbrev pub visit_each : (ℕ → Flat g → Run (Flat g)) → List ℕ → Flat g → Run (Flat g)
  visit_each visit [] out = done out
  visit_each visit (child ∷ rest) out = visit child out >>= λ out'. visit_each visit rest out'

  -- The recursion follows the lists of children: it is on fuel.
  unfoldable pub traverse_and_flatten : ℕ → g.Mat4 → ℕ → Flat g → Run (Flat g)
  unfolding flatten_mesh
  traverse_and_flatten zero parent_transform node_id out = out_of_fuel
  traverse_and_flatten (suc fuel) parent_transform node_id out = nat_at b.nodes node_id >>= λ node.
      let world = g.times parent_transform node.local_transform in
      flatten_mesh world node.mesh out >>= λ out'.
      visit_each (traverse_and_flatten fuel world) node.children out'

  abbrev pub no_flat : Flat g
  no_flat = record { vertices = []; indices = []; material_indices = [] }

  abbrev pub scene_with : Flat g → List g.Vec3 → Run (SceneData g)
  scene_with out [] = throws (codes "Scene has no geometry")
  scene_with out (v ∷ vs) = done (record { flat = out; materials = b.materials })

  abbrev pub scene_of : Flat g → Run (SceneData g)
  scene_of out = scene_with out out.vertices

  -- The traversal from each root, with fuel for as many levels as there are nodes.
  abbrev pub flatten_from : List ℕ → Run (SceneData g)
  flatten_from roots =
      visit_each (traverse_and_flatten (length b.nodes) g.identity) roots no_flat >>= scene_of

  -- `getRootNodes` counts with 32 bits: its loop over 2^32 nodes or more never ends.
  unfoldable pub flatten_to_scene : Run (SceneData g)
  unfolding traverse_and_flatten get_root_nodes
  flatten_to_scene =
      if ltb (length b.nodes) 4294967296 then flatten_from (get_root_nodes g b) else out_of_fuel
