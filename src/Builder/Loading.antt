-- ===== src/Builder/Loading.antt =====
-- `loadGltfNode` (render_worker/src/scene_builder.cpp): a node of a glTF file, its mesh and its
-- children become nodes of the builder.
pub mod Ends
pub mod Skips
use pathological_v.Prelude.{
  ℕ, zero, suc, ◌+◌, ◌*◌, ◌≡◌, Bytes, Bool, true, false, Option, none, some, List, [], ◌∷◌, length,
  replicate, u32, codes, ◌==◌, if◌then◌else◌,
}
use pathological_v.Prelude.Int.{ℤ, pos, negsuc}
use pathological_v.Prelude.Run.{Run, done, faults, out_of_fuel, ◌>>=◌, of_result}
use pathological_v.Gltf.{
  ComponentType, unsigned_byte, unsigned_short, unsigned_int, other, Accessor, Primitive,
  GltfMaterial, GltfNode, Model, nat_at, int_at, accessor_data, unit_at, tabulate,
}
use pathological_v.Builder.{
  Glm, Node, Material, SceneBuilder, create_node, set_parent, set_local_transform, set_mesh,
  create_mesh, create_material,
}

module _ (g : Glm) where
  abbrev pub File : Type 0
  File = Model g.Real

  unfoldable pub convert_gltf_material : GltfMaterial g.Real → Run (Material g)
  convert_gltf_material m = nat_at m.base_color_factor 0 >>= λ red.
      nat_at m.base_color_factor 1 >>= λ green. nat_at m.base_color_factor 2 >>= λ blue.
      nat_at m.emissive_factor 0 >>= λ x. nat_at m.emissive_factor 1 >>= λ y.
      nat_at m.emissive_factor 2 >>= λ z.
      done (record { albedo = g.vec3 red green blue; emission = g.vec3 x y z })

  -- A list of the right length is taken, any other leaves the default.
  abbrev pub vec3_or : g.Vec3 → List g.Real → g.Vec3
  vec3_or v (x ∷ y ∷ z ∷ []) = g.vec3 x y z
  vec3_or v _ = v

  -- glTF has the scalar part last, glm first.
  abbrev pub quat_or : g.Quat → List g.Real → g.Quat
  quat_or q (x ∷ y ∷ z ∷ w ∷ []) = g.quat w x y z
  quat_or q _ = q

  unfoldable pub get_gltf_node_transform : GltfNode g.Real → g.Mat4
  get_gltf_node_transform n =
      if length n.matrix == 16
      then g.make_mat4 n.matrix
      else g.times
          (g.times (g.translate (vec3_or g.zeros n.translation))
            (g.mat4_cast (quat_or g.no_rotation n.rotation)))
          (g.scale (vec3_or g.ones n.scale))

  -- `positions[3 * i]` and the two behind it.
  unfoldable pub position_at : Bytes → ℕ → Run g.Vec3
  position_at bytes i = unit_at 4 bytes (i * 3 + 0) >>= λ x. unit_at 4 bytes (i * 3 + 1) >>= λ y.
      unit_at 4 bytes (i * 3 + 2) >>= λ z. done (g.vec3 (g.real x) (g.real y) (g.real z))

  unfoldable pub load_vertices : File → Option ℤ → Run (List g.Vec3)
  unfolding accessor_data tabulate position_at
  load_vertices model none = done []
  load_vertices model (some index) = int_at model.accessors index >>= λ accessor.
      accessor_data model accessor >>= λ bytes. tabulate (position_at bytes) 0 accessor.count

  -- A component type that is none of the three leaves the zeros of `resize`.
  unfoldable pub read_indices : ComponentType → Bytes → ℕ → Run (List ℕ)
  unfolding tabulate unit_at
  read_indices unsigned_byte bytes count = tabulate (unit_at 1 bytes) 0 count
  read_indices unsigned_short bytes count = tabulate (unit_at 2 bytes) 0 count
  read_indices unsigned_int bytes count = tabulate (unit_at 4 bytes) 0 count
  read_indices other bytes count = done (replicate count 0)

  unfoldable pub load_indices : File → ℤ → Run (List ℕ)
  unfolding accessor_data read_indices
  load_indices model (negsuc n) = done []
  load_indices model (pos index) = nat_at model.accessors index >>= λ accessor.
      accessor_data model accessor >>= λ bytes.
      read_indices accessor.component_type bytes accessor.count

  unfoldable pub load_material : File → ℤ → Run (Material g)
  unfolding convert_gltf_material
  load_material model (negsuc n) = done (record { albedo = g.light_grey; emission = g.zeros })
  load_material model (pos index) = nat_at model.materials index >>= convert_gltf_material

  -- The mesh of a node from its first primitive.
  unfoldable pub load_primitive : File → ℕ → Primitive → SceneBuilder g → Run (SceneBuilder g)
  load_primitive model node_id primitive b = load_vertices model primitive.position >>= λ vertices.
      load_indices model primitive.indices >>= λ indices.
      load_material model primitive.material >>= λ mat.
      let with_material = create_material g mat b in
      let with_mesh = create_mesh g vertices indices with_material.1 with_material.0 in
      of_result (set_mesh g node_id with_mesh.1 with_mesh.0)

  -- The builder with the mesh of the node, and whether the function goes on to the children: it
  -- returns at a primitive that is not made of triangles.
  unfoldable pub load_primitives :
      File → ℕ → List Primitive → SceneBuilder g → Run (SceneBuilder g × Bool)
  unfolding load_primitive
  load_primitives model node_id [] b = done (b, true)
  load_primitives model node_id (primitive ∷ rest) b =
      let loaded = load_primitive model node_id primitive b in
      if primitive.triangles then (loaded >>= λ b'. done (b', true)) else done (b, false)

  unfoldable pub load_mesh : File → ℕ → ℤ → SceneBuilder g → Run (SceneBuilder g × Bool)
  unfolding load_primitives
  load_mesh model node_id (negsuc n) b = done (b, true)
  load_mesh model node_id (pos index) b =
      nat_at model.meshes index >>= λ primitives. load_primitives model node_id primitives b

  unfoldable pub link_parent : ℕ → Option ℕ → SceneBuilder g → Run (SceneBuilder g)
  link_parent node_id none b = done b
  link_parent node_id (some parent) b = of_result (set_parent g node_id parent b)

  -- The node itself: its entry, transform, parent and mesh.
  unfoldable pub load_one :
      File → GltfNode g.Real → Option ℕ → SceneBuilder g → Run (SceneBuilder g × Bool)
  unfolding link_parent load_mesh
  load_one model node parent b =
      let created = create_node g node.name b in
      of_result (set_local_transform g created.1 (get_gltf_node_transform node) created.0)
      >>= λ placed. link_parent created.1 parent placed >>= λ linked.
          load_mesh model created.1 node.mesh linked

  -- The loop over the children, with what it does for each.
  abbrev pub for_each :
      (ℤ → SceneBuilder g → Run (SceneBuilder g)) → List ℤ → SceneBuilder g → Run (SceneBuilder g)
  for_each load [] b = done b
  for_each load (child ∷ rest) b = load child b >>= λ b'. for_each load rest b'

  -- The recursion follows the file's node indices, which may run in a circle: it is on fuel.
  unfoldable pub load_gltf_node : ℕ → File → ℤ → Option ℕ → SceneBuilder g → Run (SceneBuilder g)
  unfolding load_one
  load_gltf_node zero model index parent b = out_of_fuel
  load_gltf_node (suc fuel) model index parent b = int_at model.nodes index >>= λ node.
      load_one model node parent b >>= λ loaded.
      let node_id = u32 (length b.nodes) in
      if loaded.1
      then for_each (λ child. load_gltf_node fuel model child (some node_id)) node.children loaded.0
      else done loaded.0
