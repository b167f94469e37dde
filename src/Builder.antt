-- ===== src/Builder.antt =====
-- `SceneBuilder` (render_worker/src/scene_builder.hpp, scene_builder.cpp): the tables of nodes, meshes
-- and materials, and what flattening does with the mesh of a node.
pub mod Flattening
pub mod Animation
pub mod Loading
pub mod Traversal
pub mod Forest
use pathological_v.Prelude.{
  ℕ, zero, suc, ◌+◌, ◌*◌, ◌/◌, ◌%◌, ◌<◌, ◌≡◌, Bytes, codes, Bool, true, false, ◌||◌, Option, none,
  some, List, [], ◌∷◌, ◌++◌, map, length, get_elem?, set, replicate, leb, u32, if◌then◌else◌,
}
use pathological_v.Prelude.Result.{Result, ok, throws}

-- The floating-point numbers, the vectors, quaternions and matrices of glm, and the operations on
-- them: `real` is the number that the four bytes of a `float` stand for, `at_most` its `<=`, `over` its
-- division. The rest of a vertex is padding.
pub record Glm : Type 1 where
  pub Real : Type 0
  pub Vec3 : Type 0
  pub Quat : Type 0
  pub Mat4 : Type 0
  pub real : ℕ → Real
  pub at_most : Real → Real → Bool
  pub minus : Real → Real → Real
  pub over : Real → Real → Real
  pub vec3 : Real → Real → Real → Vec3
  pub quat : Real → Real → Real → Real → Quat
  pub make_mat4 : List Real → Mat4
  pub light_grey : Vec3
  pub zeros : Vec3
  pub ones : Vec3
  pub no_rotation : Quat
  pub identity : Mat4
  pub mix : Vec3 → Vec3 → Real → Vec3
  pub slerp : Quat → Quat → Real → Quat
  pub translate : Vec3 → Mat4
  pub mat4_cast : Quat → Mat4
  pub scale : Vec3 → Mat4
  pub times : Mat4 → Mat4 → Mat4
  pub transform : Mat4 → Vec3 → Vec3

module _ (g : Glm) where
  pub record Node : Type 0 where
    pub name : Bytes
    pub local_transform : g.Mat4
    pub parent : Option ℕ
    pub children : List ℕ
    pub mesh : Option ℕ
    pub translation : g.Vec3
    pub rotation : g.Quat
    pub scale : g.Vec3

  pub record Material : Type 0 where
    pub albedo : g.Vec3
    pub emission : g.Vec3

  pub record MeshData : Type 0 where
    pub vertices : List g.Vec3
    pub indices : List ℕ
    pub material_id : ℕ

  pub record SceneBuilder : Type 0 where
    pub nodes : List Node
    pub meshes : List MeshData
    pub materials : List Material

  unfoldable pub create_node : Bytes → SceneBuilder → SceneBuilder × ℕ
  create_node name b = (
    record b {
      nodes =
          b.nodes
          ++ record {
            name = name;
            local_transform = g.identity;
            parent = none;
            children = [];
            mesh = none;
            translation = g.zeros;
            rotation = g.no_rotation;
            scale = g.ones;
          }
            ∷ [];
    },
    u32 (length b.nodes),
  )

  -- A change of the node at an index of the vector.
  abbrev pub modify : ℕ → (Node → Node) → List Node → List Node
  modify i f [] = []
  modify zero f (n ∷ ns) = f n ∷ ns
  modify (suc i) f (n ∷ ns) = n ∷ modify i f ns

  -- The setters throw for an id that no node has.
  unfoldable pub change_node : ℕ → Bytes → (Node → Node) → SceneBuilder → Result SceneBuilder
  change_node node complaint f b =
      if leb (length b.nodes) node
      then throws complaint
      else ok (record b { nodes = modify node f b.nodes })

  unfoldable pub set_parent : ℕ → ℕ → SceneBuilder → Result SceneBuilder
  set_parent child parent b =
      if leb (length b.nodes) child || leb (length b.nodes) parent
      then throws (codes "Invalid node ID in setParent")
      else ok (record b {
        nodes =
            modify parent (λ n. record n { children = n.children ++ child ∷ [] })
              (modify child (λ n. record n { parent = some parent }) b.nodes);
      })

  unfoldable pub set_local_transform : ℕ → g.Mat4 → SceneBuilder → Result SceneBuilder
  unfolding change_node
  set_local_transform node t =
      change_node node (codes "Invalid node ID in setLocalTransform")
        λ n. record n { local_transform = t }

  unfoldable pub set_mesh : ℕ → ℕ → SceneBuilder → Result SceneBuilder
  unfolding change_node
  set_mesh node mesh =
      change_node node (codes "Invalid node ID in setMesh") λ n. record n { mesh = some mesh }

  unfoldable pub create_mesh : List g.Vec3 → List ℕ → ℕ → SceneBuilder → SceneBuilder × ℕ
  create_mesh vertices indices material b = (
    record b {
      meshes =
          b.meshes
          ++ record { vertices = vertices; indices = indices; material_id = material } ∷ [];
    },
    u32 (length b.meshes),
  )

  unfoldable pub create_material : Material → SceneBuilder → SceneBuilder × ℕ
  create_material mat b =
      (record b { materials = b.materials ++ mat ∷ [] }, u32 (length b.materials))

  unfoldable pub update_node_transform : Node → Node
  update_node_transform n = record n {
    local_transform =
        g.times (g.times (g.translate n.translation) (g.mat4_cast n.rotation)) (g.scale n.scale);
  }

  unfoldable pub set_node_translation : ℕ → g.Vec3 → SceneBuilder → Result SceneBuilder
  unfolding change_node update_node_transform
  set_node_translation node t =
      change_node node (codes "Invalid node ID in setNodeTranslation")
        λ n. update_node_transform (record n { translation = t })

  unfoldable pub set_node_rotation : ℕ → g.Quat → SceneBuilder → Result SceneBuilder
  unfolding change_node update_node_transform
  set_node_rotation node r =
      change_node node (codes "Invalid node ID in setNodeRotation")
        λ n. update_node_transform (record n { rotation = r })

  unfoldable pub set_node_scale : ℕ → g.Vec3 → SceneBuilder → Result SceneBuilder
  unfolding change_node update_node_transform
  set_node_scale node f =
      change_node node (codes "Invalid node ID in setNodeScale")
        λ n. update_node_transform (record n { scale = f })

  abbrev root_at : ℕ → Option ℕ → List ℕ → List ℕ
  root_at i none roots = i ∷ roots
  root_at i (some p) roots = roots

  -- The ids from `i` on of the nodes without a parent, as long as the ids fit 32 bits: what
  -- `flatten_to_scene` does with more nodes is written there.
  unfoldable pub roots_from : ℕ → List Node → List ℕ
  roots_from i [] = []
  roots_from i (n ∷ ns) = root_at i n.parent (roots_from (i + 1) ns)

  unfoldable pub get_root_nodes : SceneBuilder → List ℕ
  unfolding roots_from
  get_root_nodes b = roots_from 0 b.nodes

  -- The output of the flattening.
  pub record Flat : Type 0 where
    pub vertices : List g.Vec3
    pub indices : List ℕ
    pub material_indices : List ℕ

  -- What a visit of `traverseAndFlatten` appends for the mesh of its node.
  unfoldable pub append_mesh : g.Mat4 → MeshData → Flat → Flat
  append_mesh world mesh out =
      let base_vertex = u32 (length out.vertices) in
      record {
        vertices = out.vertices ++ map (g.transform world) mesh.vertices;
        indices = out.indices ++ map (λ idx. u32 (base_vertex + idx)) mesh.indices;
        material_indices =
            out.material_indices ++ replicate (u32 (length mesh.indices / 3)) mesh.material_id;
      }
