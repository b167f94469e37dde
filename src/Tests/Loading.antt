-- ===== src/Tests/Loading.antt =====
-- The theorems on glTF files, on flattening and on key frames at a small file.
use pathological_v.Prelude.{
  subst, ◌%◌, ◌*◌, ℕ, zero, suc, ◌+◌, ◌<◌, ◌≡◌, refl, none, some, [], ◌∷◌, List, All, true, false,
  arith, inl, inr, get_elem?, length, leb, Bool-cases,
}
use pathological_v.Prelude.Int.{ℤ, pos, negsuc}
use pathological_v.Prelude.Run.{done, Ensures, IsSafe, Returns}
use pathological_v.Gltf.{Model, GltfNode, Primitive, int_at}
use pathological_v.Builder.{MeshData, Node, SceneBuilder, get_root_nodes, append_mesh}
use pathological_v.Builder.Loading.{load_gltf_node}
use pathological_v.Builder.Loading.Skips.{load_gltf_node-skips}
use pathological_v.Builder.Flattening.{AllBelow, IsFlat}
use pathological_v.Builder.Forest.{IsForest}
use pathological_v.Builder.Forest.Loads.{RankedBelow}
use pathological_v.Builder.Forest.Flattens.{flatten_to_scene_visits}
use pathological_v.Builder.Traversal.{no_flat, scene_of, flatten_to_scene}
use pathological_v.Builder.Traversal.Order.{add_visits, visits, scene_visits}
use pathological_v.Builder.Traversal.Flatness.{AreMeshes, FitsCounts}
use pathological_v.Builder.Forest.Flat.{flatten_to_scene-IsFlat}
use pathological_v.SceneGraph.{Loaded, Keys, from_gltf, sample}
use pathological_v.SceneGraph.Loads.{IsBuilt, from_gltf_build}
use pathological_v.SceneGraph.Keyframes.{IsTotal, IsSampled, sample-IsSampled}
use pathological_v.Tests.Building.{numbers, triangle}

-- A parent with a mesh of lines and a child.
abbrev file_node : ℤ → List ℤ → GltfNode ℕ
file_node mesh children = record {
  name = [];
  matrix = [];
  translation = [];
  rotation = [];
  scale = [];
  mesh = mesh;
  children = children;
}

abbrev lines : Primitive
lines = record { triangles = false; position = none; indices = negsuc 0; material = negsuc 0 }

abbrev file : Model ℕ
file = record {
  nodes = file_node (pos 0) (pos 1 ∷ []) ∷ file_node (negsuc 0) [] ∷ [];
  meshes = (lines ∷ []) ∷ [];
  accessors = [];
  buffer_views = [];
  buffers = [];
  materials = [];
  scenes = (pos 0 ∷ []) ∷ [];
  default_scene = pos 0;
  animations = [];
}

abbrev depth : ℤ → ℕ
depth (pos zero) = 1
depth (pos (suc n)) = 0
depth (negsuc n) = 0

file_ranked :
    (index : ℤ) (node : GltfNode ℕ)
    → int_at file.nodes index ≡ done node
    → RankedBelow depth (depth index) node.children
file_ranked (pos zero) node e =
    let same : file_node (pos 0) (pos 1 ∷ []) ≡ node = cc in
    subst (λ (n : GltfNode ℕ). RankedBelow depth 1 n.children) same (omega arith, tt)
file_ranked (pos (suc zero)) node e =
    let same : file_node (negsuc 0) [] ≡ node = cc in
    subst (λ (n : GltfNode ℕ). RankedBelow depth 0 n.children) same tt
file_ranked (pos (suc (suc n))) node e = absurd (cc)
file_ranked (negsuc n) node e = absurd (cc)

depth_small : (index : ℤ) → depth index < 2
depth_small (pos zero) = omega arith
depth_small (pos (suc n)) = omega arith
depth_small (negsuc n) = omega arith

abbrev loaded : Loaded ℕ
loaded = record { success = true; err = []; model = file }

from_gltf_build_example : Ensures (IsBuilt numbers) (from_gltf numbers 2 [] loaded)
from_gltf_build_example =
    from_gltf_build numbers 2 [] loaded
      (record { rank = depth; small = depth_small; acyclic = file_ranked })

abbrev empty_builder : SceneBuilder numbers
empty_builder = record { nodes = []; meshes = []; materials = [] }

load_gltf_node-skips_example :
    Ensures (λ b. length b.nodes ≡ 1) (load_gltf_node numbers 2 file (pos 0) none empty_builder)
load_gltf_node-skips_example =
    load_gltf_node-skips numbers file (pos 0) (file_node (pos 0) (pos 1 ∷ [])) 0 lines [] refl refl
      refl refl 1 none empty_builder

-- A root with the mesh of one triangle.
abbrev root : Node numbers
root = record {
  name = [];
  local_transform = 1;
  parent = none;
  children = [];
  mesh = some 0;
  translation = 0;
  rotation = 0;
  scale = 1;
}

abbrev one_mesh : SceneBuilder numbers
one_mesh = record { nodes = root ∷ []; meshes = triangle ∷ []; materials = [] }

one_mesh-IsForest : IsForest numbers one_mesh
one_mesh-IsForest = record {
  ordered = λ i n e. children i n e;
  meshes = λ i n m e has. mesh_in i n m e has;
}
  where
    children :
        (i : ℕ) (n : Node numbers)
        → get_elem? one_mesh.nodes i ≡ some n
        → All (λ c. (i < c) × (c < 1)) n.children
    children zero n e =
        let same : root ≡ n = cc in
        subst (λ (k : Node numbers). All (λ c. (0 < c) × (c < 1)) k.children) same tt
    children (suc i) n e = absurd (cc)

    mesh_in :
        (i : ℕ) (n : Node numbers) (m : ℕ)
        → get_elem? one_mesh.nodes i ≡ some n
        → n.mesh ≡ some m
        → m < 1
    mesh_in zero n m e has = let same : root ≡ n = cc in let zero_is : 0 ≡ m = cc in omega arith
    mesh_in (suc i) n m e has = absurd (cc)

flatten_to_scene_visits_example :
    flatten_to_scene numbers one_mesh
    ≡ scene_of numbers one_mesh
        (add_visits numbers one_mesh (no_flat numbers one_mesh) (scene_visits numbers one_mesh))
flatten_to_scene_visits_example =
    flatten_to_scene_visits numbers one_mesh one_mesh-IsForest (omega arith)

one_mesh-AreMeshes : AreMeshes numbers one_mesh
one_mesh-AreMeshes zero mesh e =
    let same : triangle ≡ mesh = cc in
    subst
      (λ (m : MeshData numbers).
        AllBelow (length m.vertices) m.indices × (length m.indices % 3 ≡ 0))
      same ((omega arith, (omega arith, (omega arith, tt))), refl)
one_mesh-AreMeshes (suc i) mesh e = absurd (cc)

one_mesh-FitsCounts :
    FitsCounts numbers one_mesh
      (add_visits numbers one_mesh (no_flat numbers one_mesh) (scene_visits numbers one_mesh))
unfolding scene_visits visits get_root_nodes append_mesh
one_mesh-FitsCounts = (omega arith, omega arith)

flatten_to_scene-IsFlat_example :
    IsSafe (λ s. IsFlat numbers s.flat) (flatten_to_scene numbers one_mesh)
flatten_to_scene-IsFlat_example =
    flatten_to_scene-IsFlat numbers one_mesh one_mesh-IsForest (omega arith) one_mesh-AreMeshes
      one_mesh-FitsCounts

abbrev three_keys : Keys numbers ℕ
three_keys = record { count = 3; time_at = λ i. done (i * 10); value_at = λ i. done i }

numbers-IsTotal : IsTotal numbers
numbers-IsTotal a b = elim (Bool-cases (leb a b)) [
  | inl below ↦ inl below
  | inr above ↦ inr (ground arith)
]

sample-IsSampled_example :
    Returns
      (IsSampled numbers three_keys (λ i. i * 10) (λ i. i) (λ v w t. v + w) 99 15)
      (sample numbers three_keys (λ v w t. v + w) 99 15)
sample-IsSampled_example =
    sample-IsSampled numbers three_keys (λ i. i * 10) (λ i. i) (λ v w t. v + w) 99 15
      numbers-IsTotal (record { time_read = λ i lt. refl; value_read = λ i lt. refl }) (omega arith)
