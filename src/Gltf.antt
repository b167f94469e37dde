-- ===== src/Gltf.antt =====
-- The part of `tinygltf::Model` that the scene loader reads (tinygltf is a third-party library), and
-- the reads of its buffers as render_worker/src/scene_builder.cpp and scene_graph.cpp do them.
pub mod Ends
use pathological_v.Prelude.{
  ℕ, zero, suc, ◌+◌, ◌*◌, Bytes, Bool, Option, none, some, List, [], ◌∷◌, replicate,
}
use pathological_v.Prelude.Int.{ℤ, pos, negsuc}
use pathological_v.Prelude.Run.{Run, done, faults, ◌>>=◌}

pub data ComponentType : Type 0 where
  unsigned_byte unsigned_short unsigned_int other : ComponentType

pub record Accessor : Type 0 where
  pub buffer_view : ℤ
  pub byte_offset : ℕ
  pub count : ℕ
  pub component_type : ComponentType

pub record BufferView : Type 0 where
  pub buffer : ℤ
  pub byte_offset : ℕ

-- `triangles` tells whether the mode is that of triangles, `position` is the accessor of the
-- attribute POSITION.
pub record Primitive : Type 0 where
  pub triangles : Bool
  pub position : Option ℤ
  pub indices : ℤ
  pub material : ℤ

-- `Real` are the numbers of the file, `double` in C++.
module _ (Real : Type 0) where
  pub record GltfMaterial : Type 0 where
    pub base_color_factor : List Real
    pub emissive_factor : List Real

  pub record GltfNode : Type 0 where
    pub name : Bytes
    pub matrix : List Real
    pub translation : List Real
    pub rotation : List Real
    pub scale : List Real
    pub mesh : ℤ
    pub children : List ℤ

  pub record AnimationSampler : Type 0 where
    pub input : ℤ
    pub output : ℤ

  pub record AnimationChannel : Type 0 where
    pub sampler : ℤ
    pub target_node : ℤ
    pub target_path : Bytes

  pub record Animation : Type 0 where
    pub channels : List AnimationChannel
    pub samplers : List AnimationSampler

  -- A mesh is the list of its primitives, a scene the list of its nodes, a buffer its bytes.
  pub record Model : Type 0 where
    pub nodes : List GltfNode
    pub meshes : List (List Primitive)
    pub accessors : List Accessor
    pub buffer_views : List BufferView
    pub buffers : List Bytes
    pub materials : List GltfMaterial
    pub scenes : List (List ℤ)
    pub default_scene : ℤ
    pub animations : List Animation

-- `v[i]` on a vector.
abbrev pub nat_at {ℓ} : {A : Type ℓ} → List A → ℕ → Run A
nat_at [] i = faults
nat_at (x ∷ xs) zero = done x
nat_at (x ∷ xs) (suc i) = nat_at xs i

-- An `int` below zero becomes an index that no vector has.
abbrev pub int_at {ℓ} : {A : Type ℓ} → List A → ℤ → Run A
int_at xs (pos i) = nat_at xs i
int_at xs (negsuc n) = faults

abbrev pub drop : ℕ → Bytes → Bytes
drop zero bs = bs
drop (suc n) [] = []
drop (suc n) (b ∷ bs) = drop n bs

-- The bytes from the start of an accessor's data on.
unfoldable pub accessor_data : {Real : Type 0} → Model Real → Accessor → Run Bytes
accessor_data model accessor = int_at model.buffer_views accessor.buffer_view >>= λ view.
    int_at model.buffers view.buffer >>= λ buffer.
    done (drop (view.byte_offset + accessor.byte_offset) buffer)

-- An unsigned number of `width` bytes, the lowest first.
unfoldable pub little_endian : ℕ → Bytes → Run ℕ
little_endian zero bs = done 0
little_endian (suc width) [] = faults
little_endian (suc width) (b ∷ bs) = little_endian width bs >>= λ n. done (b + 256 * n)

-- `p[i]` for a pointer `p` to numbers of `width` bytes.
unfoldable pub unit_at : ℕ → Bytes → ℕ → Run ℕ
unfolding little_endian
unit_at width bs i = little_endian width (drop (width * i) bs)

-- The values of `f` at the indices from `i` on, `left` of them.
unfoldable pub tabulate {ℓ} : {A : Type ℓ} → (ℕ → Run A) → ℕ → ℕ → Run (List A)
tabulate f i zero = done []
tabulate f i (suc left) = f i >>= λ x. tabulate f (suc i) left >>= λ xs. done (x ∷ xs)
