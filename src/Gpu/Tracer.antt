-- ===== src/Gpu/Tracer.antt =====
-- `Scene` and `PathTracer` on the GPU (render_worker/src/scene.cpp, path_tracer.cpp): the buffers of a
-- scene, the objects that a tracer creates, the launches of its tiles, and the image's way to a file.
pub mod Structures
pub mod Pipelines
pub mod Images
pub mod Setup
pub mod Creation
pub mod Descriptors
pub mod Launches
pub mod Saving
pub mod Built
pub mod Whole
pub mod Returning
pub mod Success
pub mod Repeated
use pathological_v.Prelude.{
  ℕ, ◌+◌, ◌-◌, ◌*◌, ◌/◌, Bytes, codes, Option, none, some, List, [], ◌∷◌, length, u32,
}
use pathological_v.Prelude.Run.{faults}
use pathological_v.Gpu.Context.{RtProperties}
use pathological_v.Gpu.ShaderTable.{ShaderTable, u64}
use pathological_v.Gpu.Calls.{
  BufferUsage, vertex_buffer, index_buffer, storage_buffer, shader_device_address,
  acceleration_structure_build_input_read_only, cpu_to_gpu, buffer_info, create, upload,
  TracerDriver, Calling, ◌>>=◌, return, call, note,
}

pub record Scene : Type 0 where
  pub vertex_buffer_of : ℕ
  pub index_buffer_of : ℕ
  pub material_buffer_of : ℕ
  pub material_index_buffer_of : ℕ
  pub vertex_count : ℕ
  pub index_count : ℕ

unfoldable pub triangle_count : Scene → ℕ
triangle_count s = s.index_count / 3

-- A buffer of `count` elements of `size` bytes, filled by `Buffer::upload`.
unfoldable pub uploaded_buffer : TracerDriver → (size count : ℕ) → List BufferUsage → Calling ℕ
uploaded_buffer d size count usage = do
  buffer ← call d (create (buffer_info (u64 (size * count)) usage cpu_to_gpu))
  copied ← note (upload buffer size count)
  return buffer

-- A vertex is 16 bytes, an index 4, a material 32.
unfoldable pub new_scene :
    {V M : Type 0} → TracerDriver → List V → List ℕ → List M → List ℕ → Calling Scene
unfolding uploaded_buffer
new_scene d vertices indices materials material_indices = do
  vertex ← uploaded_buffer d 16 (length vertices) (
      vertex_buffer ∷ shader_device_address ∷ acceleration_structure_build_input_read_only
      ∷ storage_buffer ∷ [])
  index ← uploaded_buffer d 4 (length indices) (
      index_buffer ∷ shader_device_address ∷ acceleration_structure_build_input_read_only
      ∷ storage_buffer ∷ [])
  material ← uploaded_buffer d 32 (length materials) (storage_buffer ∷ shader_device_address ∷ [])
  material_index ←
      uploaded_buffer d 4 (length material_indices) (storage_buffer ∷ shader_device_address ∷ [])
  return (record {
    vertex_buffer_of = vertex;
    index_buffer_of = index;
    material_buffer_of = material;
    material_index_buffer_of = material_index;
    vertex_count = u32 (length vertices);
    index_count = u32 (length indices);
  })

pub record PathTracer : Type 0 where
  pub width : ℕ
  pub height : ℕ
  pub output_image : Option ℕ
  pub output_image_view : Option ℕ
  pub blas_buffer : Option ℕ
  pub blas : Option ℕ
  pub tlas_buffer : Option ℕ
  pub tlas : Option ℕ
  pub instance_buffer : Option ℕ
  pub pipeline_layout : Option ℕ
  pub pipeline : Option ℕ
  pub descriptor_set_layout : Option ℕ
  pub descriptor_pool : Option ℕ
  pub descriptor_set : Option ℕ
  pub table : Option ShaderTable

abbrev pub empty_tracer : ℕ → ℕ → PathTracer
empty_tracer width height = record {
  width = width;
  height = height;
  output_image = none;
  output_image_view = none;
  blas_buffer = none;
  blas = none;
  tlas_buffer = none;
  tlas = none;
  instance_buffer = none;
  pipeline_layout = none;
  pipeline = none;
  descriptor_set_layout = none;
  descriptor_pool = none;
  descriptor_set = none;
  table = none;
}

-- `*` and `->` of an optional or a pointer that may be empty.
abbrev pub deref : {A : Type 0} → Option A → Calling A
deref none = λ calls. faults
deref (some a) = return a
