-- ===== src/Gpu/Tracer/Structures.antt =====
-- `PathTracer::createOutputImage` and `createAccelerationStructures` (render_worker/src/path_tracer.cpp).
use pathological_v.Prelude.{ℕ, ◌+◌, u32, none, some, [], ◌∷◌}
use pathological_v.Gpu.Calls.{
  undefined, general, shader_write, top_of_pipe, ray_tracing_shader, storage_buffer,
  shader_device_address, acceleration_structure_build_input_read_only,
  acceleration_structure_storage, gpu_only, cpu_to_gpu, storage, transfer_src, r8g8b8a8_unorm,
  r32g32b32_sfloat, StructureType, bottom_level, top_level, CreateInfo, image_info, image_view_info,
  buffer_info, structure_info, Geometry, triangles, instances, Instance, Command, pipeline_barrier,
  build_structure, create, upload_instance, submit, TracerDriver, Calling, ◌>>=◌, return, call,
  note,
}
use pathological_v.Gpu.Tracer.{Scene, triangle_count, PathTracer}

abbrev pub output_info : ℕ → ℕ → CreateInfo
output_info width height =
    image_info width height r8g8b8a8_unorm (storage ∷ transfer_src ∷ []) undefined

abbrev pub to_general : ℕ → Command
to_general image = pipeline_barrier (record {
  old_layout = undefined;
  new_layout = general;
  image = image;
  src_access = none;
  dst_access = some shader_write;
  src_stage = top_of_pipe;
  dst_stage = ray_tracing_shader;
})

unfoldable pub create_output_image : TracerDriver → PathTracer → Calling PathTracer
create_output_image d t = do
  image ← call d (create (output_info t.width t.height))
  view ← call d (create (image_view_info image r8g8b8a8_unorm))
  moved ← call d (submit (to_general image ∷ []))
  return (record t { output_image = some image; output_image_view = some view })

abbrev pub structure_buffer : ℕ → CreateInfo
structure_buffer size =
    buffer_info size (acceleration_structure_storage ∷ shader_device_address ∷ []) gpu_only

abbrev pub scratch_buffer : ℕ → CreateInfo
scratch_buffer size = buffer_info size (storage_buffer ∷ shader_device_address ∷ []) gpu_only

abbrev pub build_command :
    StructureType → Geometry → (structure scratch primitive_count : ℕ) → Command
build_command type geometry structure scratch primitive_count = build_structure (record {
  structure_type = type;
  geometry = geometry;
  dst_structure = structure;
  scratch_data = scratch;
  primitive_count = primitive_count;
})

-- A structure in a buffer of its own, of the size that the driver gives, and its build with scratch
-- memory: the buffer and the structure.
unfoldable pub create_structure :
    TracerDriver → StructureType → Geometry → (primitive_count : ℕ) → Calling (ℕ × ℕ)
create_structure d type geometry primitive_count =
    let sizes = d.build_sizes geometry primitive_count in
    do
      buffer ← call d (create (structure_buffer (sizes.0)))
      structure ← call d (create (structure_info buffer (sizes.0) type))
      scratch ← call d (create (scratch_buffer (sizes.1)))
      built ← call d (submit (build_command type geometry structure scratch primitive_count ∷ []))
      return (buffer, structure)

-- `maxVertex` is `vertexCount() - 1` on `uint32_t`.
abbrev pub scene_geometry : Scene → Geometry
scene_geometry s =
    triangles r32g32b32_sfloat s.vertex_buffer_of 16 (u32 (s.vertex_count + 4294967295))
      s.index_buffer_of

abbrev pub instance_buffer_info : CreateInfo
instance_buffer_info =
    buffer_info 64 (acceleration_structure_build_input_read_only ∷ shader_device_address ∷ [])
      cpu_to_gpu

abbrev pub instance_of : ℕ → Instance
instance_of blas = record {
  transform = (1 ∷ 0 ∷ 0 ∷ 0 ∷ []) ∷ (0 ∷ 1 ∷ 0 ∷ 0 ∷ []) ∷ (0 ∷ 0 ∷ 1 ∷ 0 ∷ []) ∷ [];
  custom_index = 0;
  mask = 255;
  record_offset = 0;
  cull_disable = 1;
  structure_reference = blas;
}

unfoldable pub create_acceleration_structures :
    TracerDriver → Scene → PathTracer → Calling PathTracer
unfolding triangle_count create_structure
create_acceleration_structures d scene t = do
  bottom ← create_structure d bottom_level (scene_geometry scene) (triangle_count scene)
  buffer ← call d (create instance_buffer_info)
  copied ← note (upload_instance buffer (instance_of (bottom.1)))
  top ← create_structure d top_level (instances buffer) 1
  return (record t {
    blas_buffer = some (bottom.0);
    blas = some (bottom.1);
    instance_buffer = some buffer;
    tlas_buffer = some (top.0);
    tlas = some (top.1);
  })
