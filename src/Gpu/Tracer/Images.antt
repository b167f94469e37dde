-- ===== src/Gpu/Tracer/Images.antt =====
-- The constructor of `PathTracer`, `render`, `renderTileRegion` and `saveImage`
-- (render_worker/src/path_tracer.cpp), and their use in `generateScene` (render_worker/src/render_worker.cpp).
use pathological_v.Prelude.{ℕ, ◌*◌, u32, Bytes, some, List, [], ◌∷◌}
use pathological_v.Gpu.Context.{RtProperties}
use pathological_v.Gpu.ShaderTable.{ShaderTable, u64, create_shader_binding_table}
use pathological_v.Gpu.Calls.{
  general, transfer_src_optimal, shader_write, transfer_read, ray_tracing_shader, transfer,
  transfer_dst, gpu_to_cpu, raygen, buffer_info, Vec3, PushConstants, TraceRegions, Command,
  pipeline_barrier, bind_pipeline, bind_descriptor_set, push_constants, trace_rays,
  copy_image_to_buffer, create, submit, fill_table, write_png, TracerDriver, Calling, ◌>>=◌, return,
  run, call, note,
}
use pathological_v.Tiles
use pathological_v.Tiles.{Tile}
use pathological_v.Gpu.Tracer.{Scene, new_scene, PathTracer, empty_tracer, deref}
use pathological_v.Gpu.Tracer.Structures.{create_output_image, create_acceleration_structures}
use pathological_v.Gpu.Tracer.Pipelines.{create_ray_tracing_pipeline, create_descriptor_sets}

abbrev pub with_table : TracerDriver → RtProperties → PathTracer → Calling PathTracer
with_table d p t = do
  table ← run (create_shader_binding_table d.tables p t.pipeline)
  pipeline ← deref t.pipeline
  filled ← note (fill_table pipeline table)
  return (record t { table = some table })

unfoldable pub new_path_tracer :
    TracerDriver → RtProperties → Scene → (width height : ℕ) → Calling PathTracer
unfolding create_output_image create_acceleration_structures create_ray_tracing_pipeline
    create_shader_binding_table create_descriptor_sets
new_path_tracer d p scene width height = do
  t1 ← create_output_image d (empty_tracer width height)
  t2 ← create_acceleration_structures d scene t1
  t3 ← create_ray_tracing_pipeline d t2
  t4 ← with_table d p t3
  create_descriptor_sets d scene t4

-- 3.5, 45 and 1 as `float`.
abbrev pub three_and_half : ℕ
three_and_half = 0x4060_0000

abbrev pub forty_five : ℕ
forty_five = 0x4234_0000

abbrev pub one : ℕ
one = 0x3f80_0000

unfoldable pub tile_constants : TracerDriver → PathTracer → Tile → (samples : ℕ) → PushConstants
tile_constants d t tile samples =
    let position : Vec3 = (0, 0, three_and_half) in
    let forward = d.normalize (d.minus (0, 0, 0) position) in
    let right = d.normalize (d.cross forward (0, one, 0)) in
    record {
      camera_position = position;
      fov = d.radians forty_five;
      camera_forward = forward;
      samples_per_pixel = samples;
      camera_right = right;
      frame_index = 0;
      camera_up = d.cross right forward;
      max_bounces = 8;
      tile_offset = (tile.offset_x, tile.offset_y);
      image_size = (t.width, t.height);
    }

abbrev pub regions_of : ShaderTable → TraceRegions
regions_of table = record {
  raygen_region = table.raygen;
  miss_region = table.miss;
  hit_region = table.hit;
  callable_region = table.callable;
}

abbrev pub tile_commands :
    TracerDriver
    → PathTracer
    → Tile
    → (samples pipeline set layout : ℕ) → ShaderTable
    → List Command
tile_commands d t tile samples pipeline set layout table =
    bind_pipeline pipeline
    ∷ bind_descriptor_set layout set
    ∷ push_constants layout raygen (tile_constants d t tile samples)
    ∷ trace_rays (regions_of table) tile.width tile.height 1
    ∷ []

-- `renderTileRegion`
unfoldable pub launch_tile : TracerDriver → PathTracer → (samples : ℕ) → Tile → Calling ℕ
unfolding tile_constants
launch_tile d t samples tile = do
  pipeline ← deref t.pipeline
  set ← deref t.descriptor_set
  layout ← deref t.pipeline_layout
  table ← deref t.table
  call d (submit (tile_commands d t tile samples pipeline set layout table))

unfoldable pub launch_tiles :
    TracerDriver → PathTracer → (samples : ℕ) → List Tile → Calling (Unit {0})
unfolding launch_tile
launch_tiles d t samples [] = return tt
launch_tiles d t samples (tile ∷ tiles) = do
  launched ← launch_tile d t samples tile
  launch_tiles d t samples tiles

-- `render`: the launches in the order of the subdivision.
unfoldable pub render_image :
    TracerDriver → PathTracer → (samples max_tile : ℕ) → Calling (Unit {0})
unfolding launch_tiles Tiles.render
render_image d t samples max_tile =
    launch_tiles d t samples (Tiles.render t.width t.height max_tile).launches

abbrev pub save_commands : PathTracer → (image buffer : ℕ) → List Command
save_commands t image buffer =
    pipeline_barrier (record {
      old_layout = general;
      new_layout = transfer_src_optimal;
      image = image;
      src_access = some shader_write;
      dst_access = some transfer_read;
      src_stage = ray_tracing_shader;
      dst_stage = transfer;
    })
    ∷ copy_image_to_buffer image transfer_src_optimal buffer t.width t.height
    ∷ []

-- An `int` that stb is given is the number of its 32 bits. What stb returns is not looked at.
unfoldable pub save_image : TracerDriver → PathTracer → Bytes → Calling (Unit {0})
save_image d t filename = do
  buffer ←
      call d
        (create (buffer_info (u64 (u64 (t.width * t.height) * 4)) (transfer_dst ∷ []) gpu_to_cpu))
  image ← deref t.output_image
  copied ← call d (submit (save_commands t image buffer))
  wrote ← note (
      write_png filename (u32 t.width) (u32 t.height) 4 buffer (u32 (t.width * 4))
        (d.writes_png filename))
  return tt

-- The GPU part of `generateScene`: the tracer of a scene, one image and its file.
unfoldable pub trace_image :
    TracerDriver
    → RtProperties
    → Scene
    → (width height samples max_tile : ℕ) → Bytes
    → Calling PathTracer
unfolding new_path_tracer render_image save_image
trace_image d p scene width height samples max_tile filename = do
  t ← new_path_tracer d p scene width height
  rendered ← render_image d t samples max_tile
  saved ← save_image d t filename
  return t

-- The same, with the scene's buffers before it.
unfoldable pub trace_scene :
    {V M : Type 0}
    → TracerDriver
    → RtProperties
    → List V
    → List ℕ
    → List M
    → List ℕ
    → (width height samples max_tile : ℕ) → Bytes
    → Calling PathTracer
unfolding new_scene trace_image
trace_scene d p vertices indices materials material_indices width height samples max_tile filename =
    do
      scene ← new_scene d vertices indices materials material_indices
      trace_image d p scene width height samples max_tile filename
