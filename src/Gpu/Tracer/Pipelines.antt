-- ===== src/Gpu/Tracer/Pipelines.antt =====
-- `PathTracer::createRayTracingPipeline`, `createDescriptorSets` and `loadShader`
-- (render_worker/src/path_tracer.cpp).
use pathological_v.Prelude.{ℕ, Bytes, codes, Option, none, some, List, [], ◌∷◌, ◌++◌}
use pathological_v.Prelude.Run.{of_result}
use pathological_v.Gpu.Calls.{
  general, DescriptorType, structure_descriptor, image_descriptor, buffer_descriptor, ShaderStage,
  raygen, miss, closest_hit, DescriptorSetLayoutBinding, CreateInfo, ShaderGroup, general_group,
  triangles_hit_group, shader_module_info, descriptor_set_layout_info, pipeline_layout_info,
  pipeline_info, descriptor_pool_info, descriptor_set_info, Resource, structure_resource,
  image_resource, buffer_resource, WriteDescriptorSet, create, update_descriptor_sets, TracerDriver,
  Calling, ◌>>=◌, return, fail, run, call, note,
}
use pathological_v.Gpu.Tracer.{Scene, PathTracer}

abbrev pub opened : Bytes → Option Bytes → Calling Bytes
opened filename none = fail (codes "Failed to open shader file: " ++ filename)
opened filename (some code) = return code

unfoldable pub load_shader : TracerDriver → Bytes → Calling Bytes
load_shader d filename = opened filename (d.read_file filename)

-- `createShaderModule`
abbrev pub create_shader_module : TracerDriver → Bytes → Calling ℕ
create_shader_module d code = call d (create (shader_module_info code))

abbrev pub bound : ℕ → DescriptorType → ShaderStage → DescriptorSetLayoutBinding
bound binding type stage = record {
  binding = binding;
  descriptor_type = type;
  descriptor_count = 1;
  stage = stage;
}

abbrev pub layout_bindings : List DescriptorSetLayoutBinding
layout_bindings =
    bound 0 structure_descriptor raygen
    ∷ bound 1 image_descriptor raygen
    ∷ bound 2 buffer_descriptor closest_hit
    ∷ bound 3 buffer_descriptor closest_hit
    ∷ bound 4 buffer_descriptor closest_hit
    ∷ bound 5 buffer_descriptor closest_hit
    ∷ []

abbrev pub shader_groups : List ShaderGroup
shader_groups =
    general_group (some 0) none
    ∷ general_group (some 1) none
    ∷ triangles_hit_group none (some 2)
    ∷ []

-- `sizeof(PushConstants)`
abbrev pub push_constants_size : ℕ
push_constants_size = 80

abbrev pub ray_pipeline_info : (raygen_module miss_module chit_module layout : ℕ) → CreateInfo
ray_pipeline_info raygen_module miss_module chit_module layout =
    pipeline_info ((raygen, raygen_module) ∷ (miss, miss_module) ∷ (closest_hit, chit_module) ∷ [])
      shader_groups 1 layout

unfoldable pub create_ray_tracing_pipeline : TracerDriver → PathTracer → Calling PathTracer
unfolding load_shader
create_ray_tracing_pipeline d t = do
  directory ← run (of_result d.shader_directory)
  raygen_code ← load_shader d (directory ++ codes "/raygen.rgen.spv")
  miss_code ← load_shader d (directory ++ codes "/miss.rmiss.spv")
  chit_code ← load_shader d (directory ++ codes "/closesthit.rchit.spv")
  raygen_module ← create_shader_module d raygen_code
  miss_module ← create_shader_module d miss_code
  chit_module ← create_shader_module d chit_code
  set_layout ← call d (create (descriptor_set_layout_info layout_bindings))
  layout ← call d (create (pipeline_layout_info set_layout raygen 0 push_constants_size))
  pipeline ← call d (create (ray_pipeline_info raygen_module miss_module chit_module layout))
  return (record t {
    descriptor_set_layout = some set_layout;
    pipeline_layout = some layout;
    pipeline = some pipeline;
  })

abbrev pub pool_sizes : List (DescriptorType × ℕ)
pool_sizes = (structure_descriptor, 1) ∷ (image_descriptor, 1) ∷ (buffer_descriptor, 4) ∷ []

abbrev pub descriptor_write : ℕ → ℕ → DescriptorType → Resource → WriteDescriptorSet
descriptor_write set binding type resource = record {
  dst_set = set;
  dst_binding = binding;
  write_count = 1;
  write_type = type;
  resource = resource;
}

unfoldable pub descriptor_writes : Scene → (set tlas view : ℕ) → List WriteDescriptorSet
descriptor_writes scene set tlas view =
    descriptor_write set 0 structure_descriptor (structure_resource tlas)
    ∷ descriptor_write set 1 image_descriptor (image_resource view general)
    ∷ descriptor_write set 2 buffer_descriptor (buffer_resource scene.vertex_buffer_of)
    ∷ descriptor_write set 3 buffer_descriptor (buffer_resource scene.index_buffer_of)
    ∷ descriptor_write set 4 buffer_descriptor (buffer_resource scene.material_buffer_of)
    ∷ descriptor_write set 5 buffer_descriptor (buffer_resource scene.material_index_buffer_of)
    ∷ []

abbrev pub descriptor_sets_for :
    TracerDriver → Scene → PathTracer → Option ℕ → Option ℕ → Option ℕ → Calling PathTracer
unfolding descriptor_writes
descriptor_sets_for d scene t (some layout) (some tlas) (some view) = do
  pool ← call d (create (descriptor_pool_info 1 pool_sizes))
  set ← call d (create (descriptor_set_info pool layout))
  updated ← note (update_descriptor_sets (descriptor_writes scene set tlas view))
  return (record t { descriptor_pool = some pool; descriptor_set = some set })
descriptor_sets_for d scene t none tlas view =
    fail (codes "Required objects not initialized for descriptor sets")
descriptor_sets_for d scene t (some layout) none view =
    fail (codes "Required objects not initialized for descriptor sets")
descriptor_sets_for d scene t (some layout) (some tlas) none =
    fail (codes "Required objects not initialized for descriptor sets")

unfoldable pub create_descriptor_sets : TracerDriver → Scene → PathTracer → Calling PathTracer
unfolding descriptor_writes
create_descriptor_sets d scene t =
    descriptor_sets_for d scene t t.descriptor_set_layout t.tlas t.output_image_view
