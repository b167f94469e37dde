-- ===== src/Gpu/Calls.antt =====
-- The Vulkan calls that `Scene` and `PathTracer` make (render_worker/src/scene.cpp, path_tracer.cpp), as
-- data: what is created, and the commands that are recorded. Objects are numbered in the order of the
-- calls. Where the code passes the device address of an object, the number stands for it.
use pathological_v.Prelude.{Bool, ℕ, Bytes, Option, List, ◌++◌, [], ◌∷◌, length}
use pathological_v.Prelude.Result.{Result}
use pathological_v.Prelude.Run.{Run, done, throws, faults, out_of_fuel}
use pathological_v.Gpu.ShaderTable.{Region, ShaderTable, TableDriver}

pub data ImageLayout : Type 0 where
  undefined general transfer_src_optimal : ImageLayout

pub data Access : Type 0 where
  shader_write transfer_read : Access

pub data PipelineStage : Type 0 where
  top_of_pipe ray_tracing_shader transfer : PipelineStage

pub data BufferUsage : Type 0 where
  vertex_buffer index_buffer storage_buffer transfer_dst shader_device_address
        acceleration_structure_build_input_read_only acceleration_structure_storage :
      BufferUsage

pub data MemoryUsage : Type 0 where
  gpu_only cpu_to_gpu gpu_to_cpu : MemoryUsage

pub data ImageUsage : Type 0 where
  storage transfer_src : ImageUsage

pub data Format : Type 0 where
  r8g8b8a8_unorm r32g32b32_sfloat : Format

pub data DescriptorType : Type 0 where
  structure_descriptor image_descriptor buffer_descriptor : DescriptorType

pub data ShaderStage : Type 0 where
  raygen miss closest_hit : ShaderStage

pub data StructureType : Type 0 where
  bottom_level top_level : StructureType

pub record DescriptorSetLayoutBinding : Type 0 where
  pub binding : ℕ
  pub descriptor_type : DescriptorType
  pub descriptor_count : ℕ
  pub stage : ShaderStage

-- `VK_SHADER_UNUSED_KHR` is `none`; the two other shaders of a group are unused in every group.
pub data ShaderGroup : Type 0 where
  general_group : Option ℕ → Option ℕ → ShaderGroup
  triangles_hit_group : Option ℕ → Option ℕ → ShaderGroup

pub data CreateInfo : Type 0 where
  image_info : (width height : ℕ) → Format → List ImageUsage → ImageLayout → CreateInfo
  image_view_info : (image : ℕ) → Format → CreateInfo
  buffer_info : (size : ℕ) → List BufferUsage → MemoryUsage → CreateInfo
  structure_info : (buffer size : ℕ) → StructureType → CreateInfo
  shader_module_info : Bytes → CreateInfo
  descriptor_set_layout_info : List DescriptorSetLayoutBinding → CreateInfo
  pipeline_layout_info : (set_layout : ℕ) → ShaderStage → (offset size : ℕ) → CreateInfo
  pipeline_info :
      List (ShaderStage × ℕ) → List ShaderGroup → (recursion_depth layout : ℕ) → CreateInfo
  descriptor_pool_info : (max_sets : ℕ) → List (DescriptorType × ℕ) → CreateInfo
  descriptor_set_info : (pool layout : ℕ) → CreateInfo

-- The colour aspect, the first mip level and the first array layer of an image.
pub record ImageMemoryBarrier : Type 0 where
  pub old_layout : ImageLayout
  pub new_layout : ImageLayout
  pub image : ℕ
  pub src_access : Option Access
  pub dst_access : Option Access
  pub src_stage : PipelineStage
  pub dst_stage : PipelineStage

pub data Geometry : Type 0 where
  triangles : Format → (vertex_data vertex_stride max_vertex index_data : ℕ) → Geometry
  instances : (data_buffer : ℕ) → Geometry

pub record BuildGeometryInfo : Type 0 where
  pub structure_type : StructureType
  pub geometry : Geometry
  pub dst_structure : ℕ
  pub scratch_data : ℕ
  pub primitive_count : ℕ

-- The rows of the matrix hold whole numbers.
pub record Instance : Type 0 where
  pub transform : List (List ℕ)
  pub custom_index : ℕ
  pub mask : ℕ
  pub record_offset : ℕ
  pub cull_disable : ℕ
  pub structure_reference : ℕ

-- A `float` is the number that its four bytes are.
abbrev pub Vec3 : Type 0
Vec3 = ℕ × ℕ × ℕ

pub record PushConstants : Type 0 where
  pub camera_position : Vec3
  pub fov : ℕ
  pub camera_forward : Vec3
  pub samples_per_pixel : ℕ
  pub camera_right : Vec3
  pub frame_index : ℕ
  pub camera_up : Vec3
  pub max_bounces : ℕ
  pub tile_offset : ℕ × ℕ
  pub image_size : ℕ × ℕ

pub record TraceRegions : Type 0 where
  pub raygen_region : Region
  pub miss_region : Region
  pub hit_region : Region
  pub callable_region : Region

pub data Command : Type 0 where
  pipeline_barrier : ImageMemoryBarrier → Command
  build_structure : BuildGeometryInfo → Command
  bind_pipeline : (pipeline : ℕ) → Command
  bind_descriptor_set : (layout set : ℕ) → Command
  push_constants : (layout : ℕ) → ShaderStage → PushConstants → Command
  trace_rays : TraceRegions → (width height depth : ℕ) → Command
  copy_image_to_buffer : (image : ℕ) → ImageLayout → (buffer width height : ℕ) → Command

pub data Resource : Type 0 where
  structure_resource : (structure : ℕ) → Resource
  image_resource : (view : ℕ) → ImageLayout → Resource
  buffer_resource : (buffer : ℕ) → Resource

pub record WriteDescriptorSet : Type 0 where
  pub dst_set : ℕ
  pub dst_binding : ℕ
  pub write_count : ℕ
  pub write_type : DescriptorType
  pub resource : Resource

-- `upload` is the copy of `count` elements of `size` bytes to a mapped buffer, `fill_table` that of the
-- handles of a pipeline's groups to the buffer of a shader binding table, `write_png` the call of stb
-- with the mapped buffer, and whether the file was written.
pub data Call : Type 0 where
  create : CreateInfo → Call
  upload : (buffer size count : ℕ) → Call
  fill_table : (pipeline : ℕ) → ShaderTable → Call
  upload_instance : (buffer : ℕ) → Instance → Call
  update_descriptor_sets : List WriteDescriptorSet → Call
  submit : List Command → Call
  write_png : Bytes → (width height components buffer stride : ℕ) → (written : Bool) → Call

-- What lies outside: the answer to a call, with the calls before it; the sizes of a structure and of
-- the scratch memory that builds it; the shader binding table's calls; the files of the shaders;
-- whether stb writes a file; glm.
pub record TracerDriver : Type 0 where
  pub answer : List Call → Call → Result (Unit {0})
  pub build_sizes : Geometry → ℕ → ℕ × ℕ
  pub tables : TableDriver
  pub writes_png : Bytes → Bool
  pub read_file : Bytes → Option Bytes
  pub shader_directory : Result Bytes
  pub radians : ℕ → ℕ
  pub minus : Vec3 → Vec3 → Vec3
  pub cross : Vec3 → Vec3 → Vec3
  pub normalize : Vec3 → Vec3

-- Code that makes calls: it goes on from those so far.
abbrev pub Calling : Type 0 → Type 0
Calling A = List Call → Run (A × List Call)

abbrev pub continue : {A B : Type 0} → Run (A × List Call) → (A → Calling B) → Run (B × List Call)
continue (done (a, calls)) f = f a calls
continue (throws e) f = throws e
continue faults f = faults
continue out_of_fuel f = out_of_fuel

infixl 5 ◌>>=◌
abbrev pub ◌>>=◌ : {A B : Type 0} → Calling A → (A → Calling B) → Calling B
m >>= f = λ calls. continue (m calls) f

abbrev pub return : {A : Type 0} → A → Calling A
return a = λ calls. done (a, calls)

abbrev pub fail : {A : Type 0} → Bytes → Calling A
fail e = λ calls. throws e

-- Code that makes no call of these.
abbrev pub run : {A : Type 0} → Run A → Calling A
run (done a) = λ calls. done (a, calls)
run (throws e) = λ calls. throws e
run faults = λ calls. faults
run out_of_fuel = λ calls. out_of_fuel

-- A call that does not throw, whatever comes of it.
unfoldable pub note : Call → Calling ℕ
note c = λ calls. done (length calls, calls ++ c ∷ [])

abbrev pub answered : List Call → Call → Result (Unit {0}) → Run (ℕ × List Call)
answered calls c (Result.ok u) = done (length calls, calls ++ c ∷ [])
answered calls c (Result.throws e) = throws e

-- The number of the new object is the number of the calls before it.
abbrev pub call : TracerDriver → Call → Calling ℕ
call d c = λ calls. answered calls c (d.answer calls c)
