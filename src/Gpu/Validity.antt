-- ===== src/Gpu/Validity.antt =====
-- Of what Vulkan asks of the calls that `Scene` and `PathTracer` make, the part that their order and
-- their agreement decide, and what the calls do: the objects and their kinds, what buffers and
-- descriptors hold, the layouts of images, which tiles an image shows. Limits of a device, the access
-- masks of barriers and what the indices of triangles say are left out.
pub mod Launch
pub mod Steps
pub mod Tracking
use pathological_v.Prelude.{
  ℕ, ◌+◌, ◌*◌, ◌≤◌, ◌<◌, ◌≡◌, ◌≢◌, ◌⊎◌, Bytes, Option, none, some, List, [], ◌∷◌, ◌++◌, All,
  get_elem?,
}
use pathological_v.Tiles.{Tile}
use pathological_v.Gpu.Handles.{write}
use pathological_v.Gpu.ShaderTable.{ShaderTable}
use pathological_v.Gpu.Calls.{
  ImageLayout, undefined, general, transfer_src_optimal, BufferUsage, storage_buffer, transfer_dst,
  acceleration_structure_build_input_read_only, acceleration_structure_storage, MemoryUsage,
  cpu_to_gpu, ImageUsage, storage, Format, r32g32b32_sfloat, TraceRegions, DescriptorType,
  structure_descriptor, image_descriptor, buffer_descriptor, ShaderStage, raygen, miss, closest_hit,
  StructureType, bottom_level, top_level, DescriptorSetLayoutBinding, ShaderGroup, general_group,
  triangles_hit_group, CreateInfo, image_info, image_view_info, buffer_info, structure_info,
  shader_module_info, descriptor_set_layout_info, pipeline_layout_info, pipeline_info,
  descriptor_pool_info, descriptor_set_info, ImageMemoryBarrier, Geometry, triangles, instances,
  BuildGeometryInfo, Instance, PushConstants, Command, pipeline_barrier, build_structure,
  bind_pipeline, bind_descriptor_set, push_constants, trace_rays, copy_image_to_buffer, Resource,
  structure_resource, image_resource, buffer_resource, WriteDescriptorSet, Call, create, upload,
  upload_instance, update_descriptor_sets, submit, write_png,
}

-- What a buffer or a file has of an image: its sides, and the tiles that were traced.
pub record Picture : Type 0 where
  pub picture_width : ℕ
  pub picture_height : ℕ
  pub tiles : List Tile

-- `next` numbers the next call. A buffer is filled with elements of a size, so many of them. A table
-- stands beside the pipeline whose handles it holds. `saved` is the last file that was written.
pub record GpuState : Type 0 where
  pub next : ℕ
  pub objects : ℕ → Option CreateInfo
  pub filled : ℕ → Option (ℕ × ℕ)
  pub instance_in : ℕ → Option Instance
  pub built : ℕ → Option StructureType
  pub geometry_of : ℕ → Option Geometry
  pub tables : List (ℕ × ShaderTable)
  pub contents : ℕ → ℕ → Option Resource
  pub layouts : ℕ → ImageLayout
  pub traced : ℕ → List Tile
  pub copies : ℕ → Option Picture
  pub saved : Option (Bytes × Picture)

abbrev pub fresh_gpu : GpuState
fresh_gpu = record {
  next = 0;
  objects = λ n. none;
  filled = λ b. none;
  instance_in = λ b. none;
  built = λ n. none;
  geometry_of = λ n. none;
  tables = [];
  contents = λ set binding. none;
  layouts = λ i. undefined;
  traced = λ i. [];
  copies = λ b. none;
  saved = none;
}

-- What a command buffer has bound so far.
pub record Bound : Type 0 where
  pub bound_pipeline : Option ℕ
  pub bound_set : Option ℕ
  pub pushed : Option PushConstants

abbrev pub nothing_bound : Bound
nothing_bound = record { bound_pipeline = none; bound_set = none; pushed = none }

abbrev pub Has : {A : Type 0} → A → List A → Type 0
Has a [] = ⊥
Has a (x ∷ xs) = (x ≡ a) ⊎ Has a xs

module _ (s : GpuState) where
  abbrev pub HasUsage : BufferUsage → ℕ → Type 0
  HasUsage u b = elim (s.objects b) [ some (buffer_info n us m) ↦ Has u us | _ ↦ ⊥ ]

  abbrev pub Holds : ℕ → ℕ → Type 0
  Holds n b = elim (s.objects b) [ some (buffer_info size us m) ↦ n ≤ size | _ ↦ ⊥ ]

  abbrev pub IsMapped : ℕ → Type 0
  IsMapped b = elim (s.objects b) [ some (buffer_info n us m) ↦ m ≡ cpu_to_gpu | _ ↦ ⊥ ]

  abbrev pub IsModule : ℕ → Type 0
  IsModule n = elim (s.objects n) [ some (shader_module_info code) ↦ Unit | _ ↦ ⊥ ]

  abbrev pub IsStorageImage : ℕ → Type 0
  IsStorageImage n = elim (s.objects n) [ some (image_info w h f us l) ↦ Has storage us | _ ↦ ⊥ ]

  abbrev pub bindings_of : ℕ → List DescriptorSetLayoutBinding
  bindings_of layout = elim (s.objects layout) [
    | some (descriptor_set_layout_info bs) ↦ bs
    | _ ↦ []
  ]

  -- The layout that a descriptor set was allocated with.
  abbrev pub set_layout_of : ℕ → Option ℕ
  set_layout_of set = elim (s.objects set) [
    | some (descriptor_set_info pool layout) ↦ some layout
    | _ ↦ none
  ]

  abbrev pub set_bindings : ℕ → List DescriptorSetLayoutBinding
  set_bindings set = elim (set_layout_of set) [ none ↦ [] | some layout ↦ bindings_of layout ]

  abbrev pub image_of_view : ℕ → Option ℕ
  image_of_view view = elim (s.objects view) [ some (image_view_info i f) ↦ some i | _ ↦ none ]

abbrev pub same_type : DescriptorType → DescriptorType → ℕ
same_type structure_descriptor structure_descriptor = 1
same_type image_descriptor image_descriptor = 1
same_type buffer_descriptor buffer_descriptor = 1
same_type _ _ = 0

-- How many descriptors of a type a layout has, and how many a pool has.
abbrev pub needed : DescriptorType → List DescriptorSetLayoutBinding → ℕ
needed type [] = 0
needed type (b ∷ bs) = same_type type b.descriptor_type * b.descriptor_count + needed type bs

abbrev pub available : DescriptorType → List (DescriptorType × ℕ) → ℕ
available type [] = 0
available type (p ∷ ps) = same_type type (p.0) * p.1 + available type ps

abbrev pub Covers : List (DescriptorType × ℕ) → List DescriptorSetLayoutBinding → Type 0
Covers pool bs =
    (needed structure_descriptor bs ≤ available structure_descriptor pool)
    × (needed image_descriptor bs ≤ available image_descriptor pool)
    × (needed buffer_descriptor bs ≤ available buffer_descriptor pool)

-- The shader of a group is of a stage that suits the group.
abbrev pub FitsGroup : List (ShaderStage × ℕ) → ShaderGroup → Type 0
FitsGroup stages (general_group (some i) none) = elim (get_elem? stages i) [
  | none ↦ ⊥
  | some stage ↦ (stage.0 ≡ raygen) ⊎ (stage.0 ≡ miss)
]
FitsGroup stages (triangles_hit_group none (some i)) = elim (get_elem? stages i) [
  | none ↦ ⊥
  | some stage ↦ stage.0 ≡ closest_hit
]
FitsGroup stages _ = ⊥

abbrev pub CanCreate : GpuState → CreateInfo → Type 0
CanCreate s (image_info w h f us l) = (l ≡ undefined) × (0 < w) × (0 < h)
CanCreate s (image_view_info i f) = elim (s.objects i) [
  | some (image_info w h format us l) ↦ f ≡ format
  | _ ↦ ⊥
]
CanCreate s (buffer_info n us m) = 0 < n
CanCreate s (structure_info b n type) = HasUsage s acceleration_structure_storage b × Holds s n b
CanCreate s (shader_module_info code) = Unit
CanCreate s (descriptor_set_layout_info bs) = Unit
CanCreate s (pipeline_layout_info l stage offset n) = elim (s.objects l) [
  | some (descriptor_set_layout_info bs) ↦ Unit
  | _ ↦ ⊥
]
CanCreate s (pipeline_info stages groups depth layout) =
    All (λ stage. IsModule s (stage.1)) stages
    × All (FitsGroup stages) groups
    × elim (s.objects layout) [ some (pipeline_layout_info l st o n) ↦ Unit | _ ↦ ⊥ ]
CanCreate s (descriptor_pool_info sets sizes) = Unit
CanCreate s (descriptor_set_info pool layout) = elim (s.objects pool) [
  | some (descriptor_pool_info sets sizes) ↦ (1 ≤ sets) × Covers sizes (bindings_of s layout)
  | _ ↦ ⊥
]

-- A resource of the type, in the state that its use needs later only.
abbrev pub FitsType : GpuState → DescriptorType → Resource → Type 0
FitsType s structure_descriptor (structure_resource n) = elim (s.objects n) [
  | some (structure_info b size type) ↦ type ≡ top_level
  | _ ↦ ⊥
]
FitsType s image_descriptor (image_resource view l) =
    (l ≡ general) × elim (image_of_view s view) [ none ↦ ⊥ | some i ↦ IsStorageImage s i ]
FitsType s buffer_descriptor (buffer_resource b) = HasUsage s storage_buffer b
FitsType s _ _ = ⊥

-- The layout of the set has the binding, with the type and the number of the write.
abbrev pub Declares : WriteDescriptorSet → List DescriptorSetLayoutBinding → Type 0
Declares w [] = ⊥
Declares w (b ∷ bs) =
    ((b.binding ≡ w.dst_binding)
      × (b.descriptor_type ≡ w.write_type)
      × (b.descriptor_count ≡ w.write_count))
    ⊎ Declares w bs

abbrev pub CanWrite : GpuState → WriteDescriptorSet → Type 0
CanWrite s w = Declares w (set_bindings s w.dst_set) × FitsType s w.write_type w.resource

-- A transition from the undefined layout is always allowed.
abbrev pub Leaves : ImageLayout → ImageLayout → Type 0
Leaves undefined current = Unit
Leaves general current = current ≡ general
Leaves transfer_src_optimal current = current ≡ transfer_src_optimal

-- The vertices of a geometry are elements of its stride, three `float` at their start, the last of them
-- is `max_vertex`, and there are three indices for each primitive.
abbrev pub CanRead : GpuState → Geometry → (primitive_count : ℕ) → Type 0
CanRead s (triangles f v stride max_vertex i) primitives =
    (f ≡ r32g32b32_sfloat)
    × (12 ≤ stride)
    × HasUsage s acceleration_structure_build_input_read_only v
    × HasUsage s acceleration_structure_build_input_read_only i
    × (s.filled v ≡ some (stride, max_vertex + 1))
    × ((n : ℕ) × (s.filled i ≡ some (4, n)) × (primitives * 3 ≤ n))
CanRead s (instances b) primitives =
    (primitives ≡ 1)
    × HasUsage s acceleration_structure_build_input_read_only b
    × elim (s.instance_in b) [
      | none ↦ ⊥
      | some i ↦ s.built i.structure_reference ≡ some bottom_level
    ]
