-- ===== src/Gpu/Validity/Launch.antt =====
-- What a launch of rays needs: what is bound, the scene that the shaders read, the groups of the pipeline
-- and the table of their handles.
use pathological_v.Prelude.{ℕ, ◌+◌, ◌≤◌, ◌≡◌, ◌≢◌, Option, none, some, List, All, get_elem?}
use pathological_v.Gpu.ShaderTable.{ShaderTable}
use pathological_v.Gpu.Calls.{
  Format, TraceRegions, ShaderStage, raygen, miss, closest_hit, top_level,
  DescriptorSetLayoutBinding, ShaderGroup, general_group, triangles_hit_group, image_info,
  pipeline_info, Geometry, triangles, instances, Instance, PushConstants, Resource,
  structure_resource, image_resource, buffer_resource,
}
use pathological_v.Gpu.Validity.{GpuState, Bound, Has, set_bindings, image_of_view}

-- A resource that a shader can use.
abbrev pub IsUsable : GpuState → Resource → Type 0
IsUsable s (structure_resource n) = s.built n ≡ some top_level
IsUsable s (image_resource view l) = elim (image_of_view s view) [
  | none ↦ ⊥
  | some i ↦ s.layouts i ≡ l
]
IsUsable s (buffer_resource b) = (n : ℕ × ℕ) × (s.filled b ≡ some n)

abbrev pub IsBound : GpuState → ℕ → DescriptorSetLayoutBinding → Type 0
IsBound s set b = elim (s.contents set b.binding) [ none ↦ ⊥ | some r ↦ IsUsable s r ]

-- The image that the ray generation shader stores to.
abbrev pub target_of : GpuState → ℕ → Option ℕ
target_of s set = elim (s.contents set 1) [
  | some (image_resource view l) ↦ image_of_view s view
  | _ ↦ none
]

-- The shader stores pixel `tile_offset + (i, j)` for each `i < w`, `j < h`, and takes the sides of the
-- image from its constants.
abbrev pub Stores : GpuState → PushConstants → ℕ → ℕ → ℕ → Type 0
Stores s pc w h image = elim (s.objects image) [
  | some (image_info width height f us l) ↦
      (pc.tile_offset.0 + w ≤ width)
      × (pc.tile_offset.1 + h ≤ height)
      × (pc.image_size.0 ≡ width)
      × (pc.image_size.1 ≡ height)
  | _ ↦ ⊥
]

-- The buffers that the closest hit shader reads: the vertices and indices of the triangles that the
-- structure at binding 0 was built from, then materials and the material of each triangle.
pub record ReadsScene (contents : ℕ → Option Resource) (geometry_of : ℕ → Option Geometry)
    (instance_in : ℕ → Option Instance) (filled : ℕ → Option (ℕ × ℕ)) : Type 0 where
  pub structure : ℕ
  pub instance_buffer : ℕ
  pub instance_ : Instance
  pub format : Format
  pub vertex_data : ℕ
  pub max_vertex : ℕ
  pub index_data : ℕ
  pub materials : ℕ
  pub material_count : ℕ
  pub material_indices : ℕ
  pub material_index_count : ℕ
  pub has_structure : contents 0 ≡ some (structure_resource structure)
  pub has_instances : geometry_of structure ≡ some (instances instance_buffer)
  pub has_instance : instance_in instance_buffer ≡ some instance_
  pub has_triangles :
      geometry_of instance_.structure_reference
      ≡ some (triangles format vertex_data 16 max_vertex index_data)
  pub reads_vertices : contents 2 ≡ some (buffer_resource vertex_data)
  pub reads_indices : contents 3 ≡ some (buffer_resource index_data)
  pub reads_materials : contents 4 ≡ some (buffer_resource materials)
  pub are_materials : filled materials ≡ some (32, material_count)
  pub reads_material_indices : contents 5 ≡ some (buffer_resource material_indices)
  pub are_material_indices : filled material_indices ≡ some (4, material_index_count)
  pub apart : index_data ≢ material_indices

abbrev pub shader_of : ShaderGroup → Option ℕ
shader_of (general_group shader closest) = shader
shader_of (triangles_hit_group shader closest) = closest

abbrev pub stage_at : List (ShaderStage × ℕ) → Option ℕ → Option ShaderStage
stage_at stages none = none
stage_at stages (some i) = elim (get_elem? stages i) [ none ↦ none | some stage ↦ some (stage.0) ]

abbrev pub group_stage : List (ShaderStage × ℕ) → List ShaderGroup → ℕ → Option ShaderStage
group_stage stages groups i = elim (get_elem? groups i) [
  | none ↦ none
  | some group ↦ stage_at stages (shader_of group)
]

-- The groups of a pipeline: a ray generation, a miss and a hit shader in the order of a table's handles.
abbrev pub HasGroups : GpuState → ℕ → Type 0
HasGroups s p = elim (s.objects p) [
  | some (pipeline_info stages groups depth layout) ↦
      (group_stage stages groups 0 ≡ some raygen)
      × (group_stage stages groups 1 ≡ some miss)
      × (group_stage stages groups 2 ≡ some closest_hit)
  | _ ↦ ⊥
]

-- The regions are those of a table that was filled with the handles of the pipeline.
abbrev pub HasRegions : List (ℕ × ShaderTable) → ℕ → TraceRegions → Type 0
HasRegions tables p r =
    (t : ShaderTable) × Has (p, t) tables
    × (r.raygen_region ≡ t.raygen)
    × (r.miss_region ≡ t.miss)
    × (r.hit_region ≡ t.hit)
    × (r.callable_region ≡ t.callable)

abbrev pub CanLaunch :
    GpuState
    → Option ℕ
    → Option ℕ
    → Option PushConstants
    → TraceRegions
    → (width height depth : ℕ) → Type 0
CanLaunch s (some p) (some set) (some pc) regions w h depth =
    All (IsBound s set) (set_bindings s set)
    × ReadsScene (s.contents set) s.geometry_of s.instance_in s.filled
    × HasGroups s p
    × HasRegions s.tables p regions
    × (depth ≡ 1)
    × elim (target_of s set) [ none ↦ ⊥ | some image ↦ Stores s pc w h image ]
CanLaunch s _ _ _ regions w h depth = ⊥

abbrev pub CanTrace : GpuState → Bound → TraceRegions → (width height depth : ℕ) → Type 0
CanTrace s b regions w h depth = CanLaunch s b.bound_pipeline b.bound_set b.pushed regions w h depth
