-- ===== src/Gpu/Context.antt =====
-- `VulkanContext` (render_worker/src/vulkan_context.hpp, vulkan_context.cpp): the selection of a GPU, the
-- creation of what hangs on it, and the recovery of a lost device.
pub mod Selection
pub mod Creation
pub mod Recovery
use pathological_v.Prelude.{
  ℕ, zero, suc, ◌≡◌, Bytes, bytes_discrete, codes, Bool, true, false, ◌&&◌, ◌||◌, Option, none,
  some, List, [], ◌∷◌, if◌then◌else◌, ite,
}
use mathlib.Core.Option
use pathological_v.Prelude.Result.{Result, ok, throws}

-- The properties for ray tracing that the code reads.
pub record RtProperties : Type 0 where
  pub shader_group_handle_size : ℕ
  pub shader_group_handle_alignment : ℕ
  pub shader_group_base_alignment : ℕ

-- What the driver says of a GPU; of a queue family, whether it has the compute flag.
pub record PhysicalDevice : Type 0 where
  pub extensions : List Bytes
  pub rt_properties : RtProperties
  pub queue_families : List Bool

pub data Feature : Type 0 where
  buffer_device_address acceleration_structure ray_tracing_pipeline runtime_descriptor_array :
      Feature

-- Vulkan and its memory allocator, for a build with or without `NDEBUG`. An instance is made with
-- layers and extensions, a device with extensions and features. Objects are numbered; an error is an exception, but for the
-- allocator, which returns a code. The extensions of a device are taken to be told without an error.
pub record Driver : Type 0 where
  pub ndebug : Bool
  pub create_instance : List Bytes → List Bytes → Result ℕ
  pub physical_devices : Result (List PhysicalDevice)
  pub create_device : PhysicalDevice → ℕ → List Bytes → List Feature → Result ℕ
  pub get_queue : ℕ → ℕ → Result ℕ
  pub create_command_pool : ℕ → ℕ → Result ℕ
  pub create_allocator : ℕ → ℕ → Option ℕ

pub record VulkanContext : Type 0 where
  pub instance_ : Option ℕ
  pub physical_device : Option PhysicalDevice
  pub queue_family_index : ℕ
  pub rt_properties : RtProperties
  pub device : Option ℕ
  pub queue : Option ℕ
  pub command_pool : Option ℕ
  pub allocator : Option ℕ

-- An operation changes the context and returns or throws.
abbrev pub Outcome : Type 0
Outcome = VulkanContext × Result (Unit {0})

abbrev pub then_do : Outcome → (VulkanContext → Outcome) → Outcome
then_do (c, ok u) f = f c
then_do (c, throws e) f = (c, throws e)

abbrev pub required_extensions : List Bytes
required_extensions =
    codes "VK_KHR_acceleration_structure"
    ∷ codes "VK_KHR_ray_tracing_pipeline"
    ∷ codes "VK_KHR_deferred_host_operations"
    ∷ codes "VK_KHR_buffer_device_address"
    ∷ codes "VK_EXT_descriptor_indexing"
    ∷ codes "VK_KHR_spirv_1_4"
    ∷ codes "VK_KHR_shader_float_controls"
    ∷ []

unfoldable pub has_extension : Bytes → List Bytes → Bool
has_extension required [] = false
has_extension required (available ∷ rest) =
    ite (bytes_discrete required available) true (has_extension required rest)

unfoldable pub has_all_extensions : List Bytes → List Bytes → Bool
unfolding has_extension
has_all_extensions [] available = true
has_all_extensions (required ∷ rest) available =
    has_extension required available && has_all_extensions rest available

-- The first queue family with the compute flag.
unfoldable pub compute_queue : List Bool → Option ℕ
compute_queue [] = none
compute_queue (true ∷ rest) = some 0
compute_queue (false ∷ rest) = Option.map suc (compute_queue rest)

-- The queue family of a device that has what is required.
unfoldable pub suitable_queue : List Bytes → PhysicalDevice → Option ℕ
unfolding has_all_extensions compute_queue
suitable_queue required d =
    if has_all_extensions required d.extensions then compute_queue d.queue_families else none

unfoldable pub select_from : List Bytes → List PhysicalDevice → VulkanContext → Outcome
unfolding suitable_queue
select_from required [] c = (c, throws (codes "No suitable GPU with ray tracing support found"))
select_from required (d ∷ devices) c = elim (suitable_queue required d) [
  | some i ↦ (
    record c { physical_device = some d; queue_family_index = i; rt_properties = d.rt_properties },
    ok tt,
  )
  | none ↦ select_from required devices c
]

abbrev pub select_among : List PhysicalDevice → VulkanContext → Outcome
unfolding select_from
select_among [] c = (c, throws (codes "No Vulkan-capable GPU found"))
select_among (d ∷ devices) c = select_from required_extensions (d ∷ devices) c

abbrev pub select_listed : Result (List PhysicalDevice) → VulkanContext → Outcome
select_listed (throws e) c = (c, throws e)
select_listed (ok devices) c = select_among devices c

unfoldable pub select_physical_device : Driver → VulkanContext → Outcome
unfolding select_from
select_physical_device v c = elim c.instance_ [
  | none ↦ (c, throws (codes "Instance not initialized"))
  | some i ↦ select_listed v.physical_devices c
]

abbrev pub layers : Bool → List Bytes
layers true = []
layers false = codes "VK_LAYER_KHRONOS_validation" ∷ []

abbrev pub instance_extensions : Bool → List Bytes
instance_extensions true = []
instance_extensions false = codes "VK_EXT_debug_utils" ∷ []

unfoldable pub create_instance : Driver → VulkanContext → Outcome
create_instance v c = elim (v.create_instance (layers v.ndebug) (instance_extensions v.ndebug)) [
  | throws e ↦ (c, throws e)
  | ok i ↦ (record c { instance_ = some i }, ok tt)
]

abbrev pub get_queue : Driver → ℕ → VulkanContext → Outcome
get_queue v d c = elim (v.get_queue d c.queue_family_index) [
  | throws e ↦ (c, throws e)
  | ok q ↦ (record c { queue = some q }, ok tt)
]

abbrev pub required_features : List Feature
required_features =
    buffer_device_address ∷ acceleration_structure ∷ ray_tracing_pipeline ∷ runtime_descriptor_array
    ∷ []

unfoldable pub create_logical_device : Driver → VulkanContext → Outcome
create_logical_device v c = elim c.physical_device [
  | none ↦ (c, throws (codes "Physical device not selected"))
  | some p ↦ elim (v.create_device p c.queue_family_index required_extensions required_features) [
    | throws e ↦ (c, throws e)
    | ok d ↦ get_queue v d (record c { device = some d })
  ]
]

unfoldable pub create_command_pool : Driver → VulkanContext → Outcome
create_command_pool v c = elim c.device [
  | none ↦ (c, throws (codes "Logical device not created"))
  | some d ↦ elim (v.create_command_pool d c.queue_family_index) [
    | throws e ↦ (c, throws e)
    | ok p ↦ (record c { command_pool = some p }, ok tt)
  ]
]

abbrev pub allocator_on : Driver → ℕ → ℕ → VulkanContext → Outcome
allocator_on v i d c = elim (v.create_allocator i d) [
  | none ↦ (c, throws (codes "Failed to create VMA allocator"))
  | some a ↦ (record c { allocator = some a }, ok tt)
]

abbrev pub allocator_for :
    Driver → Option PhysicalDevice → Option ℕ → Option ℕ → VulkanContext → Outcome
allocator_for v (some p) (some d) (some i) c = allocator_on v i d c
allocator_for v none d i c = (c, throws (codes "Required Vulkan objects not initialized"))
allocator_for v (some p) none i c = (c, throws (codes "Required Vulkan objects not initialized"))
allocator_for v (some p) (some d) none c =
    (c, throws (codes "Required Vulkan objects not initialized"))

unfoldable pub create_allocator : Driver → VulkanContext → Outcome
create_allocator v c = allocator_for v c.physical_device c.device c.instance_ c

-- The three steps that the constructor and the recovery share.
abbrev pub create_on_device : Driver → VulkanContext → Outcome
unfolding create_logical_device create_command_pool create_allocator
create_on_device v c =
    then_do (then_do (create_logical_device v c) (create_command_pool v)) (create_allocator v)

abbrev pub empty_context : VulkanContext
empty_context = record {
  instance_ = none;
  physical_device = none;
  queue_family_index = 0;
  rt_properties = record {
    shader_group_handle_size = 0;
    shader_group_handle_alignment = 0;
    shader_group_base_alignment = 0;
  };
  device = none;
  queue = none;
  command_pool = none;
  allocator = none;
}

-- The constructor.
unfoldable pub new_vulkan_context : Driver → Outcome
unfolding create_instance select_physical_device create_logical_device create_command_pool
    create_allocator
new_vulkan_context v =
    then_do (then_do (create_instance v empty_context) (select_physical_device v))
      (create_on_device v)

abbrev pub without_device : VulkanContext → VulkanContext
without_device c = record c { allocator = none; command_pool = none; queue = none; device = none }

unfoldable pub recover_from_device_lost : Driver → VulkanContext → Outcome
unfolding create_logical_device create_command_pool create_allocator
recover_from_device_lost v c = create_on_device v (without_device c)

abbrev pub run_on :
    (ℕ → ℕ → ℕ → Result (Unit {0})) → Option ℕ → Option ℕ → Option ℕ → Result (Unit {0})
run_on run (some d) (some p) (some q) = run d p q
run_on run none p q = throws (codes "Required Vulkan objects not initialized")
run_on run (some d) none q = throws (codes "Required Vulkan objects not initialized")
run_on run (some d) (some p) none = throws (codes "Required Vulkan objects not initialized")

-- `run` records, submits and awaits the commands on a device, a pool and a queue.
unfoldable pub execute_commands :
    (ℕ → ℕ → ℕ → Result (Unit {0})) → VulkanContext → Result (Unit {0})
execute_commands run c = run_on run c.device c.command_pool c.queue
