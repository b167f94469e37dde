-- ===== src/Tests/Gpu.antt =====
-- The theorems on the handling of the GPU at concrete states.
use pathological_v.Prelude.{
  ℕ, ℕ_discrete, ◌≡◌, refl, none, some, [], ◌∷◌, codes, arith, ◌<◌, true, false, subst, ◌+◌, ◌*◌,
  ◌/◌, ◌^◌, leb, if◌then◌else◌,
}
use pathological_v.Prelude.Result.{Result, ok, throws}
use pathological_v.Prelude.Run.{IsSafe}
use pathological_v.Gpu.ShaderTable.{Memory, TableDriver, IsSound, create_shader_binding_table}
use pathological_v.Gpu.ShaderTable.Layout.{
  IsSupported, AlignsTo, IsAlignedTable, create_shader_binding_table-IsAlignedTable,
}
use pathological_v.Gpu.Context.{
  RtProperties, PhysicalDevice, Driver, VulkanContext, required_extensions, select_from,
  empty_context, new_vulkan_context,
}
use pathological_v.Gpu.Context.Selection.{IsSelected, select_from-IsSelected}
use pathological_v.Gpu.Context.Creation.{After}
use pathological_v.Gpu.Handles.Operations.{makes, assigns, IsOwned}
use pathological_v.Gpu.Context.Recovery.{IsReady, new_vulkan_context-IsReady}
use pathological_v.Gpu.Handles.{Buffer, Objects, construct, new_buffer, constructed, move_assign}
use pathological_v.Gpu.Handles.Ownership.{Reach, start, next, Reach-IsOwned}

abbrev first_buffer : Buffer
first_buffer = record { allocator = 1; resource = 5; allocation = 8; size = 64 }

abbrev second_buffer : Buffer
second_buffer = record { allocator = 1; resource = 6; allocation = 9; size = 32 }

abbrev none_yet : Objects ℕ
none_yet = record { slots = λ k. none; live = λ a. none }

abbrev with_one : Objects ℕ
with_one = constructed 0 (some (5, 8)) (new_buffer 1 64 (some (5, 8))) none_yet

abbrev with_two : Objects ℕ
with_two = constructed 1 (some (6, 9)) (new_buffer 1 32 (some (6, 9))) with_one

two_made : Reach ℕ (some with_two)
unfolding constructed construct new_buffer ℕ_discrete
two_made =
    next with_one _
      (next none_yet _ start
        (makes 0 (codes "Failed to create buffer") 1 64 (some (5, 8)) refl (omega arith, refl)))
      (makes 1 (codes "Failed to create buffer") 1 32 (some (6, 9)) refl (omega arith, refl))

assigned_twice : Reach ℕ (move_assign 0 first_buffer 1 second_buffer with_two)
unfolding constructed construct new_buffer ℕ_discrete
assigned_twice = next with_two _ two_made (assigns 0 1 first_buffer second_buffer refl refl)

Reach-IsOwned_example : IsOwned (move_assign 0 first_buffer 1 second_buffer with_two)
Reach-IsOwned_example =
    Reach-IsOwned (move_assign 0 first_buffer 1 second_buffer with_two) assigned_twice

abbrev pub handles : RtProperties
handles = record {
  shader_group_handle_size = 32;
  shader_group_handle_alignment = 32;
  shader_group_base_alignment = 64;
}

abbrev plain_device : PhysicalDevice
plain_device = record { extensions = []; rt_properties = handles; queue_families = true ∷ [] }

abbrev tracing_device : PhysicalDevice
tracing_device = record {
  extensions = required_extensions;
  rt_properties = handles;
  queue_families = false ∷ true ∷ [];
}

abbrev driver : Driver
driver = record {
  ndebug = true;
  create_instance = λ layers extensions. ok 1;
  physical_devices = ok (plain_device ∷ tracing_device ∷ []);
  create_device = λ gpu family extensions features. ok 2;
  get_queue = λ device family. ok 3;
  create_command_pool = λ device family. ok 4;
  create_allocator = λ instance_ device. some 5;
}

abbrev blank : VulkanContext
blank = record empty_context { instance_ = some 1 }

select_from-IsSelected_example :
    IsSelected required_extensions
      (plain_device ∷ tracing_device ∷ [])
      blank
      (select_from required_extensions (plain_device ∷ tracing_device ∷ []) blank)
select_from-IsSelected_example =
    select_from-IsSelected required_extensions (plain_device ∷ tracing_device ∷ []) blank

new_vulkan_context-IsReady_example : After (IsReady driver) (new_vulkan_context driver)
new_vulkan_context-IsReady_example = new_vulkan_context-IsReady driver

-- The handle of group `g` has the byte `g` throughout.
abbrev pub table_driver : TableDriver
table_driver = record {
  get_handles = λ pipeline first count n. ok (record { size = n; bytes = λ b. b / 32 });
  create_buffer = λ n.
      if leb n 4294967295
      then ok (65536, record { size = n; bytes = λ b. 0 })
      else throws (codes "Failed to create buffer");
}

abbrev IsBlock : ℕ → Result (ℕ × Memory) → Type 0
IsBlock n (throws e) = Unit
IsBlock n (ok b) = (b.1.size ≡ n) × (b.0 + n < 2 ^ 64)

created : (n : ℕ) → IsBlock n (table_driver.create_buffer n)
created n = ground arith

abbrev IsSized : ℕ → Result Memory → Type 0
IsSized n (throws e) = Unit
IsSized n (ok m) = m.size ≡ n

pub table_driver-IsSound : IsSound table_driver
table_driver-IsSound = record {
  handles_size = λ pipeline first count n m e. subst (IsSized n) e refl;
  buffer_size = λ n b e. subst (IsBlock n) e (created n);
}

pub handles-IsSupported : IsSupported 5 6 handles
handles-IsSupported = record {
  handle_alignment = refl;
  base_alignment = refl;
  finer = omega arith;
  fits_word = omega arith;
  fits_table = omega arith;
}

abbrev BeginsAt : ℕ → Result (ℕ × Memory) → Type 0
BeginsAt q (throws e) = Unit
BeginsAt q (ok b) = b.0 ≡ q * 2 ^ 6

begins : (n : ℕ) → BeginsAt 1024 (table_driver.create_buffer n)
begins n = ground arith

pub table_driver-Aligns : AlignsTo 6 table_driver
table_driver-Aligns n b e = (1024, subst (BeginsAt 1024) e (begins n))

create_shader_binding_table-IsAlignedTable_example :
    IsSafe
      (IsAlignedTable table_driver 5 6 32 7)
      (create_shader_binding_table table_driver handles (some 7))
create_shader_binding_table-IsAlignedTable_example =
    create_shader_binding_table-IsAlignedTable table_driver handles 5 6 7 table_driver-IsSound
      handles-IsSupported table_driver-Aligns
