-- ===== src/Gpu/Context/Recovery.antt =====
-- What is left of the context after its constructor or a recovery, whether they return or throw.
use pathological_v.Prelude.{ℕ, ◌≡◌, refl, some, inl, inr, subst, sym, List, [], ◌∷◌}
use pathological_v.Prelude.Result.{Result, ok, throws}
use pathological_v.Gpu.Context.Selection.{
  CanTrace, IsFirst, selected, none_suitable, select_from-IsSelected,
}
use pathological_v.Gpu.Context.{
  layers, instance_extensions, required_extensions, PhysicalDevice, Driver, VulkanContext, Outcome,
  create_on_device, create_instance, select_physical_device, select_among, select_listed,
  empty_context, without_device, new_vulkan_context, recover_from_device_lost,
}
use pathological_v.Gpu.Context.Creation.{
  IsWhole, After, Result-cases, placed, then_do-After, After-ok, After-throws,
  create_on_device-IsWhole,
}

-- From any context that has an instance and a GPU with its properties, a recovery either returns with a whole context or
-- throws and leaves no allocator behind; the GPU and its queue family stay.
recover_from_device_lost-IsWhole :
    (v : Driver) (c : VulkanContext) (i : ℕ) (gpu : PhysicalDevice)
    → c.instance_ ≡ some i
    → c.physical_device ≡ some gpu
    → c.rt_properties ≡ gpu.rt_properties
    → After (IsWhole v gpu c.queue_family_index) (recover_from_device_lost v c)
unfolding recover_from_device_lost
recover_from_device_lost-IsWhole v c i gpu has_instance has_gpu has_rt =
    let same : without_device c ≡ placed i gpu c.queue_family_index =
      cc (has_instance, has_gpu, has_rt) in
    subst (λ (t : VulkanContext). After (IsWhole v gpu c.queue_family_index) (create_on_device v t))
      (sym same) (create_on_device-IsWhole v i gpu c.queue_family_index)

abbrev HasInstance : VulkanContext → Type 0
HasInstance c = (i : ℕ) × (c ≡ record empty_context { instance_ = some i })

abbrev HasGpu : Driver → VulkanContext → Type 0
HasGpu v c =
    (i : ℕ) × (gpu : PhysicalDevice) × (k : ℕ) × (c ≡ placed i gpu k)
    × CanTrace required_extensions gpu
    × IsFirst gpu.queue_families k

create_instance-HasInstance : (v : Driver) → After HasInstance (create_instance v empty_context)
unfolding create_instance
create_instance-HasInstance v =
    elim (Result-cases (v.create_instance (layers v.ndebug) (instance_extensions v.ndebug))) [
      | inr (e, failed) ↦
          After-throws HasInstance _ empty_context e (rw (failed, create_instance) refl) refl
      | inl (i, made) ↦
          After-ok HasInstance _ (record empty_context { instance_ = some i })
            (rw (made, create_instance) refl) (i, refl)
    ]

select_among-HasGpu :
    (v : Driver) (devices : List PhysicalDevice) (i : ℕ)
    → After (HasGpu v) (select_among devices (record empty_context { instance_ = some i }))
unfolding select_among
select_among-HasGpu v [] i = refl
select_among-HasGpu v (d ∷ devices) i =
    elim (select_from-IsSelected required_extensions (d ∷ devices)
      (record empty_context { instance_ = some i })) [
        | selected before gpu after k split skipped can first same ↦
            After-ok (HasGpu v) _ (placed i gpu k) same (i, gpu, k, refl, can, first)
        | none_suitable all same ↦
            After-throws (HasGpu v) _ (record empty_context { instance_ = some i }) _ same refl
      ]

select_listed-HasGpu :
    (v : Driver) (devices : Result (List PhysicalDevice)) (i : ℕ)
    → After (HasGpu v) (select_listed devices (record empty_context { instance_ = some i }))
select_listed-HasGpu v (throws e) i = refl
select_listed-HasGpu v (ok devices) i = select_among-HasGpu v devices i

select_physical_device-HasGpu :
    (v : Driver) (c : VulkanContext) → HasInstance c → After (HasGpu v) (select_physical_device v c)
unfolding select_physical_device
select_physical_device-HasGpu v c (i, same) =
    subst (λ (t : VulkanContext). After (HasGpu v) (select_physical_device v t)) (sym same)
      (select_listed-HasGpu v v.physical_devices i)

-- A context that is ready for the path tracer.
abbrev pub IsReady : Driver → VulkanContext → Type 0
IsReady v c =
    (gpu : PhysicalDevice) × (k : ℕ) × IsWhole v gpu k c
    × CanTrace required_extensions gpu
    × IsFirst gpu.queue_families k

After-map :
    (P Q : VulkanContext → Type 0) (o : Outcome)
    → ((c : VulkanContext) → P c → Q c)
    → After P o
    → After Q o
After-map P Q (c, ok u) f h = f c h
After-map P Q (c, throws e) f h = h

create_on_device-IsReady :
    (v : Driver) (c : VulkanContext) → HasGpu v c → After (IsReady v) (create_on_device v c)
create_on_device-IsReady v c (i, gpu, k, same, can, first) =
    subst (λ (t : VulkanContext). After (IsReady v) (create_on_device v t)) (sym same)
      (After-map (IsWhole v gpu k) (IsReady v) _ (λ t h. (gpu, k, h, can, first))
        (create_on_device-IsWhole v i gpu k))

-- The constructor returns with a whole context, on a GPU that has what the path tracer requires, with
-- its first queue family that can compute; or it throws, and no allocator was made.
pub new_vulkan_context-IsReady : (v : Driver) → After (IsReady v) (new_vulkan_context v)
unfolding new_vulkan_context
new_vulkan_context-IsReady v =
    then_do-After (HasGpu v) (IsReady v) _ (create_on_device v)
      (then_do-After HasInstance (HasGpu v) _ (select_physical_device v)
        (create_instance-HasInstance v) (select_physical_device-HasGpu v))
      (create_on_device-IsReady v)

-- The recovery of a ready context returns with one that is ready again, with new objects, or
-- it throws and leaves no allocator behind.
pub recover_from_device_lost-IsReady :
    (v : Driver) (c : VulkanContext)
    → IsReady v c
    → After (IsReady v) (recover_from_device_lost v c)
recover_from_device_lost-IsReady v c (gpu, k, whole, can, first) =
    After-map (IsWhole v gpu c.queue_family_index) (IsReady v) _
      (λ t h. (gpu, k, subst (λ (n : ℕ). IsWhole v gpu n t) whole.has_family h, can, first))
      (recover_from_device_lost-IsWhole v c whole.i gpu whole.has_instance whole.has_gpu
        whole.has_rt_properties)
