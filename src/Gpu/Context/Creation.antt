-- ===== src/Gpu/Context/Creation.antt =====
-- The steps that create what hangs on a GPU: each returns with its object, or throws.
use pathological_v.Prelude.{
  ℕ, ◌≡◌, refl, Bytes, codes, none, some, inl, inr, ◌⊎◌, Option-cases, subst, sym,
}
use pathological_v.Prelude.Result.{Result, ok, throws}
use pathological_v.Gpu.Context.{
  required_extensions, required_features, PhysicalDevice, Driver, VulkanContext, Outcome, then_do,
  get_queue, create_logical_device, create_command_pool, allocator_on, create_allocator,
  create_on_device,
}

-- The context is whole, on the GPU `gpu` and its queue family `k`: each object is there and was made
-- from those that it hangs on.
pub record IsWhole (v : Driver) (gpu : PhysicalDevice) (k : ℕ) (c : VulkanContext) : Type 0 where
  pub i : ℕ
  pub d : ℕ
  pub q : ℕ
  pub p : ℕ
  pub a : ℕ
  pub has_instance : c.instance_ ≡ some i
  pub has_gpu : c.physical_device ≡ some gpu
  pub has_family : c.queue_family_index ≡ k
  pub has_rt_properties : c.rt_properties ≡ gpu.rt_properties
  pub has_device : c.device ≡ some d
  pub has_queue : c.queue ≡ some q
  pub has_pool : c.command_pool ≡ some p
  pub has_allocator : c.allocator ≡ some a
  pub device_made : v.create_device gpu k required_extensions required_features ≡ ok d
  pub queue_got : v.get_queue d k ≡ ok q
  pub pool_made : v.create_command_pool d k ≡ ok p
  pub allocator_made : v.create_allocator i d ≡ some a

-- An operation returns with `P`, or throws and there is no allocator, so that the destructor frees none.
abbrev pub After : (VulkanContext → Type 0) → Outcome → Type 0
After P (c, ok u) = P c
After P (c, throws e) = c.allocator ≡ none

pub Result-cases :
    {A : Type 0} (r : Result A) → ((a : A) × (r ≡ ok a)) ⊎ ((e : Bytes) × (r ≡ throws e))
Result-cases (ok a) = inl (a, refl)
Result-cases (throws e) = inr (e, refl)

-- A context with an instance and a GPU, and nothing on it.
abbrev pub placed : ℕ → PhysicalDevice → ℕ → VulkanContext
placed i gpu k = record {
  instance_ = some i;
  physical_device = some gpu;
  queue_family_index = k;
  rt_properties = gpu.rt_properties;
  device = none;
  queue = none;
  command_pool = none;
  allocator = none;
}

pub then_do-After :
    (P Q : VulkanContext → Type 0) (o : Outcome) (f : VulkanContext → Outcome)
    → After P o
    → ((c : VulkanContext) → P c → After Q (f c))
    → After Q (then_do o f)
then_do-After P Q (c, ok u) f h k = k c h
then_do-After P Q (c, throws e) f h k = h

pub After-ok :
    (P : VulkanContext → Type 0) (o : Outcome) (c : VulkanContext)
    → o ≡ (c, ok tt)
    → P c
    → After P o
After-ok P o c e h = subst (After P) (sym e) h

pub After-throws :
    (P : VulkanContext → Type 0) (o : Outcome) (c : VulkanContext) (e : Bytes)
    → o ≡ (c, throws e)
    → c.allocator ≡ none
    → After P o
After-throws P o c e same h = subst (After P) (sym same) h

module _ (v : Driver) (i : ℕ) (gpu : PhysicalDevice) (k : ℕ) where
  record HasDevice (c : VulkanContext) : Type 0 where
    pub d : ℕ
    pub q : ℕ
    pub is : c ≡ record (placed i gpu k) { device = some d; queue = some q }
    pub device_made : v.create_device gpu k required_extensions required_features ≡ ok d
    pub queue_got : v.get_queue d k ≡ ok q

  record HasPool (c : VulkanContext) : Type 0 where
    pub d : ℕ
    pub q : ℕ
    pub p : ℕ
    pub is : c ≡ record (placed i gpu k) { device = some d; queue = some q; command_pool = some p }
    pub device_made : v.create_device gpu k required_extensions required_features ≡ ok d
    pub queue_got : v.get_queue d k ≡ ok q
    pub pool_made : v.create_command_pool d k ≡ ok p

  create_logical_device-HasDevice : After HasDevice (create_logical_device v (placed i gpu k))
  unfolding create_logical_device
  create_logical_device-HasDevice =
      elim (Result-cases (v.create_device gpu k required_extensions required_features)) [
        | inr (e, failed) ↦ After-throws HasDevice _ (placed i gpu k) e (rw failed refl) refl
        | inl (d, device) ↦ elim (Result-cases (v.get_queue d k)) [
          | inr (e, failed) ↦
              After-throws HasDevice _ (record (placed i gpu k) { device = some d }) e
                (rw device (rw (failed, get_queue) refl)) refl
          | inl (q, queue) ↦
              After-ok HasDevice _ (record (placed i gpu k) { device = some d; queue = some q })
                (rw device (rw (queue, get_queue) refl))
                (record { d = d; q = q; is = refl; device_made = device; queue_got = queue })
        ]
      ]

  create_command_pool-HasPool :
      (c : VulkanContext) → HasDevice c → After HasPool (create_command_pool v c)
  unfolding create_command_pool
  create_command_pool-HasPool c h =
      subst (λ (t : VulkanContext). After HasPool (create_command_pool v t)) (sym h.is)
        (elim (Result-cases (v.create_command_pool h.d k)) [
          | inr (e, failed) ↦
              After-throws HasPool _
                (record (placed i gpu k) { device = some h.d; queue = some h.q }) e
                (rw (failed, create_command_pool) refl) refl
          | inl (p, pool) ↦
              After-ok HasPool _
                (record (placed i gpu k) {
                  device = some h.d;
                  queue = some h.q;
                  command_pool = some p;
                })
                (rw (pool, create_command_pool) refl)
                (record {
                  d = h.d;
                  q = h.q;
                  p = p;
                  is = refl;
                  device_made = h.device_made;
                  queue_got = h.queue_got;
                  pool_made = pool;
                })
        ])

  create_allocator-IsWhole :
      (c : VulkanContext) → HasPool c → After (IsWhole v gpu k) (create_allocator v c)
  unfolding create_allocator
  create_allocator-IsWhole c h =
      subst (λ (t : VulkanContext). After (IsWhole v gpu k) (create_allocator v t)) (sym h.is)
        (elim (Option-cases (v.create_allocator i h.d)) [
          | inl failed ↦
              After-throws (IsWhole v gpu k) _
                (record (placed i gpu k) {
                  device = some h.d;
                  queue = some h.q;
                  command_pool = some h.p;
                })
                (codes "Failed to create VMA allocator") (rw (failed, allocator_on) refl) refl
          | inr (a, allocator) ↦
              After-ok (IsWhole v gpu k) _
                (record (placed i gpu k) {
                  device = some h.d;
                  queue = some h.q;
                  command_pool = some h.p;
                  allocator = some a;
                })
                (rw (allocator, allocator_on) refl)
                (record {
                  i = i;
                  d = h.d;
                  q = h.q;
                  p = h.p;
                  a = a;
                  has_instance = refl;
                  has_gpu = refl;
                  has_family = refl;
                  has_rt_properties = refl;
                  has_device = refl;
                  has_queue = refl;
                  has_pool = refl;
                  has_allocator = refl;
                  device_made = h.device_made;
                  queue_got = h.queue_got;
                  pool_made = h.pool_made;
                  allocator_made = allocator;
                })
        ])

  pub create_on_device-IsWhole : After (IsWhole v gpu k) (create_on_device v (placed i gpu k))
  unfolding create_on_device
  create_on_device-IsWhole =
      then_do-After HasPool (IsWhole v gpu k) _ (create_allocator v)
        (then_do-After HasDevice HasPool _ (create_command_pool v) create_logical_device-HasDevice
          create_command_pool-HasPool)
        create_allocator-IsWhole
