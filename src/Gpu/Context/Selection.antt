-- ===== src/Gpu/Context/Selection.antt =====
-- Which GPU is selected, and which of its queue families.
use pathological_v.Prelude.{
  ℕ, zero, suc, ◌<◌, ◌≡◌, ◌≢◌, refl, sym, ap, Bytes, bytes_discrete, codes, Bool, true, false, none,
  some, inl, inr, ◌⊎◌, arith, List, [], ◌∷◌, ◌++◌, get_elem?, All,
}
use pathological_v.Prelude.Result.{ok, throws}
use pathological_v.Gpu.Context.{
  PhysicalDevice, VulkanContext, Outcome, has_extension, has_all_extensions, compute_queue,
  suitable_queue, select_from,
}

abbrev pub Has {ℓ} : {A : Type ℓ} → List A → A → Type ℓ
Has xs x = (i : ℕ) × (get_elem? xs i ≡ some x)

-- A GPU that the path tracer can run on.
abbrev pub CanTrace : List Bytes → PhysicalDevice → Type 0
CanTrace required d = All (Has d.extensions) required × Has d.queue_families true

has_extension-Has :
    (r : Bytes) (xs : List Bytes)
    → ((has_extension r xs ≡ true) × Has xs r) ⊎ ((has_extension r xs ≡ false) × ¬ Has xs r)
unfolding has_extension
has_extension-Has r [] = inr (refl, λ h. cc (h.1))
has_extension-Has r (x ∷ xs) = elim (bytes_discrete r x) [
  | yes same ↦ inl (ground (arith, same), (zero, ap some (sym same)))
  | no other ↦ elim (has_extension-Has r xs) [
    | inl (found, (i, there)) ↦ inl (ground (arith, other, found), (suc i, there))
    | inr (missing, nowhere) ↦
        inr (ground (arith, other, missing), λ h. not_here r x xs other nowhere h.0 h.1)
  ]
]
  where
    not_here :
        (r x : Bytes) (xs : List Bytes)
        → r ≢ x
        → ¬ Has xs r
        → (i : ℕ) → get_elem? (x ∷ xs) i ≡ some r
        → ⊥
    not_here r x xs other nowhere zero e = other (cc e)
    not_here r x xs other nowhere (suc i) e = nowhere (i, e)

has_all_extensions-cases :
    (rs xs : List Bytes)
    → ((has_all_extensions rs xs ≡ true) × All (Has xs) rs)
      ⊎ ((has_all_extensions rs xs ≡ false) × ¬ All (Has xs) rs)
unfolding has_all_extensions
has_all_extensions-cases [] xs = inl (refl, tt)
has_all_extensions-cases (r ∷ rs) xs = elim (has_extension-Has r xs) [
  | inr (missing, nowhere) ↦ inr (rw missing refl, λ h. nowhere h.0)
  | inl (found, there) ↦ elim (has_all_extensions-cases rs xs) [
    | inl (all, rest) ↦ inl (rw (found, all) refl, (there, rest))
    | inr (some_missing, lacks) ↦ inr (rw (found, some_missing) refl, λ h. lacks h.1)
  ]
]

-- A queue family is the first one with the compute flag.
abbrev pub IsFirst : List Bool → ℕ → Type 0
IsFirst families i =
    (get_elem? families i ≡ some true) × ((j : ℕ) → j < i → get_elem? families j ≢ some true)

compute_queue-IsFirst :
    (fs : List Bool)
    → ((i : ℕ) × (compute_queue fs ≡ some i) × IsFirst fs i)
      ⊎ ((compute_queue fs ≡ none) × ¬ Has fs true)
unfolding compute_queue
compute_queue-IsFirst [] = inr (refl, λ h. cc (h.1))
compute_queue-IsFirst (true ∷ fs) = inl (0, refl, (refl, λ j low. absurd (omega (arith, low))))
compute_queue-IsFirst (false ∷ fs) = elim (compute_queue-IsFirst fs) [
  | inl (i, found, (there, first)) ↦
      inl (suc i, rw found refl, (there, λ j low e. before i first j low e))
  | inr (missing, nowhere) ↦ inr (rw missing refl, λ h. not_here nowhere h.0 h.1)
]
  where
    before :
        (i : ℕ)
        → ((j : ℕ) → j < i → get_elem? fs j ≢ some true)
        → (j : ℕ) → j < suc i
        → get_elem? (false ∷ fs) j ≡ some true
        → ⊥
    before i first zero low e = cc e
    before i first (suc j) low e = first j (omega (arith, low)) e

    not_here : ¬ Has fs true → (i : ℕ) → get_elem? (false ∷ fs) i ≡ some true → ⊥
    not_here nowhere zero e = cc e
    not_here nowhere (suc i) e = nowhere (i, e)

suitable_queue-cases :
    (rs : List Bytes) (d : PhysicalDevice)
    → ((i : ℕ) × (suitable_queue rs d ≡ some i) × CanTrace rs d × IsFirst d.queue_families i)
      ⊎ ((suitable_queue rs d ≡ none) × ¬ CanTrace rs d)
unfolding suitable_queue
suitable_queue-cases rs d = elim (has_all_extensions-cases rs d.extensions) [
  | inr (missing, lacks) ↦ inr (rw missing refl, λ h. lacks h.0)
  | inl (all, has) ↦ elim (compute_queue-IsFirst d.queue_families) [
    | inl (i, found, first) ↦ inl (i, rw all found, (has, (i, first.0)), first)
    | inr (missing, nowhere) ↦ inr (rw all missing, λ h. nowhere h.1)
  ]
]

-- The devices passed over, the device that was selected with its queue family, or the error.
pub data IsSelected (rs : List Bytes) (devices : List PhysicalDevice) (c : VulkanContext)
    (o : Outcome) : Type 0 where
  selected :
      (before : List PhysicalDevice) (d : PhysicalDevice) (after : List PhysicalDevice) (i : ℕ)
      → devices ≡ before ++ d ∷ after
      → All (λ e. ¬ CanTrace rs e) before
      → CanTrace rs d
      → IsFirst d.queue_families i
      → o ≡ (
        record c {
          physical_device = some d;
          queue_family_index = i;
          rt_properties = d.rt_properties;
        },
        ok tt,
      )
      → IsSelected rs devices c o
  none_suitable :
      All (λ e. ¬ CanTrace rs e) devices
      → o ≡ (c, throws (codes "No suitable GPU with ray tracing support found"))
      → IsSelected rs devices c o

skip :
    (rs : List Bytes) (d : PhysicalDevice) (devices : List PhysicalDevice) (c : VulkanContext)
    (o : Outcome)
    → ¬ CanTrace rs d
    → IsSelected rs devices c o
    → IsSelected rs (d ∷ devices) c o
skip rs d devices c o lacks (selected before e after i split not_before can first same) =
    selected (d ∷ before) e after i (ap (◌∷◌ d) split) (lacks, not_before) can first same
skip rs d devices c o lacks (none_suitable all same) = none_suitable (lacks, all) same

-- The first GPU in the driver's order that has every required extension and a queue family with the
-- compute flag is selected, with the first such family; where there is none, the selection throws and
-- the context is as before.
pub select_from-IsSelected :
    (rs : List Bytes) (devices : List PhysicalDevice) (c : VulkanContext)
    → IsSelected rs devices c (select_from rs devices c)
unfolding select_from
select_from-IsSelected rs [] c = none_suitable tt refl
select_from-IsSelected rs (d ∷ devices) c = elim (suitable_queue-cases rs d) [
  | inl (i, found, can, first) ↦
      selected [] d devices i refl tt can first (rw (found, select_from) refl)
  | inr (missing, lacks) ↦
      rw (missing, select_from) (skip rs d devices c _ lacks (select_from-IsSelected rs devices c))
]
