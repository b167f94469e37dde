-- ===== src/Prelude/Tests.antt =====
-- Boolean tests on the native numbers, the conditional, and fixed-width casts.
use Prim.Native.Nat.{ℕ, ◌≤◌, ◌<◌, ◌%◌, compare, Ordering}
use Prim.Native.Char.{code}
use Prim.Native.String.{String}
use mathlib.Core.Path.{◌≡◌, refl}
use mathlib.Core.Logic.{◌⊎◌, inl, inr}
use mathlib.Core.Bool.{Bool, true, false}
use mathlib.Core.List.{List, [], ◌∷◌}
use mathlib.Core.Option.{Option, none, some}
use native.Mathlib.Omega.{arith}

-- These compute to `compare`, which `ground` and `grind` read with no lemma listed.
abbrev pub ltb : ℕ → ℕ → Bool
ltb a b = elim (compare a b) [ Ordering.lt ↦ true | _ ↦ false ]

abbrev pub leb : ℕ → ℕ → Bool
leb a b = elim (compare a b) [ Ordering.gt ↦ false | _ ↦ true ]

infix 50 ◌==◌
abbrev pub ◌==◌ : ℕ → ℕ → Bool
a == b = elim (compare a b) [ Ordering.eq ↦ true | _ ↦ false ]

infix 1 if◌then◌else◌
abbrev pub if◌then◌else◌ {ℓ} : {A : Type ℓ} → Bool → A → A → A
if true then x else y = x
if false then x else y = y

pub leb→le : (a b : ℕ) → leb a b ≡ true → a ≤ b
leb→le a b h = ground arith

pub ltb→lt : (a b : ℕ) → ltb a b ≡ true → a < b
ltb→lt a b h = ground arith

-- To split on a computed value and keep the equation.
pub Bool-cases : (b : Bool) → (b ≡ true) ⊎ (b ≡ false)
Bool-cases true = inl refl
Bool-cases false = inr refl

pub Option-cases {ℓ} : {A : Type ℓ} (o : Option A) → (o ≡ none) ⊎ ((a : A) × (o ≡ some a))
Option-cases none = inl refl
Option-cases (some a) = inr (a, refl)

-- A cast to, or a sum in, `uint32_t`.
abbrev pub u32 : ℕ → ℕ
u32 n = n % 4294967296

abbrev pub codes : String → List ℕ
codes String.[] = []
codes (String.◌∷◌ c s) = code c ∷ codes s

-- An `if` whose branches know the outcome of the test.
unfoldable pub by_case {ℓ} : {A : Type ℓ} (b : Bool) → (b ≡ true → A) → (b ≡ false → A) → A
by_case true yes_branch no_branch = yes_branch refl
by_case false yes_branch no_branch = no_branch refl

pub by_case_inv {ℓ κ} :
    {A : Type ℓ} (P : A → Type κ) (b : Bool) (f : b ≡ true → A) (g : b ≡ false → A)
    → ((e : b ≡ true) → P (f e))
    → ((e : b ≡ false) → P (g e))
    → P (by_case b f g)
unfolding by_case
by_case_inv P true f g on off = on refl
by_case_inv P false f g on off = off refl
