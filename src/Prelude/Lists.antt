-- ===== src/Prelude/Lists.antt =====
-- Lists measured and indexed by native numbers, under the library's names: `std::vector`.
use Prim.Native.Nat.{ℕ, zero, suc, ◌+◌}
use mathlib.Core.Path.{◌≡◌, refl, ap}
use mathlib.Core.Logic.{◌⊎◌, inl, inr}
use mathlib.Core.List.{List, [], ◌∷◌, ◌++◌, map}
use mathlib.Core.Option.{Option, none, some}
use native.Mathlib.Omega.{arith}

module _ {ℓ} {A : Type ℓ} where
  abbrev pub length : List A → ℕ
  length [] = 0
  length (x ∷ xs) = suc (length xs)

  abbrev pub get_elem? : List A → ℕ → Option A
  get_elem? [] i = none
  get_elem? (x ∷ xs) zero = some x
  get_elem? (x ∷ xs) (suc i) = get_elem? xs i

  -- A write out of bounds changes nothing.
  abbrev pub set : List A → ℕ → A → List A
  set [] i v = []
  set (x ∷ xs) zero v = v ∷ xs
  set (x ∷ xs) (suc i) v = x ∷ set xs i v

  abbrev pub replicate : ℕ → A → List A
  replicate zero a = []
  replicate (suc n) a = a ∷ replicate n a

  pub length-append : (xs ys : List A) → length (xs ++ ys) ≡ length xs + length ys
  length-append [] ys = omega arith
  length-append (x ∷ xs) ys = omega (arith, length-append xs ys)

  pub length-replicate : (n : ℕ) (a : A) → length (replicate n a) ≡ n
  length-replicate zero a = refl
  length-replicate (suc n) a = ap suc (length-replicate n a)

  pub length-set : (xs : List A) (i : ℕ) (v : A) → length (set xs i v) ≡ length xs
  length-set [] i v = refl
  length-set (x ∷ xs) zero v = refl
  length-set (x ∷ xs) (suc i) v = ap suc (length-set xs i v)

pub length-map {ℓ κ} :
    {A : Type ℓ} {B : Type κ} (xs : List A) (f : A → B) → length (map f xs) ≡ length xs
length-map [] f = refl
length-map (x ∷ xs) f = ap suc (length-map xs f)

module _ {ℓ} {A : Type ℓ} where
  -- What stands in a list of optional values after one is filled in.
  pub get_elem?-set_cases :
      (xs : List (Option A)) (i j : ℕ) (v w : A)
      → get_elem? (set xs i (some v)) j ≡ some (some w)
      → ((i ≡ j) × (v ≡ w)) ⊎ (get_elem? xs j ≡ some (some w))
  get_elem?-set_cases [] i j v w e = inr e
  get_elem?-set_cases (x ∷ xs) zero zero v w e = inl (refl, cc)
  get_elem?-set_cases (x ∷ xs) zero (suc j) v w e = inr e
  get_elem?-set_cases (x ∷ xs) (suc i) zero v w e = inr e
  get_elem?-set_cases (x ∷ xs) (suc i) (suc j) v w e = elim (get_elem?-set_cases xs i j v w e) [
    | inl (same, value) ↦ inl (ap suc same, value)
    | inr old ↦ inr old
  ]

  -- What stands in a list with one element behind it.
  pub get_elem?-append_one :
      (xs : List A) (x : A) (i : ℕ) (y : A)
      → get_elem? (xs ++ x ∷ []) i ≡ some y
      → (x ≡ y) ⊎ (get_elem? xs i ≡ some y)
  get_elem?-append_one [] x zero y e = inl (cc)
  get_elem?-append_one [] x (suc i) y e = cc
  get_elem?-append_one (z ∷ xs) x zero y e = inr e
  get_elem?-append_one (z ∷ xs) x (suc i) y e = get_elem?-append_one xs x i y e

-- Each element satisfies `P`.
abbrev pub All {ℓ κ} : {A : Type ℓ} → (A → Type κ) → List A → Type κ
All P [] = Unit
All P (x ∷ xs) = P x × All P xs
