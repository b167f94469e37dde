-- ===== src/Prelude/Run.antt =====
-- A run of code that may throw, that may read out of bounds (`faults`), and whose recursion is on
-- fuel.
use Prim.Native.Nat.{ℕ}
use mathlib.Core.Path.{◌≡◌, refl}
use mathlib.Core.List.{List}
use pathological_v.Prelude.Result.{Result}

pub data Run {ℓ} (A : Type ℓ) : Type ℓ where
  done : A → Run A
  throws : List ℕ → Run A
  faults : Run A
  out_of_fuel : Run A

infixl 5 ◌>>=◌
abbrev pub ◌>>=◌ {ℓ κ} : {A : Type ℓ} {B : Type κ} → Run A → (A → Run B) → Run B
done a >>= f = f a
throws e >>= f = throws e
faults >>= f = faults
out_of_fuel >>= f = out_of_fuel

abbrev pub of_result {ℓ} : {A : Type ℓ} → Result A → Run A
of_result (Result.ok a) = done a
of_result (Result.throws e) = throws e

-- The run has fuel enough, and if it ends normally its value satisfies `P`.
abbrev pub Ensures {ℓ} : {A : Type ℓ} → (A → Type 0) → Run A → Type 0
Ensures P (done a) = P a
Ensures P (throws e) = Unit
Ensures P faults = Unit
Ensures P out_of_fuel = ⊥

-- The run ends normally, with a value that satisfies `P`.
abbrev pub Returns {ℓ} : {A : Type ℓ} → (A → Type 0) → Run A → Type 0
Returns P (done a) = P a
Returns P (throws e) = ⊥
Returns P faults = ⊥
Returns P out_of_fuel = ⊥

pub Ensures-bind {ℓ} :
    {A B : Type ℓ} (Q : A → Type 0) (P : B → Type 0) (m : Run A) (f : A → Run B)
    → Ensures Q m
    → ((a : A) → Q a → Ensures P (f a))
    → Ensures P (m >>= f)
Ensures-bind Q P (done a) f q next = next a q
Ensures-bind Q P (throws e) f q next = tt
Ensures-bind Q P faults f q next = tt
Ensures-bind Q P out_of_fuel f q next = absurd q

pub Ensures-map {ℓ} :
    {A : Type ℓ} (Q P : A → Type 0) (m : Run A) → Ensures Q m → ((a : A) → Q a → P a) → Ensures P m
Ensures-map Q P (done a) q next = next a q
Ensures-map Q P (throws e) q next = tt
Ensures-map Q P faults q next = tt
Ensures-map Q P out_of_fuel q next = absurd q

pub Returns-bind {ℓ} :
    {A B : Type ℓ} (Q : A → Type 0) (P : B → Type 0) (m : Run A) (f : A → Run B)
    → Returns Q m
    → ((a : A) → Q a → Returns P (f a))
    → Returns P (m >>= f)
Returns-bind Q P (done a) f q next = next a q
Returns-bind Q P (throws e) f q next = absurd q
Returns-bind Q P faults f q next = absurd q
Returns-bind Q P out_of_fuel f q next = absurd q

pub Returns-map {ℓ} :
    {A : Type ℓ} (Q P : A → Type 0) (m : Run A) → Returns Q m → ((a : A) → Q a → P a) → Returns P m
Returns-map Q P (done a) q next = next a q
Returns-map Q P (throws e) q next = absurd q
Returns-map Q P faults q next = absurd q
Returns-map Q P out_of_fuel q next = absurd q

-- The run ends normally with a value that satisfies `P`, or it throws; it neither reads out of bounds
-- nor uses its fuel up.
abbrev pub IsSafe {ℓ} : {A : Type ℓ} → (A → Type 0) → Run A → Type 0
IsSafe P (done a) = P a
IsSafe P (throws e) = Unit
IsSafe P faults = ⊥
IsSafe P out_of_fuel = ⊥

pub IsSafe-bind {ℓ} :
    {A B : Type ℓ} (Q : A → Type 0) (P : B → Type 0) (m : Run A) (f : A → Run B)
    → IsSafe Q m
    → ((a : A) → Q a → IsSafe P (f a))
    → IsSafe P (m >>= f)
IsSafe-bind Q P (done a) f q next = next a q
IsSafe-bind Q P (throws e) f q next = tt
IsSafe-bind Q P faults f q next = absurd q
IsSafe-bind Q P out_of_fuel f q next = absurd q

pub IsSafe-map {ℓ} :
    {A : Type ℓ} (Q P : A → Type 0) (m : Run A) → IsSafe Q m → ((a : A) → Q a → P a) → IsSafe P m
IsSafe-map Q P (done a) q next = next a q
IsSafe-map Q P (throws e) q next = tt
IsSafe-map Q P faults q next = absurd q
IsSafe-map Q P out_of_fuel q next = absurd q

pub IsSafe-of_result : {A : Type 0} (r : Result A) → IsSafe (λ a. r ≡ Result.ok a) (of_result r)
IsSafe-of_result (Result.ok a) = refl
IsSafe-of_result (Result.throws e) = tt
