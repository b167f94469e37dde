-- ===== src/Prelude/Decimal.antt =====
-- `std::to_string` of an unsigned number: its decimal digits.
use Prim.Native.Nat.{ℕ, zero, suc, ◌+◌, ◌-◌, ◌*◌, ◌/◌, ◌%◌, ◌<◌}
use mathlib.Core.List.{List, [], ◌∷◌, ◌++◌}
use mathlib.Core.Logic.{inl, inr}
use mathlib.Core.Path.{◌≡◌, refl, sym, ap, ◌∙◌}
use native.Mathlib.Omega.{arith}
use pathological_v.Prelude.Tests.{ltb, if◌then◌else◌, Bool-cases}

digits : ℕ → ℕ → List ℕ
digits zero n = []
digits (suc fuel) n =
    let rest = digits fuel (n / 10) ++ (b'0' + n % 10) ∷ [] in
    if ltb n 10 then (b'0' + n) ∷ [] else rest

-- Each round divides by ten, so `n + 1` rounds are enough.
unfoldable pub to_string : ℕ → List ℕ
unfolding digits
to_string n = digits (suc n) n

-- What a reader makes of a row of digits.
value_from : ℕ → List ℕ → ℕ
value_from acc [] = acc
value_from acc (c ∷ cs) = value_from (acc * 10 + (c - b'0')) cs

value_from-append :
    (acc c : ℕ) (cs : List ℕ) → value_from acc (cs ++ c ∷ []) ≡ value_from acc cs * 10 + (c - b'0')
unfolding value_from
value_from-append acc c [] = refl
value_from-append acc c (d ∷ cs) = value_from-append (acc * 10 + (d - b'0')) c cs

value-digits : (fuel n : ℕ) → n < fuel → value_from 0 (digits fuel n) ≡ n
unfolding digits value_from
value-digits zero n h = elim h [ ]
value-digits (suc fuel) n h = elim (Bool-cases (ltb n 10)) [
  | inl small ↦ rw small (omega arith)
  | inr large ↦ rw large (
      value_from-append 0 (b'0' + n % 10) (digits fuel (n / 10))
      ∙ ground (arith, value-digits fuel (n / 10)))
]

-- Two numbers with one print are equal.
pub to_string-injective : (m n : ℕ) → to_string m ≡ to_string n → m ≡ n
unfolding to_string
to_string-injective m n e =
    sym (value-digits (suc m) m (omega arith))
    ∙ ap (value_from 0) e
    ∙ value-digits (suc n) n (omega arith)
