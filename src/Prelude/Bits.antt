-- ===== src/Prelude/Bits.antt =====
-- A word with its low digits cleared: `x & ~(2^k - 1)`.
use Prim.Native.Nat.{
  ℕ, zero, suc, ◌+◌, ◌-◌, ◌*◌, ◌/◌, ◌^◌, ◌≤◌, ◌<◌, min, bit_and, digits, bit_and-bitwise,
}
use mathlib.Core.Path.{◌≡◌, refl, ◌∙◌}
use native.Mathlib.Nat.{pow-suc, zero-add, suc-add}
use native.Mathlib.Omega.{arith}

-- `w` ones, and `k` zeros below them.
ones : ℕ → ℕ
ones zero = 0
ones (suc w) = ones w * 2 + 1

mask : ℕ → ℕ → ℕ
mask zero w = ones w
mask (suc k) w = mask k w * 2

-- `x` with its `k` lowest digits cleared.
unfoldable pub floor : ℕ → ℕ → ℕ
floor zero x = x
floor (suc k) x = floor k (x / 2) * 2

abbrev and_digits : ℕ → ℕ → ℕ → ℕ
and_digits = digits (λ b. 0) min

and_ones : (n x w : ℕ) → x ≤ n → x < 2 ^ w → and_digits n x (ones w) ≡ x
unfolding ones
and_ones zero x w h l = omega arith
and_ones (suc n) zero w h l = refl
and_ones (suc n) (suc x) zero h l = absurd (omega arith)
and_ones (suc n) (suc x) (suc w) h l =
    let half : (ones w * 2 + 1) / 2 ≡ ones w = omega arith in
    rw half (omega (arith, and_ones n (suc x / 2) w (omega arith) (omega (arith, pow-suc 2 w))))

floor_zero : (k : ℕ) → floor k 0 ≡ 0
unfolding floor
floor_zero zero = refl
floor_zero (suc k) = omega (arith, floor_zero k)

halve : (x k w : ℕ) → suc x < 2 ^ (suc k + w) → suc x < 2 ^ (k + w) * 2
halve x k w l = rw (suc-add k w, pow-suc 2 (k + w)) at l

and_mask : (n x k w : ℕ) → x ≤ n → x < 2 ^ (k + w) → and_digits n x (mask k w) ≡ floor k x
unfolding mask floor
and_mask n x zero w h l = and_ones n x w h (rw (zero-add w) at l)
and_mask zero zero (suc k) w h l = omega (arith, floor_zero k)
and_mask zero (suc x) (suc k) w h l = absurd (omega arith)
and_mask (suc n) zero (suc k) w h l = omega (arith, floor_zero k)
and_mask (suc n) (suc x) (suc k) w h l =
    let half : mask k w * 2 / 2 ≡ mask k w = omega arith in
    let low : suc x / 2 < 2 ^ (k + w) = omega (arith, halve x k w l) in
    rw half (omega (arith, and_mask n (suc x / 2) k w (omega arith) low))

ones_lem : (w : ℕ) → ones w + 1 ≡ 2 ^ w
unfolding ones
ones_lem zero = refl
ones_lem (suc w) = omega (arith, ones_lem w, pow-suc 2 w)

mask_lem : (k w : ℕ) → mask k w + 2 ^ k ≡ 2 ^ (k + w)
unfolding mask
mask_lem zero w = rw (zero-add w) (ones_lem w)
mask_lem (suc k) w = rw (suc-add k w) (omega (arith, mask_lem k w, pow-suc 2 k, pow-suc 2 (k + w)))

-- `x & ~(2^k - 1)` on words of `k + w` digits.
pub bit_and-floor : (x k w : ℕ) → x < 2 ^ (k + w) → bit_and x (2 ^ (k + w) - 2 ^ k) ≡ floor k x
bit_and-floor x k w l =
    let same : 2 ^ (k + w) - 2 ^ k ≡ mask k w = omega (arith, mask_lem k w) in
    rw same (bit_and-bitwise x (mask k w) ∙ and_mask x x k w (omega arith) l)

-- The multiple of `2^k` next below `x`.
pub floor-Multiple : (k x : ℕ) → (q : ℕ) × (floor k x ≡ q * 2 ^ k)
unfolding floor
floor-Multiple zero x = (x, omega arith)
floor-Multiple (suc k) x =
    let (q, same) = floor-Multiple k (x / 2) in (q, rw (same, pow-suc 2 k) (grind arith))

pub floor_bounds : (k x : ℕ) → (floor k x ≤ x) × (x < floor k x + 2 ^ k)
unfolding floor
floor_bounds zero x = omega arith
floor_bounds (suc k) x = omega (arith, floor_bounds k (x / 2), pow-suc 2 k)
