-- ===== src/Gpu/ShaderTable/Copies.antt =====
-- Aligned sizes, and the copies of the handles into the shader binding table.
use pathological_v.Prelude.{
  ℕ, zero, suc, ◌+◌, ◌-◌, ◌*◌, ◌^◌, ◌≤◌, ◌<◌, ◌≡◌, refl, ◌∙◌, sym, ap, ◌&&◌, leb, ltb,
  if◌then◌else◌, u32, arith, dec_le, ℕ_discrete,
}
use native.Mathlib.Nat.{
  one-le-pow, mul-le-mul_right, pow-suc, zero-add, suc-add, add-zero, mul_assoc,
}
use pathological_v.Prelude.Run.{done, IsSafe}
use pathological_v.Prelude.Bits.{floor, bit_and-floor, floor-Multiple, floor_bounds}
use pathological_v.Gpu.ShaderTable.{Memory, memcpy, align_up, copy_handles}

-- The least multiple of `2^k` that is not below `n`.
pub record IsAligned (k n a : ℕ) : Type 0 where
  pub quotient : ℕ
  pub multiple : a ≡ quotient * 2 ^ k
  pub not_below : n ≤ a
  pub least : a < n + 2 ^ k

width : {k : ℕ} → k ≤ 32 → k + (32 - k) ≡ 32
width low = omega arith

align_up-floor :
    (n k : ℕ) → k ≤ 32 → n + 2 ^ k ≤ 4294967296 → align_up n (2 ^ k) ≡ floor k (n + 2 ^ k - 1)
unfolding align_up
align_up-floor n k low small =
    let positive = one-le-pow k 2 (omega arith) in
    let whole : 2 ^ (k + (32 - k)) ≡ 4294967296 = rw (width low) refl in
    let value : u32 (u32 (n + 2 ^ k) + 4294967295) ≡ n + 2 ^ k - 1 = omega (arith, positive) in
    let mask : 4294967295 - u32 (2 ^ k + 4294967295) ≡ 2 ^ (k + (32 - k)) - 2 ^ k =
      omega (arith, positive, whole) in
    rw (value, mask) (bit_and-floor (n + 2 ^ k - 1) k (32 - k) (omega (arith, positive, whole)))

pub align_up-IsAligned :
    (n k : ℕ) → k ≤ 32 → n + 2 ^ k ≤ 4294967296 → IsAligned k n (align_up n (2 ^ k))
align_up-IsAligned n k low small =
    let (q, multiple) = floor-Multiple k (n + 2 ^ k - 1) in
    let (below, above) = floor_bounds k (n + 2 ^ k - 1) in
    let positive = one-le-pow k 2 (omega arith) in
    rw (align_up-floor n k low small) (record {
      quotient = q;
      multiple = multiple;
      not_below = omega (arith, above);
      least = omega (arith, below, positive);
    })

pow-Multiple : (d j : ℕ) → 2 ^ (d + j) ≡ 2 ^ d * 2 ^ j
pow-Multiple zero j = rw (zero-add j) (omega arith)
pow-Multiple (suc d) j =
    rw (suc-add d j, pow-suc 2 (d + j), pow-suc 2 d, pow-Multiple d j) (grind arith)

-- A multiple that is less than one step above another is not above it.
multiple-le : (p q t : ℕ) → q * p < t * p + p → q * p ≤ t * p
multiple-le p q t h = elim (dec_le q t) [
  | yes le ↦ mul-le-mul_right p le
  | no above ↦
      let more : suc t * p ≤ q * p = mul-le-mul_right p (omega (arith, above)) in
      let step : suc t * p ≡ t * p + p = grind arith in absurd (omega (arith, more, step))
]

-- A finer alignment reaches no further.
pub finer-le : (j k n a b : ℕ) → j ≤ k → IsAligned j n a → IsAligned k n b → a ≤ b
finer-le j k n a b le fine coarse =
    let apart : k - j + j ≡ k = omega arith in
    let power : 2 ^ k ≡ 2 ^ (k - j) * 2 ^ j =
      sym (ap (λ (m : ℕ). 2 ^ m) apart) ∙ pow-Multiple (k - j) j in
    let b_multiple : b ≡ coarse.quotient * 2 ^ (k - j) * 2 ^ j =
      coarse.multiple
      ∙ ap (λ (m : ℕ). coarse.quotient * m) power
      ∙ sym (mul_assoc coarse.quotient (2 ^ (k - j)) (2 ^ j)) in
    omega (
      arith,
      multiple-le (2 ^ j) fine.quotient (coarse.quotient * 2 ^ (k - j))
          (omega (arith, fine.least, fine.multiple, b_multiple, coarse.not_below)),
      b_multiple,
      fine.multiple,
    )

memcpy-done :
    (dst : Memory) (at : ℕ) (src : Memory) (from n : ℕ)
    → at + n ≤ dst.size
    → from + n ≤ src.size
    → memcpy dst at src from n
      ≡ done (record dst {
        bytes =
            λ j. if leb at j && ltb j (at + n) then src.bytes (from + (j - at)) else dst.bytes j;
      })
unfolding memcpy
memcpy-done dst at src from n h h' = ground arith

-- The handles of the groups below `i` are in their places.
pub record IsCopied (stride handle_size : ℕ) (handles : Memory) (size i : ℕ) (table : Memory)
    : Type 0 where
  pub same_size : table.size ≡ size
  pub copied :
      (g j : ℕ)
      → g < i
      → j < handle_size
      → table.bytes (g * stride + j) ≡ handles.bytes (g * handle_size + j)

room : (i left p : ℕ) → (i + suc left) * p ≡ i * p + p + left * p
room i left p = grind arith

one_more : (i left : ℕ) → i + 1 + left ≡ i + suc left
one_more i left = omega arith

IsCopied-memcpy :
    (stride hs : ℕ) (handles : Memory) (size i : ℕ) (table : Memory)
    → hs ≤ stride
    → IsCopied stride hs handles size i table
    → IsCopied stride hs handles size (i + 1) (record table {
      bytes = λ j.
          if leb (i * stride) j && ltb j (i * stride + hs)
          then handles.bytes (i * hs + (j - i * stride))
          else table.bytes j;
    })
IsCopied-memcpy stride hs handles size i table fits h = record {
  same_size = h.same_size;
  copied = λ g j low inside. elim (ℕ_discrete g i) [
    | yes same ↦ rw same (ground arith)
    | no other ↦
        let before : suc g * stride ≤ i * stride =
          mul-le-mul_right stride (omega (arith, low, other)) in
        let step : suc g * stride ≡ g * stride + stride = grind arith in
        ground (arith, h.copied g j, before, step)
  ];
}

pub copy_handles-IsCopied :
    (stride handle_size : ℕ) (handles : Memory) (size left i : ℕ) (table : Memory)
    → handle_size ≤ stride
    → (i + left) * stride ≤ size
    → (i + left) * handle_size ≤ handles.size
    → IsCopied stride handle_size handles size i table
    → IsSafe
        (IsCopied stride handle_size handles size (i + left))
        (copy_handles stride handle_size handles left i table)
unfolding copy_handles
copy_handles-IsCopied stride hs handles size zero i table fits in_table in_handles h =
    rw (add-zero i) h
copy_handles-IsCopied stride hs handles size (suc left) i table fits in_table in_handles h =
    let table' : Memory = record table {
      bytes = λ j.
          if leb (i * stride) j && ltb j (i * stride + hs)
          then handles.bytes (i * hs + (j - i * stride))
          else table.bytes j;
    } in
    let copied =
      memcpy-done table (i * stride) handles (i * hs) hs
        (omega (arith, in_table, room i left stride, fits, h.same_size))
        (omega (arith, in_handles, room i left hs)) in
    let rest =
      copy_handles-IsCopied stride hs handles size left (i + 1) table' fits
        (rw (one_more i left) in_table) (rw (one_more i left) in_handles)
        (IsCopied-memcpy stride hs handles size i table fits h) in
    rw copied (rw (← (one_more i left)) rest)
