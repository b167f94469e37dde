-- ===== src/Prelude/Int.antt =====
-- The C++ type `int`, as an integer over the native numbers, and its casts.
use Prim.Native.Nat.{ℕ, ◌-◌, ◌%◌}
use mathlib.Core.Bool.{Bool, true, false}
use pathological_v.Prelude.Tests.{ltb, if◌then◌else◌}

-- `negsuc n` is -(n + 1).
pub data ℤ : Type 0 where
  pos : ℕ → ℤ
  negsuc : ℕ → ℤ

abbrev pub is_negative : ℤ → Bool
is_negative (pos n) = false
is_negative (negsuc n) = true

-- `static_cast<uint32_t>(int)`: modulo 2^32.
abbrev pub to_u32 : ℤ → ℕ
to_u32 (pos n) = n % 4294967296
to_u32 (negsuc n) = 4294967295 - n % 4294967296

-- `static_cast<int>(uint32_t)`: two's complement.
abbrev pub to_int : ℕ → ℤ
to_int n = if ltb n 2147483648 then pos n else negsuc (4294967295 - n)
