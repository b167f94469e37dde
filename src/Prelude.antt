-- ===== src/Prelude.antt =====
-- Names that all the modules share: numbers, tests, lists, maps and byte strings of the C++ code.
mod Tests
mod Lists
pub mod Int
pub mod Assoc
pub mod Decimal
pub mod Result
pub mod Run
pub mod Bits
pub use Tests.*
unfoldable pub use Tests.{by_case}
pub use Lists.*
pub use Prim.Native.Nat.{ℕ, zero, suc, ◌+◌, ◌-◌, ◌*◌, ◌/◌, ◌%◌, ◌^◌, ◌≤◌, ◌<◌, min, max}
pub use mathlib.Core.Path.{◌≡◌, refl, sym, ap, ◌∙◌, subst, fun_ext}
pub use mathlib.Core.Logic.{◌≢◌, ◌↔◌, ◌⊎◌, inl, inr}
pub use mathlib.Core.Logic.{ite, if_pos, if_neg}
pub use mathlib.Core.Bool.{Bool, true, false, ◌&&◌, ◌||◌, not}
pub use mathlib.Core.Option.{Option, none, some}
pub use mathlib.Core.List.{List, [], ◌∷◌, ◌++◌, map, append_assoc, append-nil}
pub use native.Mathlib.Omega.{arith}
unfoldable pub use native.Mathlib.Decide.{dec_lt, dec_le, ℕ_discrete}

-- A `std::string`: its bytes. Two of them are compared by `bytes_discrete`.
abbrev pub Bytes : Type 0
Bytes = List ℕ

unfoldable pub bytes_discrete : Discrete Bytes
unfolding ℕ_discrete
bytes_discrete [] [] = yes refl
bytes_discrete [] (y ∷ ys) = no (λ e. cc)
bytes_discrete (x ∷ xs) [] = no (λ e. cc)
bytes_discrete (x ∷ xs) (y ∷ ys) = ite-heads (ℕ_discrete x y) (bytes_discrete xs ys)
  where
    ite-heads : Dec (x ≡ y) → Dec (xs ≡ ys) → Dec (◌≡◌ {A = List ℕ} (x ∷ xs) (y ∷ ys))
    ite-heads (yes p) (yes q) = yes (cc)
    ite-heads (yes p) (no q) = no (λ e. q (cc))
    ite-heads (no p) q = no (λ e. p (cc))
