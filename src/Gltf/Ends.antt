-- ===== src/Gltf/Ends.antt =====
-- No read of a glTF file uses up fuel.
use pathological_v.Prelude.{ℕ, zero, suc, List, [], ◌∷◌, Bytes}
use pathological_v.Prelude.Int.{ℤ, pos, negsuc}
use pathological_v.Prelude.Run.{Run, Ensures, Ensures-bind, ◌>>=◌}
use pathological_v.Gltf.{
  Accessor, Model, nat_at, int_at, accessor_data, little_endian, unit_at, tabulate,
}

-- A run that does not use up its fuel.
abbrev pub Ends {ℓ} : {A : Type ℓ} → Run A → Type 0
Ends m = Ensures (λ _. Unit) m

pub then {ℓ} :
    {A B : Type ℓ} (m : Run A) (f : A → Run B) → Ends m → ((a : A) → Ends (f a)) → Ends (m >>= f)
then m f e next = Ensures-bind (λ _. Unit) (λ _. Unit) m f e λ a _. next a

pub nat_at-Ends {ℓ} : {A : Type ℓ} (xs : List A) (i : ℕ) → Ends (nat_at xs i)
nat_at-Ends [] i = tt
nat_at-Ends (x ∷ xs) zero = tt
nat_at-Ends (x ∷ xs) (suc i) = nat_at-Ends xs i

pub int_at-Ends {ℓ} : {A : Type ℓ} (xs : List A) (i : ℤ) → Ends (int_at xs i)
int_at-Ends xs (pos i) = nat_at-Ends xs i
int_at-Ends xs (negsuc n) = tt

pub accessor_data-Ends :
    {Real : Type 0} (model : Model Real) (a : Accessor) → Ends (accessor_data model a)
unfolding accessor_data
accessor_data-Ends model a =
    then _ _ (int_at-Ends model.buffer_views a.buffer_view)
      λ view. then _ _ (int_at-Ends model.buffers view.buffer) λ buffer. tt

pub little_endian-Ends : (width : ℕ) (bs : Bytes) → Ends (little_endian width bs)
unfolding little_endian
little_endian-Ends zero bs = tt
little_endian-Ends (suc width) [] = tt
little_endian-Ends (suc width) (b ∷ bs) = then _ _ (little_endian-Ends width bs) λ n. tt

pub unit_at-Ends : (width : ℕ) (bs : Bytes) (i : ℕ) → Ends (unit_at width bs i)
unfolding unit_at
unit_at-Ends width bs i = little_endian-Ends width _

pub tabulate-Ends {ℓ} :
    {A : Type ℓ} (f : ℕ → Run A) (i left : ℕ) → ((j : ℕ) → Ends (f j)) → Ends (tabulate f i left)
unfolding tabulate
tabulate-Ends f i zero each = tt
tabulate-Ends f i (suc left) each =
    then _ _ (each i) λ x. then _ _ (tabulate-Ends f (suc i) left each) λ xs. tt
