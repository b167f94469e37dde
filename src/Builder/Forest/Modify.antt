-- ===== src/Builder/Forest/Modify.antt =====
-- The table of nodes after one of them is changed, and the reads of vectors.
use pathological_v.Prelude.{
  ℕ, zero, suc, ◌<◌, ◌≤◌, ◌≡◌, refl, ap, ◌⊎◌, inl, inr, some, List, [], ◌∷◌, ◌++◌, get_elem?,
  length, arith,
}
use pathological_v.Prelude.Run.{done}
use pathological_v.Gltf.{nat_at}
use pathological_v.Builder.{Glm, Node, modify}
use pathological_v.Builder.Forest.{AreChildren}

pub get_elem?-below {ℓ} :
    {A : Type ℓ} (xs : List A) (i : ℕ) → i < length xs → (x : A) × (get_elem? xs i ≡ some x)
get_elem?-below [] i lt = absurd (omega arith)
get_elem?-below (x ∷ xs) zero lt = (x, refl)
get_elem?-below (x ∷ xs) (suc i) lt = get_elem?-below xs i (omega arith)

pub nat_at-some {ℓ} :
    {A : Type ℓ} (xs : List A) (i : ℕ) (x : A) → get_elem? xs i ≡ some x → nat_at xs i ≡ done x
nat_at-some [] i x e = absurd (cc)
nat_at-some (y ∷ xs) zero x e = ap done (cc)
nat_at-some (y ∷ xs) (suc i) x e = nat_at-some xs i x e

module _ (g : Glm) where
  pub length-modify :
      (i : ℕ) (f : Node g → Node g) (ns : List (Node g)) → length (modify g i f ns) ≡ length ns
  length-modify i f [] = refl
  length-modify zero f (n ∷ ns) = refl
  length-modify (suc i) f (n ∷ ns) = ap suc (length-modify i f ns)

  -- What stands in the table afterwards.
  pub get_elem?-modify_cases :
      (i j : ℕ) (f : Node g → Node g) (ns : List (Node g)) (n : Node g)
      → get_elem? (modify g i f ns) j ≡ some n
      → ((m : Node g) × (i ≡ j) × (get_elem? ns i ≡ some m) × (n ≡ f m)) ⊎ (get_elem? ns j ≡ some n)
  get_elem?-modify_cases i j f [] n e = inr e
  get_elem?-modify_cases zero zero f (m ∷ ns) n e = inl (m, refl, refl, cc)
  get_elem?-modify_cases zero (suc j) f (m ∷ ns) n e = inr e
  get_elem?-modify_cases (suc i) zero f (m ∷ ns) n e = inr e
  get_elem?-modify_cases (suc i) (suc j) f (m ∷ ns) n e =
      elim (get_elem?-modify_cases i j f ns n e) [
        | inl (k, same, there, is) ↦ inl (k, ap suc same, there, is)
        | inr old ↦ inr old
      ]

pub AreChildren-wider :
    (i size size' : ℕ) (cs : List ℕ) → size ≤ size' → AreChildren i size cs → AreChildren i size' cs
AreChildren-wider i size size' [] le a = tt
AreChildren-wider i size size' (c ∷ cs) le a =
    ((a.0.0, omega (arith, a.0.1)), AreChildren-wider i size size' cs le a.1)

pub AreChildren-append :
    (i size c : ℕ) (cs : List ℕ)
    → i < c
    → c < size
    → AreChildren i size cs
    → AreChildren i size (cs ++ c ∷ [])
AreChildren-append i size c [] above below a = ((above, below), tt)
AreChildren-append i size c (d ∷ cs) above below a =
    (a.0, AreChildren-append i size c cs above below a.1)
