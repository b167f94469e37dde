-- ===== src/Prelude/Assoc.antt =====
-- `std::unordered_map` as an association list with one entry for a key.
use Prim.Native.Nat.{ℕ, ◌+◌}
use mathlib.Core.List.{List, [], ◌∷◌}
use mathlib.Core.Logic.{◌⊎◌, ite}
use mathlib.Core.Option.{Option, none, some}
use mathlib.Core.Path.{◌≡◌, refl}
use native.Mathlib.Omega.{arith}

module _ {ℓ} {K V : Type ℓ} (dec : Discrete K) where
  -- `find`
  unfoldable pub lookup : K → List (K × V) → Option V
  lookup k [] = none
  lookup k ((j, v) ∷ m) = ite (dec j k) (some v) (lookup k m)

  -- `m[k] = v`
  unfoldable pub insert : K → V → List (K × V) → List (K × V)
  insert k v [] = (k, v) ∷ []
  insert k v ((j, w) ∷ m) = ite (dec j k) ((j, v) ∷ m) ((j, w) ∷ insert k v m)

  -- `m.emplace(k, v)`: an entry that is there stays
  unfoldable pub emplace : K → V → List (K × V) → List (K × V)
  emplace k v [] = (k, v) ∷ []
  emplace k v ((j, w) ∷ m) = ite (dec j k) ((j, w) ∷ m) ((j, w) ∷ emplace k v m)

  -- `m.erase(k)`
  unfoldable pub erase : K → List (K × V) → List (K × V)
  erase k [] = []
  erase k ((j, w) ∷ m) = ite (dec j k) (erase k m) ((j, w) ∷ erase k m)

  pub lookup-insert :
      (k j : K) (v : V) (m : List (K × V))
      → lookup j (insert k v m) ≡ ite (dec k j) (some v) (lookup j m)
  unfolding lookup insert
  lookup-insert k j v [] = refl
  lookup-insert k j v ((i, w) ∷ m) = ground (arith, lookup-insert k j v m)

  pub lookup-emplace_new :
      (k j : K) (v : V) (m : List (K × V))
      → lookup k m ≡ none
      → lookup j (emplace k v m) ≡ ite (dec k j) (some v) (lookup j m)
  unfolding lookup emplace
  lookup-emplace_new k j v [] h = refl
  lookup-emplace_new k j v ((i, w) ∷ m) h = ground (arith, lookup-emplace_new k j v m)

  pub emplace_old : (k : K) (v w : V) (m : List (K × V)) → lookup k m ≡ some w → emplace k v m ≡ m
  unfolding lookup emplace
  emplace_old k v w [] h = cc
  emplace_old k v w ((i, u) ∷ m) h = ground (arith, emplace_old k v w m)

  pub lookup-erase :
      (k j : K) (m : List (K × V)) → lookup j (erase k m) ≡ ite (dec k j) none (lookup j m)
  unfolding lookup erase
  lookup-erase k j [] = ground arith
  lookup-erase k j ((i, w) ∷ m) = ground (arith, lookup-erase k j m)

  -- No key twice: so in a hash map.
  abbrev pub Unique : List (K × V) → Type ℓ
  Unique [] = Unit
  Unique ((k, v) ∷ m) = (lookup k m ≡ none) × Unique m

  pub erase_absent : (k : K) (m : List (K × V)) → lookup k m ≡ none → erase k m ≡ m
  unfolding lookup erase
  erase_absent k [] h = refl
  erase_absent k ((i, w) ∷ m) h = ground (arith, erase_absent k m)

  pub insert-Unique : (k : K) (v : V) (m : List (K × V)) → Unique m → Unique (insert k v m)
  unfolding lookup insert
  insert-Unique k v [] u = (refl, tt)
  insert-Unique k v ((i, w) ∷ m) u = ground (arith, lookup-insert k i v m, insert-Unique k v m u.1)

  pub erase-Unique : (k : K) (m : List (K × V)) → Unique m → Unique (erase k m)
  unfolding lookup erase
  erase-Unique k [] u = tt
  erase-Unique k ((i, w) ∷ m) u = ground (arith, lookup-erase k i m, erase-Unique k m u.1)

  -- The sum of a measure over the values.
  unfoldable pub weigh : (V → ℕ) → List (K × V) → ℕ
  weigh f [] = 0
  weigh f ((k, v) ∷ m) = f v + weigh f m

  pub weigh-insert_new :
      (f : V → ℕ) (k : K) (v : V) (m : List (K × V))
      → lookup k m ≡ none
      → weigh f (insert k v m) ≡ weigh f m + f v
  unfolding lookup insert weigh
  weigh-insert_new f k v [] h = omega arith
  weigh-insert_new f k v ((i, w) ∷ m) h = ground (arith, weigh-insert_new f k v m)

  pub weigh-erase :
      (f : V → ℕ) (k : K) (v : V) (m : List (K × V))
      → Unique m
      → lookup k m ≡ some v
      → weigh f (erase k m) + f v ≡ weigh f m
  unfolding lookup erase weigh
  weigh-erase f k v [] u h = cc
  weigh-erase f k v ((i, w) ∷ m) u h = ground (arith, weigh-erase f k v m u.1, erase_absent k m)

  pub lookup-insert_cases :
      (k j : K) (v w : V) (m : List (K × V))
      → lookup j (insert k v m) ≡ some w
      → ((k ≡ j) × (v ≡ w)) ⊎ (lookup j m ≡ some w)
  lookup-insert_cases k j v w m e = ground (arith, lookup-insert k j v m)

  pub lookup-erase-some :
      (k j : K) (w : V) (m : List (K × V)) → lookup j (erase k m) ≡ some w → lookup j m ≡ some w
  lookup-erase-some k j w m e = ground (arith, lookup-erase k j m)

  pub lookup-erase_self : (k : K) (m : List (K × V)) → lookup k (erase k m) ≡ none
  lookup-erase_self k m = ground (arith, lookup-erase k k m)

  pub lookup-erase_cases :
      (k j : K) (m : List (K × V))
      → (lookup j (erase k m) ≡ none) ⊎ (lookup j (erase k m) ≡ lookup j m)
  lookup-erase_cases k j m = ground (arith, lookup-erase k j m)

  pub lookup-insert_self : (k : K) (v : V) (m : List (K × V)) → lookup k (insert k v m) ≡ some v
  lookup-insert_self k v m = ground (arith, lookup-insert k k v m)

  pub lookup-insert_ne :
      (k j : K) (v : V) (m : List (K × V)) → ¬ (k ≡ j) → lookup j (insert k v m) ≡ lookup j m
  lookup-insert_ne k j v m h = ground (arith, lookup-insert k j v m)
