-- ===== src/Gpu/Handles/Owners.antt =====
-- What it is for the live allocations to be owned, and that each change of an owner keeps it.
use pathological_v.Prelude.{
  ℕ, ◌≡◌, ◌≢◌, sym, ◌∙◌, ap, true, ◌==◌, Option, none, some, arith, if◌then◌else◌, ite, ℕ_discrete,
}
use pathological_v.Gpu.Handles.{Owner, Live, write, matches}

-- An allocation with its allocator and its buffer or image.
pub record Held : Type 0 where
  pub allocator : ℕ
  pub resource : ℕ
  pub allocation : ℕ

-- What an address owns.
unfoldable pub held : {E : Type 0} → Option (Owner E) → Option Held
held none = none
held (some o) =
    if o.resource == 0
    then none
    else some (record { allocator = o.allocator; resource = o.resource; allocation = o.allocation })

-- `owner` names the address that owns an allocation.
pub record Owned (held_at : ℕ → Option Held) (live : Live) (owner : ℕ → ℕ) : Type 0 where
  pub alive :
      (k : ℕ) (h : Held)
      → held_at k ≡ some h
      → (live h.allocation ≡ some (h.allocator, h.resource)) × (owner h.allocation ≡ k)
  pub kept :
      (a al r : ℕ)
      → live a ≡ some (al, r)
      → held_at (owner a) ≡ some (record { allocator = al; resource = r; allocation = a })

pub matches_self : (al r : ℕ) → matches al r (some (al, r)) ≡ true
matches_self al r = ground arith

-- What a destructor does to the live allocations: it gives back what the address owns, which is alive.
module _ (held_at next : ℕ → Option Held) (live : Live) (owner : ℕ → ℕ)
    (owned : Owned held_at live owner) (k : ℕ)
    (empties : (j : ℕ) → next j ≡ ite (ℕ_discrete k j) none (held_at j)) where
  pub release_none : held_at k ≡ none → Owned next live owner
  release_none nothing = record {
    alive = λ j h e. owned.alive j h (elim (ℕ_discrete k j) [
      | yes same ↦ absurd (ground (arith, empties j, same))
      | no other ↦ ground (arith, empties j, other)
    ]);
    kept = λ a al r e.
        let there = owned.kept a al r e in
        elim (ℕ_discrete k (owner a)) [
          | yes same ↦ absurd (cc (ap held_at same, there, nothing))
          | no other ↦ ground (arith, empties (owner a), other, there)
        ];
  }

  pub release_some :
      (h : Held) → held_at k ≡ some h → Owned next (write live h.allocation none) owner
  release_some h e = record {
    alive = λ j g f. elim (ℕ_discrete k j) [
      | yes same ↦ absurd (ground (arith, empties j, same))
      | no other ↦
          let there : held_at j ≡ some g = ground (arith, empties j, other) in
          let (lives, names) = owned.alive j g there in
          let (_, named) = owned.alive k h e in
          elim (ℕ_discrete h.allocation g.allocation) [
            | yes shared ↦ absurd (other (sym named ∙ ap owner shared ∙ names))
            | no apart ↦ (ground (arith, apart, lives), names)
          ]
    ];
    kept = λ a al r f. elim (ℕ_discrete h.allocation a) [
      | yes gone ↦ absurd (ground (arith, gone))
      | no apart ↦
          let there = owned.kept a al r (ground (arith, apart)) in
          elim (ℕ_discrete k (owner a)) [
            | yes same ↦
                let one : some h ≡ some (record { allocator = al; resource = r; allocation = a }) =
                  sym e ∙ ap held_at same ∙ there in
                absurd (apart (cc (one)))
            | no other ↦ ground (arith, empties (owner a), other, there)
          ]
    ];
  }

-- A move: address `k`, which owns nothing, gets what `j` owns.
module _ (held_at next : ℕ → Option Held) (live : Live) (owner : ℕ → ℕ)
    (owned : Owned held_at live owner) (k j : ℕ) (apart : k ≢ j) (empty : held_at k ≡ none)
    (moves : (i : ℕ)
      → next i ≡ ite (ℕ_discrete k i) (held_at j) (ite (ℕ_discrete j i) none (held_at i))) where
  abbrev pub heir : ℕ → ℕ
  heir a = ite (ℕ_discrete (owner a) j) k (owner a)

  pub moved-Owned : Owned next live heir
  moved-Owned = record {
    alive = λ i h e. elim (ℕ_discrete k i) [
      | yes same ↦
          let (lives, names) = owned.alive j h (ground (arith, moves i, same)) in
          (lives, ground (arith, names, same))
      | no other ↦ elim (ℕ_discrete j i) [
        | yes source ↦ absurd (ground (arith, moves i, other, source))
        | no elsewhere ↦
            let (lives, names) = owned.alive i h (ground (arith, moves i, other, elsewhere)) in
            (lives, ground (arith, names, elsewhere))
      ]
    ];
    kept = λ a al r e.
        let there = owned.kept a al r e in
        elim (ℕ_discrete (owner a) j) [
          | yes source ↦ ground (arith, moves k, source, ap held_at source, there)
          | no elsewhere ↦ elim (ℕ_discrete k (owner a)) [
            | yes same ↦ absurd (cc (ap held_at same, there, empty))
            | no other ↦ ground (arith, moves (owner a), other, elsewhere, there)
          ]
        ];
  }

-- A constructor that returns: address `k`, which owns nothing, gets a new allocation.
module _ (held_at next : ℕ → Option Held) (live : Live) (owner : ℕ → ℕ)
    (owned : Owned held_at live owner) (k : ℕ) (h : Held) (empty : held_at k ≡ none)
    (new : live h.allocation ≡ none)
    (creates : (i : ℕ) → next i ≡ ite (ℕ_discrete k i) (some h) (held_at i)) where
  pub created-Owned :
      Owned next
        (write live h.allocation (some (h.allocator, h.resource)))
        (write owner h.allocation k)
  created-Owned = record {
    alive = λ i g e. elim (ℕ_discrete k i) [
      | yes same ↦
          let one : some h ≡ some g = ground (arith, creates i, same) in
          let eq : h ≡ g = cc one in
          (
            ground (
              arith,
              ap (λ (u : Held). u.allocation) eq,
              ap (λ (u : Held). u.allocator) eq,
              ap (λ (u : Held). u.resource) eq,
            ),
            ground (arith, ap (λ (u : Held). u.allocation) eq, same),
          )
      | no other ↦
          let (lives, names) = owned.alive i g (ground (arith, creates i, other)) in
          elim (ℕ_discrete h.allocation g.allocation) [
            | yes shared ↦ absurd (cc (ap live shared, new, lives))
            | no apart ↦ (ground (arith, apart, lives), ground (arith, apart, names))
          ]
    ];
    kept = λ a al r e. elim (ℕ_discrete h.allocation a) [
      | yes same ↦
          let one : ◌≡◌ {A = Option (ℕ × ℕ)} (some (h.allocator, h.resource)) (some (al, r)) =
            ground (arith, same) in
          let whole : h ≡ record { allocator = al; resource = r; allocation = a } =
            cc (one, same) in
          ground (arith, same, creates k, whole)
      | no apart ↦
          let there = owned.kept a al r (ground (arith, apart)) in
          elim (ℕ_discrete k (owner a)) [
            | yes taken ↦ absurd (cc (ap held_at taken, there, empty))
            | no other ↦ ground (arith, apart, creates (owner a), other, there)
          ]
    ];
  }
