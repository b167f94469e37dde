-- ===== src/Gpu/Handles/Operations.antt =====
-- The operations of a program on its buffers and images, and what each does to the owners.
use pathological_v.Prelude.{
  ℕ, ◌≡◌, ◌≢◌, refl, ◌∙◌, ap, Bytes, true, false, ◌==◌, Option, none, some, arith, ite, ℕ_discrete,
}
use mathlib.Core.Option
use pathological_v.Gpu.Handles.{
  Owner, Live, write, matches, vma_destroy, construct, release, moved_from, Objects, constructed,
  destroy, move_construct, move_assign,
}
use pathological_v.Gpu.Handles.Owners.{
  Held, held, Owned, release_none, release_some, moved-Owned, matches_self,
}

-- What the allocator gives is no null handle, and an allocation that is not alive.
abbrev pub IsNew : Option (ℕ × ℕ) → Live → Type 0
IsNew none live = Unit
IsNew (some (resource, allocation)) live = (resource ≢ 0) × (live allocation ≡ none)

-- One operation of a program on its objects. The outcome `none` is an allocation that is freed though
-- it is not alive.
pub data Step {E : Type 0} (s : Objects E) : Option (Objects E) → Type 0 where
  makes :
      (k : ℕ) (failure : Bytes) (allocator : ℕ) (size : E) (made : Option (ℕ × ℕ))
      → s.slots k ≡ none
      → IsNew made s.live
      → Step s (some (constructed k made (construct failure allocator size made) s))
  destroys : (k : ℕ) (o : Owner E) → s.slots k ≡ some o → Step s (destroy k o s)
  moves :
      (k j : ℕ) (other : Owner E)
      → s.slots k ≡ none
      → s.slots j ≡ some other
      → Step s (some (move_construct k j other s))
  assigns :
      (k j : ℕ) (this other : Owner E)
      → s.slots k ≡ some this
      → s.slots j ≡ some other
      → Step s (move_assign k this j other s)

abbrev pub held_at : {E : Type 0} → Objects E → ℕ → Option Held
held_at s k = held (s.slots k)

-- The program goes on, and each allocation has one owner.
pub record IsOwned {E : Type 0} (o : Option (Objects E)) : Type 0 where
  pub after : Objects E
  pub goes_on : o ≡ some after
  pub owner : ℕ → ℕ
  pub owned : Owned (held_at after) after.live owner

held-null : {E : Type 0} (o : Owner E) → o.resource ≡ 0 → held (some o) ≡ none
unfolding held
held-null o e = ground arith

pub held-handle :
    {E : Type 0} (o : Owner E)
    → o.resource ≢ 0
    → held (some o)
      ≡ some (record { allocator = o.allocator; resource = o.resource; allocation = o.allocation })
unfolding held
held-handle o e = ground (arith, e)

pub held-write :
    {E : Type 0} (f : ℕ → Option (Owner E)) (k : ℕ) (v : Option (Owner E)) (j : ℕ)
    → held (write f k v j) ≡ ite (ℕ_discrete k j) (held v) (held (f j))
held-write f k v j = ground arith

-- Where the destructor's part is run on what address `k` holds, it succeeds.
pub record IsReleased {E : Type 0} (s : Objects E) (next : ℕ → Option Held) (owner : ℕ → ℕ)
    (o : Owner E) : Type 0 where
  pub live : Live
  pub succeeds : release o s.live ≡ some live
  pub owned : Owned next live owner

pub release-IsReleased :
    {E : Type 0} (s : Objects E) (next : ℕ → Option Held) (owner : ℕ → ℕ) (k : ℕ) (o : Owner E)
    → Owned (held_at s) s.live owner
    → s.slots k ≡ some o
    → ((j : ℕ) → next j ≡ ite (ℕ_discrete k j) none (held_at s j))
    → IsReleased s next owner o
unfolding release vma_destroy
release-IsReleased s next owner k o owned there empties = elim (ℕ_discrete o.resource 0) [
  | yes null ↦ record {
    live = s.live;
    succeeds = ground (arith, null);
    owned =
        release_none (held_at s) next s.live owner owned k empties
          (ap held there ∙ held-null o null);
  }
  | no handle ↦
      let holds = ap held there ∙ held-handle o handle in
      let (lives, _) = owned.alive k _ holds in
      record {
        live = write s.live o.allocation none;
        succeeds = ground (
          arith,
          handle,
          lives,
          ap (matches o.allocator o.resource) lives,
          matches_self o.allocator o.resource,
        );
        owned = release_some (held_at s) next s.live owner owned k empties _ holds;
      }
]

moved_from-held : {E : Type 0} (o : Owner E) → held (some (moved_from o)) ≡ none
unfolding held moved_from
moved_from-held o = refl

pub released-IsOwned :
    {E : Type 0} (s : Objects E) (slots : ℕ → Option (Owner E)) (owner : ℕ → ℕ) (o : Owner E)
    → IsReleased s (λ j. held (slots j)) owner o
    → IsOwned (Option.map (λ live. record { slots = slots; live = live }) (release o s.live))
released-IsOwned s slots owner o r = rw r.succeeds (record {
  after = record { slots = slots; live = r.live };
  goes_on = refl;
  owner = owner;
  owned = r.owned;
})

pub held-moved :
    {E : Type 0} (f : ℕ → Option (Owner E)) (k j : ℕ) (other : Owner E)
    → f j ≡ some other
    → k ≢ j
    → (i : ℕ)
    → held (write (write f k (some other)) j (some (moved_from other)) i)
      ≡ ite (ℕ_discrete k i) (held (f j)) (ite (ℕ_discrete j i) none (held (f i)))
held-moved f k j other there apart i = elim (ℕ_discrete j i) [
  | yes source ↦ ground (arith, source, apart, moved_from-held other)
  | no elsewhere ↦ ground (arith, elsewhere, ap held there, held-write f k (some other) i)
]

pub eq_true : (k j : ℕ) → k ≡ j → (k == j) ≡ true
eq_true k j e = ground (arith, e)

pub eq_false : (k j : ℕ) → k ≢ j → (k == j) ≡ false
eq_false k j e = ground (arith, e)

after_release :
    (h : ℕ → Option Held) (k j i : ℕ)
    → k ≢ j
    → ite (ℕ_discrete k i) (h j) (ite (ℕ_discrete j i) none (h i))
      ≡ ite
          (ℕ_discrete k i)
          (ite (ℕ_discrete k j) none (h j))
          (ite (ℕ_discrete j i) none (ite (ℕ_discrete k i) none (h i)))
after_release h k j i apart = elim (ℕ_discrete k i) [
  | yes same ↦ ground (arith, same, apart)
  | no other ↦ ground (arith, other)
]

pub assigned-IsOwned :
    {E : Type 0} (s : Objects E) (owner : ℕ → ℕ) (k j : ℕ) (this other : Owner E)
    → Owned (held_at s) s.live owner
    → s.slots k ≡ some this
    → s.slots j ≡ some other
    → k ≢ j
    → IsOwned (
        Option.map
          (λ live. record {
            slots = write (write s.slots k (some other)) j (some (moved_from other));
            live = live;
          })
          (release this s.live))
assigned-IsOwned s owner k j this other owned mine there apart =
    let emptied : ℕ → Option Held = λ i. ite (ℕ_discrete k i) none (held_at s i) in
    let r = release-IsReleased s emptied owner k this owned mine (λ i. refl) in
    released-IsOwned s (write (write s.slots k (some other)) j (some (moved_from other))) _ this
      (record {
        live = r.live;
        succeeds = r.succeeds;
        owned = moved-Owned emptied _ r.live owner r.owned k j apart (ground arith) (λ i.
            held-moved s.slots k j other there apart i ∙ after_release (held_at s) k j i apart);
      })
