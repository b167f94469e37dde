-- ===== src/Gpu/Handles/Ownership.antt =====
-- Every allocation that is alive has one owner, and an owner's allocation is alive: nothing leaks and
-- nothing is freed twice.
use pathological_v.Prelude.{ℕ, ◌≡◌, ◌≢◌, refl, ◌∙◌, ap, Option, none, some, ite, ℕ_discrete, subst}
use pathological_v.Gpu.Handles.{
  write, construct, Objects, constructed, destroy, move_construct, move_assign,
}
use pathological_v.Gpu.Handles.Owners.{Held, held, Owned, moved-Owned, created-Owned}
use pathological_v.Gpu.Handles.Operations.{
  Step, makes, destroys, moves, assigns, held_at, IsOwned, held-handle, held-write, held-moved,
  release-IsReleased, released-IsOwned, assigned-IsOwned, eq_true, eq_false,
}

Step-IsOwned :
    {E : Type 0} (s : Objects E) (owner : ℕ → ℕ) (o : Option (Objects E))
    → Owned (held_at s) s.live owner
    → Step s o
    → IsOwned o
unfolding construct constructed destroy move_construct move_assign
Step-IsOwned s owner _ owned (makes k failure al size none empty new) = record {
  after = s;
  goes_on = refl;
  owner = owner;
  owned = owned;
}
Step-IsOwned s owner _ owned
      (makes k failure al size (some (resource, allocation)) empty (handle, new)) =
    record {
      after = _;
      goes_on = refl;
      owner = write owner allocation k;
      owned =
          created-Owned (held_at s) _ s.live owner owned k
            (record { allocator = al; resource = resource; allocation = allocation })
            (unfold held in ap held empty) new
            (λ i.
              held-write s.slots k _ i
              ∙ ap (λ (v : Option Held). ite (ℕ_discrete k i) v (held_at s i))
                  (held-handle _ handle));
    }
Step-IsOwned s owner _ owned (destroys k o there) =
    released-IsOwned s (write s.slots k none) owner o (
      release-IsReleased s _ owner k o owned there
        (λ j. unfold held in held-write s.slots k none j))
Step-IsOwned s owner _ owned (moves k j other empty there) =
    let apart : k ≢ j = λ same. absurd (cc (empty, there, ap s.slots same)) in
    record {
      after = _;
      goes_on = refl;
      owner = _;
      owned =
          moved-Owned (held_at s) _ s.live owner owned k j apart (unfold held in ap held empty)
            (held-moved s.slots k j other there apart);
    }
Step-IsOwned s owner _ owned (assigns k j this other mine there) = elim (ℕ_discrete k j) [
  | yes same ↦
      rw (eq_true k j same) (record { after = s; goes_on = refl; owner = owner; owned = owned })
  | no apart ↦
      rw (eq_false k j apart) (assigned-IsOwned s owner k j this other owned mine there apart)
]

pub data Reach (E : Type 0) : Option (Objects E) → Type 0 where
  start : Reach E (some (record { slots = λ k. none; live = λ a. none }))
  next : (s : Objects E) (o : Option (Objects E)) → Reach E (some s) → Step s o → Reach E o

next-IsOwned :
    {E : Type 0} (s : Objects E) (o : Option (Objects E)) → IsOwned (some s) → Step s o → IsOwned o
next-IsOwned s o h step =
    let same : h.after ≡ s = cc (h.goes_on) in
    Step-IsOwned s h.owner o
      (subst (λ (t : Objects _). Owned (held_at t) t.live h.owner) same h.owned) step

-- Whatever buffers or images a program creates, moves, assigns and destroys, where each creation
-- fails or gives a new allocation, it never frees what is not alive, each allocation that is alive is
-- owned by exactly one object, and what an object owns is alive.
pub Reach-IsOwned : {E : Type 0} (o : Option (Objects E)) → Reach E o → IsOwned o
Reach-IsOwned _ start = record {
  after = _;
  goes_on = refl;
  owner = λ a. 0;
  owned = record {
    alive = λ k h e. absurd (unfold held in cc e);
    kept = λ a al r e. absurd (cc e);
  };
}
Reach-IsOwned o (next s _ before step) = next-IsOwned s o (Reach-IsOwned (some s) before) step
