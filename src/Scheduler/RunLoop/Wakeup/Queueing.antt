-- ===== src/Scheduler/RunLoop/Wakeup/Queueing.antt =====
-- A thread that waits is woken by what is queued.
use pathological_v.Prelude.{
  ℕ, suc, ◌<◌, ◌≡◌, refl, Bool, true, false, inl, inr, sym, subst, ◌⊎◌, arith,
}
use pathological_v.Scheduler.{External}
use pathological_v.Scheduler.Jobs.{add_job}
use pathological_v.Scheduler.RunLoop.{is_awaited}
use pathological_v.Scheduler.RunLoop.Wakeup.{
  Phase, woken, checking, decided, blocked, awake, Waiting, awaited, check, notified, holds_queue,
  render_queued, WaitStep, acquires, checks, blocks, assigns, queues, notifies, WaitSteps, here,
  then,
}

-- What keeps the thread from sleeping through a job.
abbrev IsHeard : Phase → Bool → ℕ → Type 0
IsHeard woken waits owed = Unit
IsHeard checking waits owed = Unit
IsHeard decided waits owed = waits ≡ false
IsHeard blocked waits owed = (waits ≡ false) ⊎ (0 < owed)
IsHeard awake waits owed = Unit

Heard : Waiting → Type 0
unfolding is_awaited
Heard m = IsHeard m.phase (awaited m) m.owed

check-IsHeard : (b : Bool) (n : ℕ) → IsHeard (check b) b n
unfolding check
check-IsHeard true n = tt
check-IsHeard false n = refl

blocked-IsHeard :
    (p : Phase) (b : Bool) (n : ℕ) → p ≡ decided → IsHeard p b n → (b ≡ false) ⊎ (0 < n)
blocked-IsHeard woken b n e h = absurd (cc)
blocked-IsHeard checking b n e h = absurd (cc)
blocked-IsHeard decided b n e h = inl h
blocked-IsHeard blocked b n e h = absurd (cc)
blocked-IsHeard awake b n e h = absurd (cc)

queued-IsHeard : (p : Phase) (b : Bool) (n : ℕ) → holds_queue p ≡ false → IsHeard p b (suc n)
queued-IsHeard woken b n e = tt
queued-IsHeard checking b n e = absurd (cc)
queued-IsHeard decided b n e = absurd (cc)
queued-IsHeard blocked b n e = inr (omega arith)
queued-IsHeard awake b n e = tt

notified-IsHeard : (p : Phase) (b : Bool) (n k : ℕ) → IsHeard p b n → IsHeard (notified p) b k
unfolding notified
notified-IsHeard woken b n k h = tt
notified-IsHeard checking b n k h = tt
notified-IsHeard decided b n k h = h
notified-IsHeard blocked b n k h = tt
notified-IsHeard awake b n k h = tt

step-Heard : (x : External) (m n : Waiting) → Heard m → WaitStep x m n → Heard n
unfolding Heard render_queued
step-Heard x m _ h (acquires e) = tt
step-Heard x m _ h (checks e) = check-IsHeard (awaited m) m.owed
step-Heard x m _ h (blocks e) = blocked-IsHeard m.phase (awaited m) m.owed e h
step-Heard x m _ h (assigns e r) = tt
step-Heard x m _ h (queues p n r e) =
    queued-IsHeard m.phase (is_awaited m.running (add_job x p m.system)) m.owed e
step-Heard x m _ h (notifies n e) = notified-IsHeard m.phase (awaited m) m.owed n h

-- While renders are queued and no worker changes its status, the thread never sleeps through a job:
-- from any state in which the thread is about to take the mutex, as at the start of a round, each
-- state that the steps reach in which the thread is blocked has a condition that does not hold, or a
-- notification still to come.
pub queueing_wakes :
    (x : External) (m n : Waiting)
    → m.phase ≡ woken
    → WaitSteps x m n
    → n.phase ≡ blocked
    → (awaited n ≡ false) ⊎ (0 < n.owed)
unfolding Heard
queueing_wakes x m n starts steps e = asleep n.phase (awaited n) n.owed e (steps-Heard n steps)
  where
    steps-Heard : (o : Waiting) → WaitSteps x m o → Heard o
    steps-Heard _ here = subst (λ (p : Phase). IsHeard p (awaited m) m.owed) (sym starts) tt
    steps-Heard _ (then a b before step) = step-Heard x a b (steps-Heard a before) step

    asleep : (p : Phase) (b : Bool) (k : ℕ) → p ≡ blocked → IsHeard p b k → (b ≡ false) ⊎ (0 < k)
    asleep woken b k f g = absurd (cc)
    asleep checking b k f g = absurd (cc)
    asleep decided b k f g = absurd (cc)
    asleep blocked b k f g = g
    asleep awake b k f g = absurd (cc)
