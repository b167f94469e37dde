-- ===== src/Scheduler/RunLoop/Wakeup/Lost.antt =====
-- A notification that the waiting thread misses.
use pathological_v.Prelude.{
  ℕ, suc, ◌<◌, ◌≡◌, refl, Bytes, Bool, true, false, ◌||◌, List, [], ◌∷◌, ◌++◌, length, ap, arith,
}
use pathological_v.Scheduler.{idle, Worker, FrameJob, External}
use pathological_v.Scheduler.Workers.{register_worker}
use pathological_v.Scheduler.RunLoop.{has_idle_worker, is_idle_status, has_jobs, is_awaited}
use pathological_v.Scheduler.RunLoop.Wakeup.{
  decided, blocked, Waiting, awaited, notified, worker_added, blocks, notifies, WaitSteps, here,
  then,
}

or_true : (b : Bool) → (b || true) ≡ true
or_true true = refl
or_true false = refl

has_idle-worker_added :
    (ws : List Worker) (w : Worker) → w.status ≡ idle → has_idle_worker (ws ++ w ∷ []) ≡ true
unfolding has_idle_worker
has_idle-worker_added [] w e = rw e refl
has_idle-worker_added (v ∷ ws) w e =
    rw (has_idle-worker_added ws w e) (or_true (is_idle_status v.status))

has_jobs-true : (js : List FrameJob) → 0 < length js → has_jobs js ≡ true
has_jobs-true [] h = absurd (omega (arith, h))
has_jobs-true (j ∷ js) h = refl

worker_added-awaited :
    (id ip : Bytes) (port : ℕ) (m : Waiting)
    → 0 < length m.system.pending_jobs
    → awaited (worker_added id ip port m) ≡ true
unfolding is_awaited worker_added register_worker
worker_added-awaited id ip port m jobs =
    rw
      (
        has_jobs-true m.system.pending_jobs jobs,
        has_idle-worker_added m.system.workers
            (record { id = id; ip = ip; port = port; status = idle }) refl,
      )
      refl

-- The thread is blocked although it should go on, and no notification is to come.
pub record Missed (x : External) (m : Waiting) : Type 0 where
  pub asleep : Waiting
  pub steps : WaitSteps x m asleep
  pub is_blocked : asleep.phase ≡ blocked
  pub is_awaited_for : awaited asleep ≡ true
  pub is_silent : asleep.owed ≡ 0

missed :
    (x : External) (m : Waiting) → m.phase ≡ decided → m.owed ≡ 1 → awaited m ≡ true → Missed x m
unfolding notified
missed x m e owed holds =
    let sent : Waiting = record m { phase = notified m.phase; owed = 0 } in
    let asleep : Waiting = record sent { phase = blocked } in
    record {
      asleep = asleep;
      steps = then sent asleep (then m sent here (notifies 0 owed)) (blocks (rw e refl));
      is_blocked = refl;
      is_awaited_for = holds;
      is_silent = refl;
    }

-- `registerWorker` may come between the check and the wait, since it does not take the thread's
-- mutex: then its notification is lost. From any state with a job in the queue, in which the check
-- has failed and no notification is owed, a worker that registers leaves a state from which there are
-- steps, its notification among them, to one in which the thread is blocked although its condition
-- holds, with no notification to come.
pub registration_lost :
    (x : External) (id ip : Bytes) (port : ℕ) (m : Waiting)
    → m.phase ≡ decided
    → m.owed ≡ 0
    → 0 < length m.system.pending_jobs
    → Missed x (worker_added id ip port m)
unfolding worker_added
registration_lost x id ip port m e none_owed jobs =
    missed x (worker_added id ip port m) e (ap suc none_owed)
      (worker_added-awaited id ip port m jobs)
