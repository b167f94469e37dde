-- ===== src/Scheduler/RunLoop/Wakeup.antt =====
-- The wait of `Scheduler::run` on `job_available_`, and the notifications of the other threads. The
-- waiting thread holds `queue_mutex_` from the check of its condition until it blocks. `addJob` changes
-- the queue under that mutex; the operations on workers and `stop` do not take it.
pub mod Queueing
pub mod Lost
use pathological_v.Prelude.{
  ℕ, suc, ◌<◌, ◌≡◌, refl, Bytes, Bool, true, false, ◌||◌, List, [], ◌∷◌, ◌++◌, length, inl, inr, ap,
  sym, subst, ◌⊎◌, arith,
}
use pathological_v.Prelude.Int.{pos}
use pathological_v.Scheduler.{idle, Worker, FrameJob, System, External}
use pathological_v.Scheduler.Workers.{register_worker}
use pathological_v.Scheduler.Jobs.{add_job}
use pathological_v.Scheduler.Assign.{assign_jobs}
use pathological_v.Render.History.{Ptr}
use pathological_v.Scheduler.RunLoop.{has_idle_worker, is_idle_status, has_jobs, is_awaited}

-- Where the thread is: about to take the mutex, before the check, after a check that failed, blocked in
-- the wait, or past it.
pub data Phase : Type 0 where
  woken checking decided blocked awake : Phase

-- `owed` counts the notifications that other threads have still to send.
pub record Waiting : Type 0 where
  pub phase : Phase
  pub running : Bool
  pub system : System
  pub owed : ℕ

abbrev pub awaited : Waiting → Bool
awaited m = is_awaited m.running m.system

unfoldable pub check : Bool → Phase
check true = awake
check false = decided

-- A notification wakes a thread that is blocked, and is lost on any other.
unfoldable pub notified : Phase → Phase
notified woken = woken
notified checking = checking
notified decided = decided
notified blocked = woken
notified awake = awake

-- Whether the waiting thread holds `queue_mutex_`.
abbrev pub holds_queue : Phase → Bool
holds_queue woken = false
holds_queue checking = true
holds_queue decided = true
holds_queue blocked = false
holds_queue awake = false

unfoldable pub worker_added : Bytes → Bytes → ℕ → Waiting → Waiting
unfolding register_worker
worker_added id ip port m = record m {
  system = record m.system { scheduler = register_worker id ip port m.system.scheduler };
  owed = suc m.owed;
}

unfoldable pub render_queued : External → Ptr → Waiting → Waiting
unfolding add_job
render_queued x p m = record m { system = add_job x p m.system; owed = suc m.owed }

-- One step of the waiting thread, of a thread that queues a render with frames, or of a notification.
pub data WaitStep (x : External) (m : Waiting) : Waiting → Type 0 where
  acquires : m.phase ≡ woken → WaitStep x m (record m { phase = checking })
  checks : m.phase ≡ checking → WaitStep x m (record m { phase = check (awaited m) })
  blocks : m.phase ≡ decided → WaitStep x m (record m { phase = blocked })
  assigns :
      m.phase ≡ awake
      → m.running ≡ true
      → WaitStep x m (record m { phase = woken; system = assign_jobs x m.system })
  queues :
      (p : Ptr) (n : ℕ)
      → (m.system.renders.heap p).animation_runtime ≡ pos (suc n)
      → holds_queue m.phase ≡ false
      → WaitStep x m (render_queued x p m)
  notifies :
      (n : ℕ) → m.owed ≡ suc n → WaitStep x m (record m { phase = notified m.phase; owed = n })

pub data WaitSteps (x : External) (m : Waiting) : Waiting → Type 0 where
  here : WaitSteps x m m
  then : (n : Waiting) (o : Waiting) → WaitSteps x m n → WaitStep x n o → WaitSteps x m o
