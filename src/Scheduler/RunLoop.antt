-- ===== src/Scheduler/RunLoop.antt =====
-- `Scheduler::run`, `stop` and `joinThreads` (scheduler/src/scheduler.cpp): the thread that assigns
-- jobs, and its waiting.
pub mod Progress
pub mod Wakeup
use pathological_v.Prelude.{Bool, true, false, ◌&&◌, ◌||◌, not, List, [], ◌∷◌, if◌then◌else◌}
use pathological_v.Scheduler.{
  WorkerStatus, idle, busy, offline, Worker, FrameJob, Dispatch, Scheduler, System, External,
}
use pathological_v.Scheduler.Assign.{assign_jobs}

abbrev pub is_idle_status : WorkerStatus → Bool
is_idle_status idle = true
is_idle_status busy = false
is_idle_status offline = false

-- The search in the wait's condition.
unfoldable pub has_idle_worker : List Worker → Bool
has_idle_worker [] = false
has_idle_worker (w ∷ ws) = is_idle_status w.status || has_idle_worker ws

abbrev pub has_jobs : List FrameJob → Bool
has_jobs [] = false
has_jobs (j ∷ js) = true

-- The condition on which the thread goes on.
unfoldable pub is_awaited : Bool → System → Bool
unfolding has_idle_worker
is_awaited running s = (has_jobs s.pending_jobs && has_idle_worker s.workers) || not running

pub data Round : Type 0 where
  waits stops : Round
  assigned : System → Round

-- One round of the loop: the thread waits, leaves the loop, or assigns jobs.
unfoldable pub round : External → Bool → System → Round
unfolding is_awaited assign_jobs
round x running s =
    if is_awaited running s then (if running then assigned (assign_jobs x s) else stops) else waits

-- The flag `running_` and the threads after `stop`, which waits for every dispatch thread.
pub record Stopped : Type 0 where
  pub running : Bool
  pub scheduler : Scheduler

unfoldable pub join_threads : Scheduler → Scheduler
join_threads s = record s { dispatch_threads = [] }

unfoldable pub stop : Scheduler → Stopped
unfolding join_threads
stop s = record { running = false; scheduler = join_threads s }
