-- ===== src/Scheduler/Workers.antt =====
-- The worker list of the scheduler (scheduler/src/scheduler.cpp). A `Worker*` is the position of
-- the worker in the vector, and `nullptr` is `none`.
pub mod Find
pub mod Status
use pathological_v.Prelude.{
  ℕ, zero, suc, ◌≡◌, refl, Bytes, bytes_discrete, Option, none, some, List, [], ◌∷◌, ◌++◌, ite,
}
use mathlib.Core.Option
use pathological_v.Scheduler.{WorkerStatus, idle, busy, offline, Worker, Scheduler}

pub WorkerStatus-discrete : Discrete WorkerStatus
WorkerStatus-discrete = hlevel

unfoldable pub is_idle : WorkerStatus → Option ℕ → Option ℕ
is_idle idle rest = some 0
is_idle busy rest = rest
is_idle offline rest = rest

-- `findIdleWorker`: the first idle worker.
unfoldable pub find_idle_worker : List Worker → Option ℕ
unfolding is_idle
find_idle_worker [] = none
find_idle_worker (w ∷ ws) = is_idle w.status (Option.map suc (find_idle_worker ws))

-- `findWorkerByID`: the first worker of that id.
unfoldable pub find_worker_by_id : Bytes → List Worker → Option ℕ
find_worker_by_id id [] = none
find_worker_by_id id (w ∷ ws) =
    ite (bytes_discrete w.id id) (some 0) (Option.map suc (find_worker_by_id id ws))

-- `worker->status = status`
unfoldable pub write_status : ℕ → WorkerStatus → List Worker → List Worker
write_status i status [] = []
write_status zero status (w ∷ ws) = record w { status = status } ∷ ws
write_status (suc i) status (w ∷ ws) = w ∷ write_status i status ws

unfoldable pub mark : WorkerStatus → Bytes → List Worker → List Worker
unfolding find_worker_by_id write_status
mark status id ws = elim (find_worker_by_id id ws) [ none ↦ ws | some i ↦ write_status i status ws ]

unfoldable pub register_worker : Bytes → Bytes → ℕ → Scheduler → Scheduler
register_worker id ip port s = record s {
  workers = s.workers ++ record { id = id; ip = ip; port = port; status = idle } ∷ [];
}

unfoldable pub reconnect_worker : Bytes → Scheduler → Scheduler
unfolding mark
reconnect_worker id s = record s { workers = mark idle id s.workers }

unfoldable pub mark_worker_offline : Bytes → Scheduler → Scheduler
unfolding mark
mark_worker_offline id s = record s { workers = mark offline id s.workers }

unfoldable pub mark_worker_idle : Bytes → Scheduler → Scheduler
unfolding mark
mark_worker_idle id s = record s { workers = mark idle id s.workers }
