-- ===== src/Runs.antt =====
-- The scheduler as a whole: a step for each request that it serves and each critical section that
-- one of its own threads passes, in any order.
pub mod Good
pub mod Refused
pub mod Workers
use pathological_v.Prelude.{
  ℕ, zero, suc, ◌+◌, ◌≤◌, ◌<◌, ◌≡◌, ◌≢◌, refl, ◌∙◌, sym, ap, Bytes, bytes_discrete, Option, none,
  some, inl, inr, ◌⊎◌, arith, get_elem?, List, [], ◌∷◌, ◌++◌, Option-cases, ℕ_discrete, subst, Bool,
}
use pathological_v.Prelude.Assoc.{lookup, emplace, lookup-emplace_new}
use pathological_v.Prelude.Result.{Result, ok, throws}
use pathological_v.Render.History.{Ptr, Heap, RenderHistory, add_render, get_render_request}
use pathological_v.Scheduler.{
  Dispatch, Scheduler, System, External, IsSound, Worker, FrameJobContext,
}
use pathological_v.Scheduler.Jobs.{add_job, add_frames}
use pathological_v.Scheduler.Assign.{assign_one, assign_jobs, dispatch_failed}
use pathological_v.Scheduler.Assign.Loop.{assign_jobs_inv}
use pathological_v.Scheduler.Complete.{mark_render_completed, keep_progress}
use pathological_v.Scheduler.Frames.{ids, queued, in_flight, missing_at}
use pathological_v.Scheduler.Invariant.{Inv, IsRegistered, Threads, Tracked, Accounted, context}
use pathological_v.Scheduler.Invariant.Add.{IsInt, add_job-Inv, add_job-OnlyQueues}
use pathological_v.Scheduler.Invariant.Assign.{assigned-Inv}
use pathological_v.Scheduler.Invariant.Complete.{
  completed_state, completed-Inv, completed-Keeps, mark_render_completed_registered,
}
use pathological_v.Scheduler.Invariant.Fail.{failed, dispatch_failed-Inv}
use pathological_v.Scheduler.Invariant.Threads.{assigned-Threads, erase-Threads, Threads-same}
use pathological_v.Scheduler.Invariant.Renders.{Keeps, Keeps-refl}
use pathological_v.Scheduler.Workers.{find_worker_by_id, mark_worker_idle}
use pathological_v.Server.{establish_connection, disconnect, job_completed}

-- The start: no worker, no job, an empty history. The store is any.
unfoldable pub initial : Heap → System
initial heap = record {
  scheduler = record {
    pending_jobs = [];
    workers = [];
    worker_job_to_render_id = [];
    render_progress = [];
    ids_minted = 0;
    dispatch_threads = [];
  };
  renders = record { heap = heap; history = [] };
}

-- `addRender` and `addJob`, as a submission calls them.
unfoldable pub submit : External → Ptr → System → System
unfolding add_render
submit x p s = add_job x p (record s { renders = (add_render (some p) s.renders).0 })

pub data Step (x : External) : System → System → Type 0 where
  submits :
      (p : Ptr) (s : System)
      → get_render_request (s.renders.heap p).id s.renders ≡ none
      → IsInt (s.renders.heap p).animation_runtime
      → Step x s (submit x p s)
  connects :
      (id ip : Bytes) (port : ℕ) (s : System) → Step x s (establish_connection id ip port s).0
  disconnects : (id : Bytes) (s : System) → Step x s (disconnect id s).0
  assigns : (s : System) → Step x s (assign_jobs x s)
  completes :
      (worker_id job_id : Bytes) (s : System) → Step x s (job_completed x worker_id job_id s).0
  -- A dispatch is not accepted while its job is still registered.
  fails :
      (k : ℕ) (d : Dispatch) (s : System)
      → get_elem? s.dispatch_threads k ≡ some d
      → lookup bytes_discrete d.job_id s.worker_job_to_render_id ≢ none
      → Step x s (failed d s)

pub data Reach (x : External) (heap : Heap) : System → Type 0 where
  start : Reach x heap (initial heap)
  next : {s t : System} → Reach x heap s → Step x s t → Reach x heap t
