-- ===== src/Scheduler/Assign.antt =====
-- `Scheduler::assignJobs` and the dispatch threads that it starts.
pub mod Loop
pub mod Fifo
use pathological_v.Prelude.{
  ℕ, zero, suc, ◌+◌, ◌≡◌, refl, Bytes, bytes_discrete, codes, Bool, true, false, Option, none, some,
  List, [], ◌∷◌, ◌++◌, get_elem?,
}
use pathological_v.Prelude.Assoc.{insert, erase}
use pathological_v.Prelude.Decimal.{to_string}
use pathological_v.Render.{in_progress}
use pathological_v.Render.History.{update_status}
use pathological_v.Scheduler.{
  busy, offline, Worker, FrameJob, FrameJobContext, Dispatch, Scheduler, System, External,
}
use pathological_v.Scheduler.Workers.{find_idle_worker, write_status, mark}

unfoldable pub generate_job_id : External → Scheduler → Bytes
generate_job_id x s = x.uuid_text (x.job_uuid s.ids_minted)

unfoldable pub worker_address : Worker → Bytes
worker_address w = w.ip ++ codes ":" ++ to_string w.port

-- The body of the loop, for the frame at the front and the idle worker `w` at position `i`. `rest`
-- are the frames behind it.
unfoldable pub assign_one : External → FrameJob → List FrameJob → ℕ → Worker → System → System
unfolding generate_job_id worker_address write_status insert bytes_discrete update_status
assign_one x frame_job rest i w s = record s {
  scheduler = record s.scheduler {
    pending_jobs = rest;
    workers = write_status i busy s.workers;
    worker_job_to_render_id =
        insert bytes_discrete job_id
          (record { render_id = x.uuid_text id; frame_index = frame_job.frame_index })
          s.worker_job_to_render_id;
    ids_minted = s.ids_minted + 1;
    dispatch_threads =
        s.dispatch_threads
        ++ record {
          worker_id = w.id;
          worker_address = worker_address w;
          frame_job = frame_job;
          job_id = job_id;
        }
          ∷ [];
  };
  renders = (update_status id in_progress s.renders).0;
}
  where
    id : ℕ
    id = (s.renders.heap frame_job.render_request).id

    job_id : Bytes
    job_id = generate_job_id x s.scheduler

-- `workers_[i]`, which a pointer into the vector always names.
unfoldable pub assign_at : External → FrameJob → List FrameJob → ℕ → Option Worker → System → System
unfolding assign_one
assign_at x frame_job rest i none s = s
assign_at x frame_job rest i (some w) s = assign_one x frame_job rest i w s

-- The loop over the queue. `queue` is the queue of `s`: each round takes its front off.
unfoldable pub assign_loop : External → List FrameJob → System → System
unfolding find_idle_worker assign_at
assign_loop x [] s = s
assign_loop x (frame_job ∷ rest) s = elim (find_idle_worker s.workers) [
  | none ↦ s
  | some i ↦ assign_loop x rest (assign_at x frame_job rest i (get_elem? s.workers i) s)
]

unfoldable pub assign_jobs : External → System → System
unfolding assign_loop
assign_jobs x s = assign_loop x s.pending_jobs s

-- A dispatch thread after its call was not accepted: it takes the registration back, queues the
-- frame again, and marks the worker offline.
unfoldable pub dispatch_failed : Dispatch → Scheduler → Scheduler
unfolding erase bytes_discrete mark
dispatch_failed d s = record s {
  worker_job_to_render_id = erase bytes_discrete d.job_id s.worker_job_to_render_id;
  pending_jobs = s.pending_jobs ++ d.frame_job ∷ [];
  workers = mark offline d.worker_id s.workers;
}

unfoldable pub dispatch_returns : Dispatch → Bool → Scheduler → Scheduler
unfolding dispatch_failed
dispatch_returns d true s = s
dispatch_returns d false s = dispatch_failed d s
