-- ===== src/Runs/Refused.antt =====
-- A worker that fails while it renders: `RenderServer::RenderJob` (render_worker/src/
-- render_server.cpp) then calls `JobCompleted` and returns an error, so that the scheduler first
-- serves the completion and then finds the dispatch not accepted.
use pathological_v.Prelude.{ℕ, ◌≤◌, ◌≡◌, Bytes, bytes_discrete, Option, none, some, arith, [], ◌∷◌}
use pathological_v.Prelude.Assoc.{lookup}
use pathological_v.Render.History.{Heap}
use pathological_v.Scheduler.{Dispatch, RenderProgress, System, External, IsSound}
use pathological_v.Scheduler.Assign.{dispatch_failed}
use pathological_v.Scheduler.Complete.{mark_render_completed}
use pathological_v.Scheduler.Frames.{ids, queued, missing_at, queued-append}
use pathological_v.Scheduler.Invariant.{Inv, context}
use pathological_v.Scheduler.Invariant.Complete.{
  completed_state, completed-Keeps, missing_at-completed, mark_render_completed_registered,
  hit_self,
}
use pathological_v.Scheduler.Invariant.Fail.{failed}
use pathological_v.Scheduler.Invariant.Renders.{ids-Keeps}
use pathological_v.Runs.{Reach}
use pathological_v.Runs.Good.{Reach-Good}

missing_at-le : (i : ℕ) (o : Option RenderProgress) → missing_at i o ≤ 1
unfolding missing_at
missing_at-le i none = omega arith
missing_at-le i (some p) = ground arith

module _ (x : External) (s : System) (d : Dispatch) (inv : Inv x s)
    (registered : lookup bytes_discrete d.job_id s.worker_job_to_render_id
      ≡ some (context x s d)) where
  abbrev r : Bytes
  r = ids x s.renders.heap d.frame_job.render_request

  abbrev C : System
  C = completed_state x s d.job_id (context x s d) inv registered

  not_missing : missing_at d.frame_job.frame_index (lookup bytes_discrete r C.render_progress) ≡ 0
  not_missing = omega (
    arith,
    missing_at-completed x s d.job_id (context x s d) inv registered r d.frame_job.frame_index,
    hit_self r d.frame_job.frame_index,
    missing_at-le d.frame_job.frame_index (lookup bytes_discrete r s.render_progress),
  )

  queued_again :
      1 ≤ queued (ids x C.renders.heap) r d.frame_job.frame_index (failed d C).pending_jobs
  unfolding dispatch_failed queued
  queued_again = rw (ids-Keeps x (completed-Keeps x s d.job_id (context x s d) inv registered)) (
      omega (
        arith,
        queued-append (ids x s.renders.heap) r d.frame_job.frame_index C.pending_jobs
            (d.frame_job ∷ []),
        hit_self r d.frame_job.frame_index,
      ))

abbrev pub LandedAndQueued : External → Bytes → ℕ → System → Type 0
LandedAndQueued x r i t =
    (missing_at i (lookup bytes_discrete r t.render_progress) ≡ 0)
    × (1 ≤ queued (ids x t.renders.heap) r i t.pending_jobs)

-- With uuids that are read back from their texts and job ids that are never given twice, in every
-- state that the scheduler reaches, a dispatch that is refused after its job was reported completed leaves the frame queued for
-- another rendering although no render waits for it: the scheduler has counted the failed frame as
-- delivered.
pub refused_after_completion :
    {x : External} {heap : Heap} {s : System}
    → IsSound x
    → Reach x heap s
    → (d : Dispatch)
    → lookup bytes_discrete d.job_id s.worker_job_to_render_id ≡ some (context x s d)
    → LandedAndQueued x
        (ids x s.renders.heap d.frame_job.render_request)
        d.frame_job.frame_index
        (failed d (mark_render_completed x d.job_id s).0)
unfolding dispatch_failed
refused_after_completion {x} {s = s} sound reach d registered =
    let inv = (Reach-Good sound reach).inv in
    rw (mark_render_completed_registered x s d.job_id (context x s d) inv registered)
      (not_missing x s d inv registered, queued_again x s d inv registered)
