-- ===== src/Scheduler/Complete/Leaves.antt =====
-- The parts of the state that a completion does not touch.
use pathological_v.Prelude.{◌≡◌, refl, Bytes, bytes_discrete, inl, inr, Option-cases}
use pathological_v.Prelude.Assoc.{lookup}
use pathological_v.Prelude.Result.{Result, ok, throws}
use pathological_v.Render.{RenderRequest}
use pathological_v.Render.History.{Ptr, get_render_request}
use pathological_v.Scheduler.{FrameJobContext, System, External}
use pathological_v.Scheduler.Complete.{
  keep_progress, publish, land_frame, complete_context, mark_render_completed,
}

abbrev pub Leaves : System → System → Type 0
Leaves s t =
    (t.worker_job_to_render_id ≡ s.worker_job_to_render_id)
    × (t.workers ≡ s.workers)
    × (t.pending_jobs ≡ s.pending_jobs)

-- What follows the look-up of the job leaves the map of jobs, the workers and the queue alone.
publish-Leaves : (p : Ptr) (s : System) (r : Result RenderRequest) → Leaves s (publish p s r).0
publish-Leaves p s (ok r) = (refl, refl, refl)
publish-Leaves p s (throws e) = (refl, refl, refl)

land_frame-Leaves :
    (x : External) (ctx : FrameJobContext) (p : Ptr) (s : System)
    → Leaves s (land_frame x ctx p s).0
unfolding land_frame keep_progress
land_frame-Leaves x ctx p s =
    elim (Option-cases (lookup bytes_discrete ctx.render_id s.render_progress)) [
      | inl e ↦ rw (e, land_frame) (refl, refl, refl)
      | inr (q, e) ↦
          rw (e, land_frame)
            (publish-Leaves p (record s { scheduler = keep_progress ctx.render_id _ s.scheduler })
              _)
    ]

pub complete_context-Leaves :
    (x : External) (ctx : FrameJobContext) (s : System) → Leaves s (complete_context x ctx s).0
unfolding complete_context
complete_context-Leaves x ctx s = elim (Option-cases (x.uuid_parse ctx.render_id)) [
  | inl e ↦ rw (e, complete_context) (refl, refl, refl)
  | inr (u, e) ↦ elim (Option-cases (get_render_request u s.renders)) [
    | inl e' ↦ rw (e, complete_context, e') (refl, refl, refl)
    | inr (p, e') ↦ rw (e, complete_context, e') (land_frame-Leaves x ctx p s)
  ]
]

pub mark_render_completed_leaves :
    (x : External) (job_id : Bytes) (s : System)
    → ((mark_render_completed x job_id s).0.workers ≡ s.workers)
      × ((mark_render_completed x job_id s).0.pending_jobs ≡ s.pending_jobs)
unfolding mark_render_completed
mark_render_completed_leaves x job_id s =
    elim (Option-cases (lookup bytes_discrete job_id s.worker_job_to_render_id)) [
      | inl e ↦ rw (e, mark_render_completed) (refl, refl)
      | inr (ctx, e) ↦
          let (jobs, workers, queue) = complete_context-Leaves x ctx _ in
          rw (e, mark_render_completed) (workers, queue)
    ]

pub mark_render_completed-workers :
    (x : External) (job_id : Bytes) (s : System)
    → (mark_render_completed x job_id s).0.workers ≡ s.workers
mark_render_completed-workers x job_id s = (mark_render_completed_leaves x job_id s).0
