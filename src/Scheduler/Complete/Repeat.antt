-- ===== src/Scheduler/Complete/Repeat.antt =====
-- A second completion of the same job.
use pathological_v.Prelude.{◌≡◌, Bytes, bytes_discrete, false, none, inl, inr, Option-cases}
use pathological_v.Prelude.Assoc.{lookup, lookup-erase_self}
use pathological_v.Prelude.Result.{ok}
use pathological_v.Scheduler.{System, External}
use pathological_v.Scheduler.Complete.Leaves.{complete_context-Leaves}
use pathological_v.Scheduler.Complete.{mark_render_completed}

mark_render_completed-gone :
    (x : External) (job_id : Bytes) (s : System)
    → lookup bytes_discrete job_id (mark_render_completed x job_id s).0.worker_job_to_render_id
      ≡ none
unfolding mark_render_completed
mark_render_completed-gone x job_id s =
    elim (Option-cases (lookup bytes_discrete job_id s.worker_job_to_render_id)) [
      | inl e ↦ rw (e, mark_render_completed) e
      | inr (ctx, e) ↦
          rw (e, mark_render_completed, (complete_context-Leaves x ctx _).0)
            (lookup-erase_self bytes_discrete job_id s.worker_job_to_render_id)
    ]

-- Whatever the state and whatever came of the first completion of a job, a second one returns
-- `false` and changes nothing.
pub mark_render_completed_twice :
    (x : External) (job_id : Bytes) (s : System)
    → let t = (mark_render_completed x job_id s).0 in
      mark_render_completed x job_id t ≡ (t, ok false)
unfolding mark_render_completed
mark_render_completed_twice x job_id s =
    rw (mark_render_completed-gone x job_id s, mark_render_completed)
