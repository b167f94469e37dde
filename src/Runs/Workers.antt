-- ===== src/Runs/Workers.antt =====
-- The worker list along a run.
use pathological_v.Prelude.{ℕ, ◌≡◌, refl, ◌∙◌, sym, ap, Bytes, inl, inr, Option-cases, subst, Bool}
use mathlib.Core.List.{map-append}
use pathological_v.Prelude.Result.{Result, ok, throws}
use pathological_v.Render.History.{Heap}
use pathological_v.Scheduler.{busy, offline, idle, System, External}
use pathological_v.Scheduler.Workers.{find_worker_by_id, mark_worker_idle}
use pathological_v.Scheduler.Workers.Status.{
  ids_of, ids_of-mark, ids_of-write_status, Distinct, find_none-Absent, append-Distinct,
}
use pathological_v.Scheduler.Assign.{assign_one, assign_jobs, dispatch_failed}
use pathological_v.Scheduler.Assign.Loop.{assign_jobs_inv}
use pathological_v.Scheduler.Complete.{mark_render_completed}
use pathological_v.Scheduler.Complete.Leaves.{mark_render_completed-workers}
use pathological_v.Scheduler.Invariant.Add.{add_job-OnlyQueues}
use pathological_v.Server.{establish_connection, disconnect, free_worker, job_completed}
use pathological_v.Runs.{
  initial, submit, Step, Reach, submits, connects, disconnects, assigns, completes, fails, start,
  next,
}

abbrev pub DistinctWorkers : System → Type 0
DistinctWorkers s = Distinct (ids_of s.workers)

connected :
    (id ip : Bytes) (port : ℕ) (s : System)
    → DistinctWorkers s
    → DistinctWorkers (establish_connection id ip port s).0
unfolding establish_connection
connected id ip port s d = elim (Option-cases (find_worker_by_id id s.workers)) [
  | inl new ↦
      rw (new, establish_connection, map-append)
        (append-Distinct id (ids_of s.workers) (find_none-Absent id s.workers new) d)
  | inr (i, known) ↦
      rw (known, establish_connection) (subst Distinct (sym (ids_of-mark idle id s.workers)) d)
]

disconnected : (id : Bytes) (s : System) → DistinctWorkers s → DistinctWorkers (disconnect id s).0
unfolding disconnect
disconnected id s d = elim (Option-cases (find_worker_by_id id s.workers)) [
  | inl new ↦ rw (new, disconnect) d
  | inr (i, known) ↦
      rw (known, disconnect) (subst Distinct (sym (ids_of-mark offline id s.workers)) d)
]

freed :
    (worker_id : Bytes) (r : System × Result Bool)
    → ids_of (free_worker worker_id r).0.workers ≡ ids_of r.0.workers
unfolding mark_worker_idle
freed worker_id (s, ok done) = ids_of-mark idle worker_id s.workers
freed worker_id (s, throws e) = refl

job_completed-ids :
    (x : External) (worker_id job_id : Bytes) (s : System)
    → ids_of (job_completed x worker_id job_id s).0.workers ≡ ids_of s.workers
unfolding job_completed
job_completed-ids x worker_id job_id s =
    elim (Option-cases (find_worker_by_id worker_id s.workers)) [
      | inl new ↦ rw (new, job_completed)
      | inr (i, known) ↦
          rw (known, job_completed)
            (freed worker_id (mark_render_completed x job_id s)
              ∙ ap ids_of (mark_render_completed-workers x job_id s))
    ]

assign_jobs-ids : (x : External) (s : System) → ids_of (assign_jobs x s).workers ≡ ids_of s.workers
unfolding assign_one
assign_jobs-ids x s =
    assign_jobs_inv x (λ t. ids_of t.workers ≡ ids_of s.workers)
      (λ j rest i w t front found there free same. ids_of-write_status i busy t.workers ∙ same) s
      refl

Step-Distinct : {x : External} {s t : System} → Step x s t → DistinctWorkers s → DistinctWorkers t
unfolding submit dispatch_failed
Step-Distinct {x} (submits p s new range) d =
    subst (λ ws. Distinct (ids_of ws)) (sym (add_job-OnlyQueues x p _).same_workers) d
Step-Distinct (connects id ip port s) d = connected id ip port s d
Step-Distinct (disconnects id s) d = disconnected id s d
Step-Distinct {x} (assigns s) d = subst Distinct (sym (assign_jobs-ids x s)) d
Step-Distinct {x} (completes worker_id job_id s) d =
    subst Distinct (sym (job_completed-ids x worker_id job_id s)) d
Step-Distinct (fails k th s e registered) d =
    subst Distinct (sym (ids_of-mark offline th.worker_id s.workers)) d

-- No worker is in the list twice, in any state that the scheduler reaches by whole calls.
pub Reach-Distinct : {x : External} {heap : Heap} {s : System} → Reach x heap s → DistinctWorkers s
unfolding initial
Reach-Distinct start = tt
Reach-Distinct (next r st) = Step-Distinct st (Reach-Distinct r)
