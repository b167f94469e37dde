-- ===== src/Scheduler/Invariant/Fail.antt =====
-- A dispatch that was not accepted, and whose job is still registered, keeps the invariant.
use pathological_v.Prelude.{ℕ, ◌+◌, ◌≡◌, Bytes, bytes_discrete, some, arith, [], ◌∷◌}
use pathological_v.Prelude.Assoc.{lookup, erase, lookup-erase, erase-Unique, weigh-erase}
use pathological_v.Scheduler.{FrameJobContext, Dispatch, System, External}
use pathological_v.Scheduler.Assign.{dispatch_failed}
use pathological_v.Scheduler.Frames.{ids, queued, in_flight, queued-append, hit}
use pathological_v.Scheduler.Invariant.{Inv, context}

abbrev pub failed : Dispatch → System → System
failed d s = record s { scheduler = dispatch_failed d s.scheduler }

pub in_flight-erase :
    (r : Bytes) (k : ℕ) (job_id : Bytes) (ctx : FrameJobContext) {x : External} {s : System}
    → Inv x s
    → lookup bytes_discrete job_id s.worker_job_to_render_id ≡ some ctx
    → in_flight r k (erase bytes_discrete job_id s.worker_job_to_render_id)
        + hit ctx.render_id ctx.frame_index r k
      ≡ in_flight r k s.worker_job_to_render_id
unfolding in_flight
in_flight-erase r k job_id ctx inv e = weigh-erase bytes_discrete _ job_id ctx _ inv.unique e

pub dispatch_failed-Inv :
    (x : External) (s : System) (d : Dispatch)
    → lookup bytes_discrete d.job_id s.worker_job_to_render_id ≡ some (context x s d)
    → Inv x s
    → Inv x (failed d s)
unfolding dispatch_failed queued
dispatch_failed-Inv x s d registered inv = record {
  unique = erase-Unique bytes_discrete d.job_id _ inv.unique;
  fresh = λ m h. ground (
    arith,
    lookup-erase bytes_discrete d.job_id (x.uuid_text (x.job_uuid m)) s.worker_job_to_render_id,
    inv.fresh m h,
  );
  accounted = λ r k. ground (
    arith,
    inv.accounted r k,
    queued-append (ids x s.renders.heap) r k s.pending_jobs (d.frame_job ∷ []),
    in_flight-erase r k d.job_id (context x s d) inv registered,
  );
  tracked = inv.tracked;
}
