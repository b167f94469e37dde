-- ===== src/Runs/Good.antt =====
-- Every step keeps the invariant, so it holds in every state that the scheduler reaches.
use pathological_v.Prelude.{
  ℕ, ◌≡◌, ◌≢◌, refl, sym, Bytes, bytes_discrete, none, some, inl, inr, arith, get_elem?, List,
  Option-cases, ℕ_discrete, subst, Bool,
}
use pathological_v.Prelude.Assoc.{lookup, lookup-emplace_new}
use pathological_v.Prelude.Result.{Result, ok, throws}
use pathological_v.Render.History.{Ptr, Heap, add_render, get_render_request}
use pathological_v.Scheduler.{Dispatch, System, External, IsSound, Worker, FrameJobContext}
use pathological_v.Scheduler.Jobs.{add_job}
use pathological_v.Scheduler.Assign.{assign_jobs, dispatch_failed}
use pathological_v.Scheduler.Assign.Loop.{assign_jobs_inv}
use pathological_v.Scheduler.Complete.{mark_render_completed, keep_progress}
use pathological_v.Scheduler.Frames.{ids, queued, in_flight, missing_at}
use pathological_v.Scheduler.Invariant.{Inv, Threads, Accounted}
use pathological_v.Scheduler.Invariant.Add.{IsInt, add_job-Inv, add_job-OnlyQueues}
use pathological_v.Scheduler.Invariant.Assign.{assigned-Inv}
use pathological_v.Scheduler.Invariant.Complete.{
  completed_state, completed-Inv, completed-Keeps, mark_render_completed_registered,
}
use pathological_v.Scheduler.Invariant.Fail.{failed, dispatch_failed-Inv}
use pathological_v.Scheduler.Invariant.Threads.{assigned-Threads, erase-Threads, Threads-same}
use pathological_v.Scheduler.Invariant.Renders.{Keeps, Keeps-refl}
use pathological_v.Scheduler.Workers.{find_worker_by_id, mark_worker_idle}
use pathological_v.Server.{establish_connection, disconnect, job_completed, free_worker}
use pathological_v.Runs.{
  initial, submit, Step, Reach, submits, connects, disconnects, assigns, completes, fails, start,
  next,
}

pub record Good (x : External) (s : System) : Type 0 where
  pub inv : Inv x s
  pub threads : Threads x s

initial-Good : (x : External) (heap : Heap) → Good x (initial heap)
unfolding initial queued in_flight missing_at lookup
initial-Good x heap = record {
  inv = record {
    unique = tt;
    fresh = λ m h. refl;
    accounted = λ r i. refl;
    tracked = λ r p e. absurd (cc);
  };
  threads = λ k d e. absurd (cc);
}

-- Only the workers differ.
module _ {x : External} {s : System} (g : Good x s) where
  workers-Good :
      (ws : List Worker) → Good x (record s { scheduler = record s.scheduler { workers = ws } })
  workers-Good ws = record {
    inv = record {
      unique = g.inv.unique;
      fresh = g.inv.fresh;
      accounted = g.inv.accounted;
      tracked = g.inv.tracked;
    };
    threads = Threads-same {s = s} (Keeps-refl s.renders) refl refl refl g.threads;
  }

  establish_connection-Good :
      (id ip : Bytes) (port : ℕ) → Good x (establish_connection id ip port s).0
  unfolding establish_connection
  establish_connection-Good id ip port = elim (Option-cases (find_worker_by_id id s.workers)) [
    | inl new ↦ rw (new, establish_connection) (workers-Good _)
    | inr (i, known) ↦ rw (known, establish_connection) (workers-Good _)
  ]

  disconnect-Good : (id : Bytes) → Good x (disconnect id s).0
  unfolding disconnect
  disconnect-Good id = elim (Option-cases (find_worker_by_id id s.workers)) [
    | inl new ↦ rw (new, disconnect) g
    | inr (i, known) ↦ rw (known, disconnect) (workers-Good _)
  ]

  failed-Good :
      (k : ℕ) (d : Dispatch)
      → get_elem? s.dispatch_threads k ≡ some d
      → lookup bytes_discrete d.job_id s.worker_job_to_render_id ≢ none
      → Good x (failed d s)
  unfolding dispatch_failed
  failed-Good k d e registered = elim (g.threads k d e).entry [
    | inl gone ↦ absurd (registered gone)
    | inr entry ↦ record {
      inv = dispatch_failed-Inv x s d entry g.inv;
      threads = erase-Threads {s = s} d.job_id (Keeps-refl s.renders) refl refl refl g.threads;
    }
  ]

  completed_state-Good :
      (job_id : Bytes) (ctx : FrameJobContext)
      (e : lookup bytes_discrete job_id s.worker_job_to_render_id ≡ some ctx)
      → Good x (completed_state x s job_id ctx g.inv e)
  unfolding completed_state keep_progress
  completed_state-Good job_id ctx e = record {
    inv = completed-Inv x s job_id ctx g.inv e;
    threads =
        erase-Threads {s = s} job_id (completed-Keeps x s job_id ctx g.inv e) refl refl refl
          g.threads;
  }

  mark_render_completed-Good : (job_id : Bytes) → Good x (mark_render_completed x job_id s).0
  unfolding mark_render_completed
  mark_render_completed-Good job_id =
      elim (Option-cases (lookup bytes_discrete job_id s.worker_job_to_render_id)) [
        | inl gone ↦ rw (gone, mark_render_completed) g
        | inr (ctx, e) ↦
            subst (λ (r : System × Result Bool). Good x r.0)
              (sym (mark_render_completed_registered x s job_id ctx g.inv e))
              (completed_state-Good job_id ctx e)
      ]

free_worker-Good :
    {x : External} (worker_id : Bytes) (r : System × Result Bool)
    → Good x r.0
    → Good x (free_worker worker_id r).0
unfolding mark_worker_idle
free_worker-Good worker_id (s, ok done) g = workers-Good g _
free_worker-Good worker_id (s, throws e) g = g

module _ {x : External} {s : System} (g : Good x s) where
  job_completed-Good : (worker_id job_id : Bytes) → Good x (job_completed x worker_id job_id s).0
  unfolding job_completed
  job_completed-Good worker_id job_id =
      elim (Option-cases (find_worker_by_id worker_id s.workers)) [
        | inl new ↦ rw (new, job_completed) g
        | inr (i, known) ↦
            rw (known, job_completed)
              (free_worker-Good worker_id (mark_render_completed x job_id s)
                (mark_render_completed-Good g job_id))
      ]

  assign_jobs-Good : IsSound x → Good x (assign_jobs x s)
  assign_jobs-Good sound =
      assign_jobs_inv x (Good x)
        (λ j rest i w s front found there free g. record {
          inv = assigned-Inv x sound j rest i w s g.inv front;
          threads = assigned-Threads x sound j rest i w s g.inv g.threads;
        })
        s g

  module _ (sound : IsSound x) (p : Ptr)
      (new : get_render_request (s.renders.heap p).id s.renders ≡ none) where
    -- No render with frames to come has the id of one that is not in the history.
    untracked : lookup bytes_discrete (ids x s.renders.heap p) s.render_progress ≡ none
    untracked =
        elim (Option-cases (lookup bytes_discrete (ids x s.renders.heap p) s.render_progress)) [
          | inl e ↦ e
          | inr (q, e) ↦
              let t = g.inv.tracked (ids x s.renders.heap p) q e in
              absurd (cc (sound.parse_text (s.renders.heap p).id, t.parsed, t.found, new))
        ]

    recorded : System
    recorded = record s { renders = (add_render (some p) s.renders).0 }

    recorded-found :
        (u : ℕ) (q : Ptr)
        → get_render_request u s.renders ≡ some q
        → get_render_request u recorded.renders ≡ some q
    unfolding recorded add_render get_render_request
    recorded-found u q e =
        ground
          (arith, lookup-emplace_new ℕ_discrete (s.renders.heap p).id u p s.renders.history new)

    recorded_self : get_render_request (s.renders.heap p).id recorded.renders ≡ some p
    unfolding recorded add_render get_render_request
    recorded_self = ground (
      arith,
      lookup-emplace_new ℕ_discrete (s.renders.heap p).id (s.renders.heap p).id p s.renders.history
          new,
    )

    recorded-Good : Good x recorded
    unfolding recorded add_render
    recorded-Good = record {
      inv = record {
        unique = g.inv.unique;
        fresh = g.inv.fresh;
        accounted = g.inv.accounted;
        tracked = λ r q e.
            let t = g.inv.tracked r q e in
            record {
              uuid = t.uuid;
              ptr = t.ptr;
              parsed = t.parsed;
              found = recorded-found t.uuid t.ptr t.found;
              size = t.size;
              small = t.small;
              counted = t.counted;
              unfinished = t.unfinished;
              named = t.named;
            };
      };
      threads = λ k d e.
          let t = g.threads k d e in
          record { number = t.number; minted = t.minted; named = t.named; entry = t.entry };
    }

    submit-Good : IsInt (s.renders.heap p).animation_runtime → Good x (submit x p s)
    unfolding submit recorded
    submit-Good range =
        let added = add_job-OnlyQueues x p recorded in
        record {
          inv = add_job-Inv x sound p recorded recorded_self untracked range recorded-Good.inv;
          threads =
              Threads-same {s = recorded} {s' = add_job x p recorded}
                (subst (Keeps recorded.renders) (sym added.same_renders)
                  (Keeps-refl recorded.renders))
                added.same_ids added.same_threads added.same_map recorded-Good.threads;
        }

-- Every step keeps it.
Step-Good : {x : External} {s t : System} → IsSound x → Step x s t → Good x s → Good x t
Step-Good sound (submits p s new range) g = submit-Good g sound p new range
Step-Good sound (connects id ip port s) g = establish_connection-Good g id ip port
Step-Good sound (disconnects id s) g = disconnect-Good g id
Step-Good sound (assigns s) g = assign_jobs-Good g sound
Step-Good sound (completes worker_id job_id s) g = job_completed-Good g worker_id job_id
Step-Good sound (fails k d s e registered) g = failed-Good g k d e registered

pub Reach-Good : {x : External} {heap : Heap} {s : System} → IsSound x → Reach x heap s → Good x s
Reach-Good {x} {heap} sound start = initial-Good x heap
Reach-Good sound (next r st) = Step-Good sound st (Reach-Good sound r)

-- With uuids that are read back from their texts and job ids that are never given twice, in every
-- state that the scheduler reaches from the empty one, whatever the order of requests,
-- completions and refused dispatches, a frame whose link a render still waits for is in exactly
-- one place, once in the queue or once in the map of dispatched jobs, and no other frame is in
-- either.
pub Reach-Accounted :
    {x : External} {heap : Heap} {s : System} → IsSound x → Reach x heap s → Accounted x s
Reach-Accounted sound r = (Reach-Good sound r).inv.accounted
