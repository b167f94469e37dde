-- ===== src/Scheduler/Invariant/Add.antt =====
-- `addJob` keeps the invariant.
use pathological_v.Prelude.{
  ℕ, zero, suc, ◌<◌, ◌≡◌, refl, ◌∙◌, Bytes, bytes_discrete, Option, none, some, inl, inr, arith,
  get_elem?, replicate, length-replicate,
}
use mathlib.Core.Path.{subst₂}
use pathological_v.Prelude.Assoc.{lookup, lookup-insert, lookup-insert_cases}
use pathological_v.Prelude.Int.{ℤ, pos, negsuc}
use pathological_v.Render.History.{Ptr, get_render_request}
use pathological_v.Scheduler.{Scheduler, System, External, IsSound}
use pathological_v.Scheduler.Jobs.{frame_jobs, new_progress, queue_frames, add_frames, add_job}
use pathological_v.Scheduler.Frames.{
  ids, missing_at, queued-append, queued-frame_jobs, is_missing-replicate, count_missing-replicate,
}
use pathological_v.Scheduler.Invariant.{Tracked, Accounted, Inv}

-- An `int` is below 2^31.
abbrev pub IsInt : ℤ → Type 0
IsInt (pos n) = n < 2147483648
IsInt (negsuc n) = n < 2147483648

get_elem?-replicate-none :
    (n i : ℕ) {l : Bytes} → get_elem? (replicate {A = Option Bytes} n none) i ≡ some (some l) → ⊥
get_elem?-replicate-none zero i h = cc
get_elem?-replicate-none (suc n) zero h = cc
get_elem?-replicate-none (suc n) (suc i) h = get_elem?-replicate-none n i h

module _ (x : External) (sound : IsSound x) (p : Ptr) (s : System) where
  abbrev render_id : Bytes
  render_id = ids x s.renders.heap p

  module _ (known : get_render_request (s.renders.heap p).id s.renders ≡ some p)
      (untracked : lookup bytes_discrete render_id s.render_progress ≡ none) (n : ℕ)
      (small : suc n < 2147483648) (inv : Inv x s) where
    added : System
    unfolding queue_frames
    added = record s {
      scheduler = queue_frames render_id p (s.renders.heap p).frames_per_second (suc n) s.scheduler;
    }

    added-Accounted : Accounted x added
    unfolding added missing_at new_progress
    added-Accounted r i = ground (
      arith,
      inv.accounted r i,
      untracked,
      queued-append (ids x s.renders.heap) r i s.pending_jobs
          (frame_jobs p (s.renders.heap p).frames_per_second 0 (suc n)),
      queued-frame_jobs (ids x s.renders.heap) r i p (s.renders.heap p).frames_per_second 0 (suc n),
      lookup-insert bytes_discrete render_id r (new_progress (suc n)) s.render_progress,
      is_missing-replicate (suc n) i,
    )

    new_progress-Tracked : Tracked x s.renders render_id (new_progress (suc n))
    unfolding new_progress
    new_progress-Tracked = record {
      uuid = (s.renders.heap p).id;
      ptr = p;
      parsed = sound.parse_text _;
      found = known;
      size = length-replicate (suc n) none ∙ omega arith;
      small = omega arith;
      counted = omega (arith, count_missing-replicate (suc n));
      unfinished = omega arith;
      named = λ i l e. absurd (get_elem?-replicate-none (suc n) i e);
    }

    added-Inv : Inv x added
    unfolding added queue_frames
    added-Inv = record {
      unique = inv.unique;
      fresh = inv.fresh;
      accounted = added-Accounted;
      tracked = λ r q e.
          elim (lookup-insert_cases bytes_discrete render_id r (new_progress (suc n)) q
            s.render_progress e) [
              | inl (same_id, same_progress) ↦
                  subst₂ (Tracked x s.renders) same_id same_progress new_progress-Tracked
              | inr old ↦ inv.tracked r q old
            ];
    }

-- A submission keeps the invariant, if the render is in the history under its id and no render of
-- that id has frames to come.
pub add_job-Inv :
    (x : External)
    → IsSound x
    → (p : Ptr) (s : System) → get_render_request (s.renders.heap p).id s.renders ≡ some p
    → lookup bytes_discrete (ids x s.renders.heap p) s.render_progress ≡ none
    → IsInt (s.renders.heap p).animation_runtime
    → Inv x s
    → Inv x (add_job x p s)
unfolding add_job
add_job-Inv x sound p s known untracked range inv =
    by_runtime (s.renders.heap p).animation_runtime range
  where
    by_runtime :
        (runtime : ℤ)
        → IsInt runtime
        → Inv x (record s {
          scheduler =
              add_frames
                (ids x s.renders.heap p)
                p
                (s.renders.heap p).frames_per_second
                runtime
                s.scheduler;
        })
    by_runtime (negsuc n) range = inv
    by_runtime (pos zero) range = inv
    by_runtime (pos (suc n)) range =
        unfold added in added-Inv x sound p s known untracked n range inv

-- A submission touches neither the dispatch threads nor their jobs, nor the workers.
pub record OnlyQueues (s t : System) : Type 0 where
  pub same_renders : t.renders ≡ s.renders
  pub same_ids : t.ids_minted ≡ s.ids_minted
  pub same_threads : t.dispatch_threads ≡ s.dispatch_threads
  pub same_map : t.worker_job_to_render_id ≡ s.worker_job_to_render_id
  pub same_workers : t.workers ≡ s.workers

pub add_job-OnlyQueues : (x : External) (p : Ptr) (s : System) → OnlyQueues s (add_job x p s)
unfolding add_job
add_job-OnlyQueues x p s = by_runtime (s.renders.heap p).animation_runtime
  where
    same : Scheduler → Type 0
    same t = OnlyQueues s (record s { scheduler = t })

    by_runtime :
        (runtime : ℤ)
        → same (
            add_frames
              (ids x s.renders.heap p)
              p
              (s.renders.heap p).frames_per_second
              runtime
              s.scheduler)
    by_runtime (negsuc n) = record {
      same_renders = refl;
      same_ids = refl;
      same_threads = refl;
      same_map = refl;
      same_workers = refl;
    }
    by_runtime (pos zero) = record {
      same_renders = refl;
      same_ids = refl;
      same_threads = refl;
      same_map = refl;
      same_workers = refl;
    }
    by_runtime (pos (suc n)) = record {
      same_renders = refl;
      same_ids = refl;
      same_threads = refl;
      same_map = refl;
      same_workers = refl;
    }
