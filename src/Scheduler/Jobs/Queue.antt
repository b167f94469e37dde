-- ===== src/Scheduler/Jobs/Queue.antt =====
-- The frames that a submission queues.
use mathlib.Core.Path.{ap₂}
use pathological_v.Prelude.{
  ℕ, zero, suc, ◌+◌, ◌≤◌, ◌<◌, ◌≡◌, refl, ◌∙◌, sym, ap, some, arith, u32, get_elem?, length, List,
  [], ◌++◌, append-nil, Bytes,
}
use pathological_v.Prelude.Int.{ℤ, pos, negsuc}
use pathological_v.Render.History.{Ptr}
use pathological_v.Scheduler.{FrameJob, Scheduler, System, External}
use pathological_v.Scheduler.Invariant.Add.{IsInt}
use pathological_v.Scheduler.Jobs.{frame_time, frame_jobs, add_frames, add_job}

length-frame_jobs : (p : Ptr) (fps : ℤ) (k n : ℕ) → length (frame_jobs p fps k n) ≡ n
unfolding frame_jobs
length-frame_jobs p fps k zero = refl
length-frame_jobs p fps k (suc n) = ap suc (length-frame_jobs p fps (k + 1) n)

get_elem?-frame_jobs :
    (p : Ptr) (fps : ℤ) (k n i : ℕ)
    → k + n ≤ 4294967296
    → i < n
    → get_elem? (frame_jobs p fps k n) i
      ≡ some (record { render_request = p; frame_index = k + i; time = frame_time fps (k + i) })
unfolding frame_jobs
get_elem?-frame_jobs p fps k zero i h lt = absurd (omega arith)
get_elem?-frame_jobs p fps k (suc n) zero h lt =
    let wrap : u32 k ≡ k + 0 = omega arith in
    let same : k ≡ k + 0 = omega arith in
    ap₂ (λ a b. some (record { render_request = p; frame_index = a; time = frame_time fps b })) wrap
      same
get_elem?-frame_jobs p fps k (suc n) (suc i) h lt =
    get_elem?-frame_jobs p fps (k + 1) n i (omega arith) (omega arith)
    ∙ ap (λ a. some (record { render_request = p; frame_index = a; time = frame_time fps a }))
        (omega arith)

-- The frames of a queue, in its order: `n` of them, the `i`-th for frame `i` at its own time.
pub record IsAnimation (p : Ptr) (fps : ℤ) (n : ℕ) (q : List FrameJob) : Type 0 where
  pub size : length q ≡ n
  pub frames :
      (i : ℕ)
      → i < n
      → get_elem? q i
        ≡ some (record { render_request = p; frame_index = i; time = frame_time fps i })

-- How many frames a render has: none at a runtime of zero or below.
abbrev pub frame_count : ℤ → ℕ
frame_count (pos n) = n
frame_count (negsuc n) = 0

pub record Queues (p : Ptr) (fps runtime : ℤ) (s t : Scheduler) : Type 0 where
  pub added : List FrameJob
  pub queue : t.pending_jobs ≡ s.pending_jobs ++ added
  pub animation : IsAnimation p fps (frame_count runtime) added

add_frames-Queues :
    (id : Bytes) (p : Ptr) (fps runtime : ℤ) (s : Scheduler)
    → IsInt runtime
    → Queues p fps runtime s (add_frames id p fps runtime s)
unfolding add_frames
add_frames-Queues id p fps (negsuc n) s range = record {
  added = [];
  queue = sym (append-nil _);
  animation = record { size = refl; frames = λ i lt. absurd (omega arith) };
}
add_frames-Queues id p fps (pos zero) s range = record {
  added = [];
  queue = sym (append-nil _);
  animation = record { size = refl; frames = λ i lt. absurd (omega arith) };
}
add_frames-Queues id p fps (pos (suc n)) s range = record {
  added = frame_jobs p fps 0 (suc n);
  queue = refl;
  animation = record {
    size = length-frame_jobs p fps 0 (suc n);
    frames = λ i lt.
        get_elem?-frame_jobs p fps 0 (suc n) i (omega arith) lt
        ∙ ap (λ a. some (record { render_request = p; frame_index = a; time = frame_time fps a }))
            (omega arith);
  };
}

-- A submission puts behind the queue one job for each frame of the animation, in the order of the
-- frames, each with its index and its time; none at a runtime of zero or below. The runtime is a
-- 32-bit `int`.
pub add_job-Queues :
    (x : External) (p : Ptr) (s : System)
    → IsInt (s.renders.heap p).animation_runtime
    → Queues p
        (s.renders.heap p).frames_per_second
        (s.renders.heap p).animation_runtime
        s.scheduler
        (add_job x p s).scheduler
unfolding add_job
add_job-Queues x p s range = add_frames-Queues _ p _ _ s.scheduler range
