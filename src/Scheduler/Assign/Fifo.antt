-- ===== src/Scheduler/Assign/Fifo.antt =====
-- How many frames `assignJobs` starts, which, and on which workers.
use pathological_v.Prelude.{
  ℕ, suc, ◌+◌, ◌≡◌, refl, ◌∙◌, sym, ap, Option, none, some, inl, inr, arith, min, List, [], ◌∷◌,
  ◌++◌, Option-cases, map, append_assoc, append-nil, length,
}
use mathlib.Core.Option
use mathlib.Core.List.{map-append}
use pathological_v.Scheduler.{idle, busy, offline, WorkerStatus, Worker, FrameJob, System, External}
use pathological_v.Scheduler.Workers.{find_idle_worker, is_idle, write_status}
use pathological_v.Scheduler.Workers.Find.{find_idle_worker-is_idle, is_idle_cases}
use pathological_v.Scheduler.Assign.{assign_one, assign_at, assign_loop, assign_jobs}

abbrev pub one_if_idle : WorkerStatus → ℕ
one_if_idle idle = 1
one_if_idle busy = 0
one_if_idle offline = 0

unfoldable pub count_idle : List Worker → ℕ
count_idle [] = 0
count_idle (w ∷ ws) = one_if_idle w.status + count_idle ws

no_position :
    (st : WorkerStatus) (o : Option ℕ)
    → is_idle st (Option.map suc o) ≡ none
    → (one_if_idle st ≡ 0) × (o ≡ none)
unfolding is_idle
no_position idle o e = absurd (cc)
no_position busy none e = (refl, refl)
no_position busy (some k) e = absurd (cc)
no_position offline none e = (refl, refl)
no_position offline (some k) e = absurd (cc)

none_idle-count : (ws : List Worker) → find_idle_worker ws ≡ none → count_idle ws ≡ 0
unfolding find_idle_worker count_idle is_idle
none_idle-count [] e = refl
none_idle-count (w ∷ ws) e =
    let (taken, rest) = no_position w.status (find_idle_worker ws) e in
    omega (arith, none_idle-count ws rest)

write_busy-count :
    (ws : List Worker) (i : ℕ)
    → find_idle_worker ws ≡ some i
    → count_idle (write_status i busy ws) + 1 ≡ count_idle ws
unfolding find_idle_worker count_idle write_status
write_busy-count [] i e = absurd (cc)
write_busy-count (w ∷ ws) i e = elim (is_idle_cases w.status (find_idle_worker ws) i e) [
  | inl (at_head, first) ↦ rw (first, at_head) (omega arith)
  | inr (k, found, next) ↦ rw next (omega (arith, write_busy-count ws k found))
]

-- The frames that were started, and what is left.
pub record Started (s t : System) : Type 0 where
  pub started : List FrameJob
  pub queue : s.pending_jobs ≡ started ++ t.pending_jobs
  pub threads :
      map (λ d. d.frame_job) t.dispatch_threads
      ≡ map (λ d. d.frame_job) s.dispatch_threads ++ started
  pub workers : count_idle t.workers + length started ≡ count_idle s.workers
  pub amount : length started ≡ min (length s.pending_jobs) (count_idle s.workers)

assign_loop-Started :
    (x : External) (q : List FrameJob) (s : System)
    → s.pending_jobs ≡ q
    → Started s (assign_loop x q s)
unfolding assign_loop assign_at assign_one
assign_loop-Started x [] s e = record {
  started = [];
  queue = refl;
  threads = sym (append-nil _);
  workers = omega arith;
  amount = omega (arith, ap length e);
}
assign_loop-Started x (j ∷ rest) s e = elim (Option-cases (find_idle_worker s.workers)) [
  | inl none_idle ↦
      rw (none_idle, assign_loop)
        (record {
          started = [];
          queue = refl;
          threads = sym (append-nil _);
          workers = omega arith;
          amount = omega (arith, none_idle-count s.workers none_idle);
        })
  | inr (i, found) ↦
      let (w, there, _) = find_idle_worker-is_idle s.workers i found in
      let later = assign_loop-Started x rest (assign_one x j rest i w s) refl in
      let fewer = write_busy-count s.workers i found in
      rw (found, assign_loop, there)
        (record {
          started = j ∷ later.started;
          queue = e ∙ ap (◌∷◌ j) later.queue;
          threads =
              later.threads
              ∙ ap (λ ts. ts ++ later.started) (map-append _ s.dispatch_threads _)
              ∙ append_assoc _ (j ∷ []) later.started;
          workers = omega (arith, later.workers, fewer);
          amount = omega (arith, later.amount, fewer, ap length e);
        })
]

-- `assignJobs` starts as many frames as the queue has and idle workers allow, from the front of the
-- queue and in its order, one dispatch thread for each; it leaves the rest of the queue, and takes
-- one idle worker for each frame.
pub assign_jobs-Started : (x : External) (s : System) → Started s (assign_jobs x s)
unfolding assign_jobs
assign_jobs-Started x s = assign_loop-Started x s.pending_jobs s refl
