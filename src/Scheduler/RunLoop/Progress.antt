-- ===== src/Scheduler/RunLoop/Progress.antt =====
-- A round of the loop serves the queue, and the loop does not spin.
use pathological_v.Prelude.{
  ◌+◌, ◌<◌, ◌≡◌, refl, ap, inl, inr, ◌⊎◌, arith, true, false, ◌||◌, List, [], ◌∷◌, length,
  length-append,
}
use pathological_v.Scheduler.{WorkerStatus, idle, busy, offline, Worker, FrameJob, System, External}
use pathological_v.Scheduler.Assign.{assign_jobs}
use pathological_v.Scheduler.Assign.Fifo.{count_idle, one_if_idle, assign_jobs-Started}
use pathological_v.Scheduler.RunLoop.{
  has_idle_worker, is_idle_status, has_jobs, is_awaited, waits, assigned, round,
}

has_idle_worker-count :
    (ws : List Worker)
    → ((has_idle_worker ws ≡ true) × (0 < count_idle ws))
      ⊎ ((has_idle_worker ws ≡ false) × (count_idle ws ≡ 0))
unfolding has_idle_worker count_idle
has_idle_worker-count [] = inr (refl, refl)
has_idle_worker-count (w ∷ ws) = go w.status (has_idle_worker-count ws)
  where
    go :
        (st : WorkerStatus)
        → ((has_idle_worker ws ≡ true) × (0 < count_idle ws))
          ⊎ ((has_idle_worker ws ≡ false) × (count_idle ws ≡ 0))
        → (((is_idle_status st || has_idle_worker ws) ≡ true)
            × (0 < one_if_idle st + count_idle ws))
          ⊎ (((is_idle_status st || has_idle_worker ws) ≡ false)
              × (one_if_idle st + count_idle ws ≡ 0))
    go idle known = inl (refl, omega arith)
    go busy (inl (some_idle, many)) = inl (some_idle, omega arith)
    go busy (inr (no_idle, none_idle)) = inr (no_idle, omega arith)
    go offline (inl (some_idle, many)) = inl (some_idle, omega arith)
    go offline (inr (no_idle, none_idle)) = inr (no_idle, omega arith)

has_jobs-length :
    (js : List FrameJob)
    → ((has_jobs js ≡ true) × (0 < length js)) ⊎ ((has_jobs js ≡ false) × (length js ≡ 0))
has_jobs-length [] = inr (refl, refl)
has_jobs-length (j ∷ js) = inl (refl, omega arith)

-- After `assignJobs` the running thread has nothing to go on for.
assign_jobs-rests : (x : External) (s : System) → is_awaited true (assign_jobs x s) ≡ false
unfolding is_awaited
assign_jobs-rests x s =
    let st = assign_jobs-Started x s in
    elim (has_jobs-length (assign_jobs x s).pending_jobs) [
      | inr (no_jobs, empty) ↦ rw no_jobs refl
      | inl (jobs, many) ↦ elim (has_idle_worker-count (assign_jobs x s).workers) [
        | inr (no_idle, none_idle) ↦ rw (jobs, no_idle) refl
        | inl (idle_left, left) ↦ absurd (
            omega (
              arith,
              st.amount,
              st.workers,
              ap length st.queue,
              length-append st.started (assign_jobs x s).pending_jobs,
            ))
      ]
    ]

-- What a round of the running thread does: it waits with no job or no idle worker, or it starts at
-- least one job and then waits.
pub data IsServed (x : External) (s : System) : Type 0 where
  nothing_to_do :
      (round x true s ≡ waits)
      → (length s.pending_jobs ≡ 0) ⊎ (count_idle s.workers ≡ 0)
      → IsServed x s
  served :
      (t : System)
      → round x true s ≡ assigned t
      → length t.pending_jobs < length s.pending_jobs
      → round x true t ≡ waits
      → IsServed x s

awaited-cases :
    (s : System)
    → ((is_awaited true s ≡ true) × (0 < length s.pending_jobs) × (0 < count_idle s.workers))
      ⊎ ((is_awaited true s ≡ false) × ((length s.pending_jobs ≡ 0) ⊎ (count_idle s.workers ≡ 0)))
unfolding is_awaited
awaited-cases s = elim (has_jobs-length s.pending_jobs) [
  | inr (no_jobs, empty) ↦ inr (rw no_jobs refl, inl empty)
  | inl (jobs, many) ↦ elim (has_idle_worker-count s.workers) [
    | inr (no_idle, none_idle) ↦ inr (rw (jobs, no_idle) refl, inr none_idle)
    | inl (idle_left, left) ↦ inl (rw (jobs, idle_left) refl, many, left)
  ]
]

-- One round of the running thread either waits, and then the queue is empty or no worker is idle, or
-- it calls `assignJobs`, which makes the queue shorter and leaves a state in which the next round
-- waits: a round that goes on starts a frame, and the loop does not spin.
pub round_serves : (x : External) (s : System) → IsServed x s
unfolding round
round_serves x s = elim (awaited-cases s) [
  | inr (stuck, why) ↦ nothing_to_do (rw stuck refl) why
  | inl (goes_on, many, left) ↦
      let st = assign_jobs-Started x s in
      served (assign_jobs x s) (rw goes_on refl)
        (omega (
          arith,
          st.amount,
          ap length st.queue,
          length-append st.started (assign_jobs x s).pending_jobs,
        ))
        (rw (assign_jobs-rests x s) refl)
]
