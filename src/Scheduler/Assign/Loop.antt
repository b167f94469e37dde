-- ===== src/Scheduler/Assign/Loop.antt =====
-- The loop of `assignJobs`: a rule for what its rounds keep, and how far it goes.
use pathological_v.Prelude.{ℕ, ◌≡◌, refl, some, inl, inr, get_elem?, List, [], ◌∷◌, Option-cases}
use pathological_v.Scheduler.{idle, Worker, FrameJob, System, External}
use pathological_v.Scheduler.Workers.{find_idle_worker}
use pathological_v.Scheduler.Workers.Find.{find_idle_worker-is_idle}
use pathological_v.Scheduler.Assign.{assign_one, assign_at, assign_loop, assign_jobs}

module _ {ℓ} (x : External) (P : System → Type ℓ)
    (keep : (j : FrameJob) (rest : List FrameJob) (i : ℕ) (w : Worker) (s : System)
      → s.pending_jobs ≡ j ∷ rest
      → find_idle_worker s.workers ≡ some i
      → get_elem? s.workers i ≡ some w
      → w.status ≡ idle
      → P s
      → P (assign_one x j rest i w s)) where
  assign_loop_inv :
      (q : List FrameJob) (s : System) → s.pending_jobs ≡ q → P s → P (assign_loop x q s)
  unfolding assign_loop assign_at assign_one
  assign_loop_inv [] s e h = h
  assign_loop_inv (j ∷ rest) s e h = elim (Option-cases (find_idle_worker s.workers)) [
    | inl none_idle ↦ rw (none_idle, assign_loop) h
    | inr (i, found) ↦
        let (w, there, free) = find_idle_worker-is_idle s.workers i found in
        rw (found, assign_loop, there)
          (assign_loop_inv rest (assign_at x j rest i (some w) s) refl
            (keep j rest i w s e found there free h))
  ]

  -- What each round keeps, `assignJobs` keeps.
  pub assign_jobs_inv : (s : System) → P s → P (assign_jobs x s)
  unfolding assign_jobs
  assign_jobs_inv s h = assign_loop_inv s.pending_jobs s refl h
