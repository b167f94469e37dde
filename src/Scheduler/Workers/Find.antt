-- ===== src/Scheduler/Workers/Find.antt =====
-- What the two searches of the worker list find, and what a write through their result changes.
use mathlib.Core.Option
use pathological_v.Prelude.{
  ℕ, suc, ◌≡◌, refl, Option, none, some, ◌⊎◌, inl, inr, get_elem?, List, [], ◌∷◌,
}
use pathological_v.Scheduler.{WorkerStatus, idle, busy, offline, Worker}
use pathological_v.Scheduler.Workers.{is_idle, find_idle_worker}

-- The position at the head, or behind it.
pub is_idle_cases :
    (st : WorkerStatus) (o : Option ℕ) (i : ℕ)
    → is_idle st (Option.map suc o) ≡ some i
    → ((st ≡ idle) × (i ≡ 0)) ⊎ ((k : ℕ) × (o ≡ some k) × (i ≡ suc k))
unfolding is_idle
is_idle_cases idle o i e = inl (refl, cc)
is_idle_cases busy none i e = cc
is_idle_cases busy (some k) i e = inr (k, refl, cc)
is_idle_cases offline none i e = cc
is_idle_cases offline (some k) i e = inr (k, refl, cc)

-- The worker that is found is idle.
pub find_idle_worker-is_idle :
    (ws : List Worker) (i : ℕ)
    → find_idle_worker ws ≡ some i
    → (w : Worker) × (get_elem? ws i ≡ some w) × (w.status ≡ idle)
unfolding find_idle_worker
find_idle_worker-is_idle [] i e = cc
find_idle_worker-is_idle (w ∷ ws) i e = elim (is_idle_cases w.status (find_idle_worker ws) i e) [
  | inl (at_head, zero_pos) ↦ (w, rw zero_pos refl, at_head)
  | inr (k, found, next) ↦
      let (v, there, status) = find_idle_worker-is_idle ws k found in (v, rw next there, status)
]
