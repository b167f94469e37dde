-- ===== src/Scheduler/Workers/Status.antt =====
-- The status of a worker by its id, and the ids of the list.
use pathological_v.Prelude.{
  ℕ, zero, suc, ◌≡◌, ◌≢◌, refl, sym, ap, Bytes, bytes_discrete, Option, none, some, inl, inr, ite,
  arith, get_elem?, List, [], ◌∷◌, ◌++◌, map, Option-cases,
}
use mathlib.Core.Option
use pathological_v.Scheduler.{WorkerStatus, Worker}
use pathological_v.Scheduler.Workers.{find_worker_by_id, write_status, mark}

-- The status that a search by id comes upon.
pub status_of : Bytes → List Worker → Option WorkerStatus
status_of id [] = none
status_of id (w ∷ ws) = ite (bytes_discrete w.id id) (some w.status) (status_of id ws)

abbrev pub ids_of : List Worker → List Bytes
ids_of = map (λ w. w.id)

-- `mark` reads as a walk along the list.
mark-cons :
    (st : WorkerStatus) (id : Bytes) (w : Worker) (ws : List Worker)
    → mark st id (w ∷ ws)
      ≡ ite (bytes_discrete w.id id) (record w { status = st } ∷ ws) (w ∷ mark st id ws)
unfolding mark
mark-cons st id w ws = elim (Option-cases (find_worker_by_id id ws)) [
  | inl e ↦ ground arith
  | inr (i, e) ↦ ground arith
]

-- Only the status of the named worker changes.
pub status_of-mark :
    (st : WorkerStatus) (id j : Bytes) (ws : List Worker)
    → status_of j (mark st id ws)
      ≡ ite (bytes_discrete id j) (Option.map (λ _. st) (status_of j ws)) (status_of j ws)
unfolding status_of
status_of-mark st id j [] = unfold mark in ground arith
status_of-mark st id j (w ∷ ws) = ground (arith, mark-cons st id w ws, status_of-mark st id j ws)

pub ids_of-mark :
    (st : WorkerStatus) (id : Bytes) (ws : List Worker) → ids_of (mark st id ws) ≡ ids_of ws
ids_of-mark st id [] = unfold mark in refl
ids_of-mark st id (w ∷ ws) = ground (arith, mark-cons st id w ws, ids_of-mark st id ws)

pub ids_of-write_status :
    (i : ℕ) (st : WorkerStatus) (ws : List Worker) → ids_of (write_status i st ws) ≡ ids_of ws
unfolding write_status
ids_of-write_status i st [] = refl
ids_of-write_status zero st (w ∷ ws) = refl
ids_of-write_status (suc i) st (w ∷ ws) = ap (◌∷◌ w.id) (ids_of-write_status i st ws)

-- The search by id finds a worker exactly where there is a status.
pub find_worker_by_id-none :
    (id : Bytes) (ws : List Worker) → find_worker_by_id id ws ≡ none → status_of id ws ≡ none
unfolding find_worker_by_id status_of
find_worker_by_id-none id [] e = refl
find_worker_by_id-none id (w ∷ ws) e = ground (arith, find_worker_by_id-none id ws)

pub find_worker_by_id-some :
    (id : Bytes) (ws : List Worker) (i : ℕ)
    → find_worker_by_id id ws ≡ some i
    → (w : Worker) × (get_elem? ws i ≡ some w) × (w.id ≡ id) × (status_of id ws ≡ some w.status)
unfolding find_worker_by_id status_of
find_worker_by_id-some id [] i e = absurd (cc)
find_worker_by_id-some id (w ∷ ws) i e = elim (bytes_discrete w.id id) [
  | yes hit ↦ (w, ground arith, hit, ground arith)
  | no miss ↦ elim (Option-cases (find_worker_by_id id ws)) [
    | inl none_left ↦ absurd (ground arith)
    | inr (k, found) ↦
        let (v, there, same, status) = find_worker_by_id-some id ws k found in
        (v, ground arith, same, ground arith)
  ]
]

abbrev pub Absent : Bytes → List Bytes → Type 0
Absent id [] = Unit
Absent id (j ∷ js) = (j ≢ id) × Absent id js

abbrev pub Distinct : List Bytes → Type 0
Distinct [] = Unit
Distinct (j ∷ js) = Absent j js × Distinct js

pub find_none-Absent :
    (id : Bytes) (ws : List Worker) → find_worker_by_id id ws ≡ none → Absent id (ids_of ws)
unfolding find_worker_by_id
find_none-Absent id [] e = tt
find_none-Absent id (w ∷ ws) e = elim (bytes_discrete w.id id) [
  | yes hit ↦ absurd (ground arith)
  | no miss ↦ (miss, find_none-Absent id ws (ground arith))
]

append-Absent : (id j : Bytes) (js : List Bytes) → Absent id js → j ≢ id → Absent id (js ++ j ∷ [])
append-Absent id j [] h n = (n, tt)
append-Absent id j (k ∷ js) h n = (h.0, append-Absent id j js h.1 n)

pub append-Distinct :
    (id : Bytes) (js : List Bytes) → Absent id js → Distinct js → Distinct (js ++ id ∷ [])
append-Distinct id [] a d = (tt, tt)
append-Distinct id (k ∷ js) a d =
    (append-Absent k id js d.0 (λ e. a.0 (sym e)), append-Distinct id js a.1 d.1)

pub register-status_of :
    (id j : Bytes) (w : Worker) (ws : List Worker)
    → w.id ≡ id
    → status_of id ws ≡ none
    → status_of j (ws ++ w ∷ []) ≡ ite (bytes_discrete id j) (some w.status) (status_of j ws)
unfolding status_of
register-status_of id j w [] same e = ground arith
register-status_of id j w (v ∷ ws) same e = ground (arith, register-status_of id j w ws)
