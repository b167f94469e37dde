-- ===== src/Server/Statuses.antt =====
-- What the calls of a worker do to the statuses in the worker list, and what they answer.
use pathological_v.Prelude.{
  ℕ, ◌≡◌, refl, ◌∙◌, sym, ap, Bytes, bytes_discrete, Option, none, some, inl, inr, ite, arith,
  get_elem?, List, [], ◌∷◌, Option-cases,
}
use mathlib.Core.Option
use pathological_v.Scheduler.{WorkerStatus, idle, offline, Worker, System}
use pathological_v.Scheduler.Workers.{find_worker_by_id, mark}
use pathological_v.Scheduler.Workers.Status.{
  status_of, status_of-mark, ids_of, ids_of-mark, find_worker_by_id-none, find_worker_by_id-some,
  register-status_of,
}
use pathological_v.Server.{
  RegistrationStatus, ServerResponse, unknown, reconnected, answer, id_at, establish_connection,
  disconnect,
}

-- `OK` for a worker that is in the list, `UNKNOWN` for any other.
abbrev pub recognised : Option WorkerStatus → RegistrationStatus
recognised none = unknown
recognised (some st) = RegistrationStatus.ok

-- `OK` for a new worker, `RECONNECTED` for one that is in the list.
abbrev pub registration : Option WorkerStatus → RegistrationStatus
registration none = RegistrationStatus.ok
registration (some st) = reconnected

-- A pointer into the list still finds the id after a change of statuses.
id_at-ids_of : (i : ℕ) (ws : List Worker) → id_at i ws ≡ get_elem? (ids_of ws) i
unfolding id_at
id_at-ids_of i [] = refl
id_at-ids_of ℕ.zero (w ∷ ws) = refl
id_at-ids_of (ℕ.suc i) (w ∷ ws) = id_at-ids_of i ws

id_at-mark :
    (i : ℕ) (st : WorkerStatus) (id : Bytes) (w : Worker) (ws : List Worker)
    → get_elem? ws i ≡ some w
    → w.id ≡ id
    → id_at i (mark st id ws) ≡ some id
unfolding id_at
id_at-mark i st id w ws there same =
    id_at-ids_of i (mark st id ws)
    ∙ ap (λ js. get_elem? js i) (ids_of-mark st id ws)
    ∙ sym (id_at-ids_of i ws)
    ∙ ground (arith, there, same)

abbrev pub answer_for : RegistrationStatus → Option Bytes → ServerResponse
answer_for status id = record { status = status; assigned_id = id }

module _ (id ip : Bytes) (port : ℕ) (s : System) where
  -- A worker that connects is idle afterwards, whether it was known or not; every other worker
  -- keeps its status; the answer tells a new worker from a known one and gives the id back.
  pub establish_connection_statuses :
      ((j : Bytes)
        → status_of j (establish_connection id ip port s).0.workers
          ≡ ite (bytes_discrete id j) (some idle) (status_of j s.workers))
      × ((establish_connection id ip port s).1
          ≡ record { status = registration (status_of id s.workers); assigned_id = some id })
  unfolding establish_connection mark
  establish_connection_statuses = elim (Option-cases (find_worker_by_id id s.workers)) [
    | inl new ↦
        let absent = find_worker_by_id-none id s.workers new in
        rw (new, establish_connection, absent)
          (λ j. register-status_of id j _ s.workers refl absent, refl)
    | inr (i, known) ↦
        let (w, there, same, status) = find_worker_by_id-some id s.workers i known in
        rw (known, establish_connection, status)
          (
            λ j. ground (arith, status_of-mark idle id j s.workers, status),
            ap (answer_for reconnected) (id_at-mark i idle id w s.workers there same),
          )
  ]

-- A worker that disconnects is offline afterwards, if it was in the list; every other worker keeps
-- its status.
pub disconnect_statuses :
    (id : Bytes) (s : System)
    → ((j : Bytes)
        → status_of j (disconnect id s).0.workers
          ≡ ite
              (bytes_discrete id j)
              (Option.map (λ _. offline) (status_of j s.workers))
              (status_of j s.workers))
      × ((disconnect id s).1 ≡ answer (recognised (status_of id s.workers)))
unfolding disconnect
disconnect_statuses id s = elim (Option-cases (find_worker_by_id id s.workers)) [
  | inl new ↦
      let absent = find_worker_by_id-none id s.workers new in
      rw (new, disconnect, absent) (λ j. ground (arith, absent), refl)
  | inr (i, known) ↦
      let (w, there, same, status) = find_worker_by_id-some id s.workers i known in
      rw (known, disconnect, status) (λ j. status_of-mark offline id j s.workers, refl)
]
