-- ===== src/Client/Registration.antt =====
-- A worker that starts and shuts down beside a scheduler.
use pathological_v.Prelude.{
  ℕ, ◌≡◌, refl, Bytes, bytes_discrete, Option, none, some, ite, ◌↔◌, arith,
}
use pathological_v.Prelude.Int.{pos}
use pathological_v.Prelude.Result.{Result, ok, throws}
use pathological_v.Scheduler.{WorkerStatus, idle, offline, System, External}
use pathological_v.Scheduler.Workers.Status.{status_of}
use pathological_v.Server
use pathological_v.Server.{RegistrationStatus, ServerResponse, unknown, reconnected, rejected}
use pathological_v.Server.Statuses.{
  registration, establish_connection_statuses, disconnect_statuses,
}
use pathological_v.Client.{
  WorkerConnection, served, SchedulerClient, set_members, on_status, on_response, unless_failed,
  establish_connection, disconnect, launch,
}

registration-accepted :
    (o : Option WorkerStatus) (c : SchedulerClient)
    → on_status (registration o) (some c.worker_id) c ≡ (c, pos 0)
registration-accepted none c = refl
registration-accepted (some st) c = refl

module _ (x : External) (id ip : Bytes) (port : ℕ) (c : SchedulerClient) (s : System) where
  abbrev members : SchedulerClient
  members = record { worker_id = id; worker_ip = ip; port = port }

  launch-served :
      launch (served x) id ip port c s
      ≡ ((Server.establish_connection id ip port s).0, some members)
  unfolding launch establish_connection served set_members
  launch-served =
      let (statuses, response) = establish_connection_statuses id ip port s in
      rw (response, registration-accepted (status_of id s.workers) members) refl

  -- A worker that reaches the scheduler is not turned away and runs under the id that it asked for;
  -- the scheduler has it as idle. When it shuts down, the scheduler has it as offline. Both leave
  -- the status of every other worker.
  pub launch-disconnect :
      ((launch (served x) id ip port c s).1 ≡ some members)
      × ((j : Bytes)
          → status_of j (launch (served x) id ip port c s).0.workers
            ≡ ite (bytes_discrete id j) (some idle) (status_of j s.workers))
      × ((j : Bytes)
          → status_of j (disconnect (served x) members (launch (served x) id ip port c s).0).workers
            ≡ ite (bytes_discrete id j) (some offline) (status_of j s.workers))
  unfolding disconnect served
  launch-disconnect =
      let (idle_now, response) = establish_connection_statuses id ip port s in
      let (offline_now, answer) =
        disconnect_statuses id (Server.establish_connection id ip port s).0 in
      rw launch-served (refl, idle_now, λ j. ground (arith, offline_now j, idle_now j))

-- A call that failed, or was answered by `REJECTED`.
abbrev pub IsTurnedAway : Result ServerResponse → Type 0
IsTurnedAway (throws e) = Unit
IsTurnedAway (ok r) = r.status ≡ rejected

unless_failed-IsTurnedAway :
    (r : Result ServerResponse) (c : SchedulerClient)
    → (unless_failed (on_response r c) ≡ none) ↔ IsTurnedAway r
unless_failed-IsTurnedAway (throws e) c = (λ _. tt, λ _. refl)
unless_failed-IsTurnedAway (ok r) c = go r.status r.assigned_id
  where
    go :
        (st : RegistrationStatus) (o : Option Bytes)
        → (unless_failed (on_status st o c) ≡ none) ↔ (st ≡ rejected)
    go RegistrationStatus.ok o = (λ e. cc, λ e. cc)
    go reconnected o = (λ e. cc, λ e. cc)
    go rejected o = (λ e. refl, λ e. refl)
    go unknown o = (λ e. cc, λ e. cc)

-- Whatever the scheduler is, a worker exits after its registration exactly when the call failed or was
-- answered by `REJECTED`; it has made the one call with its own id, address and port.
pub launch-exits :
    {S : Type 0} (stub : WorkerConnection S) (id ip : Bytes) (port : ℕ) (c : SchedulerClient)
    (s : S)
    → let call =
        stub.establish_connection (record { worker_ip = ip; worker_id = id; port = port }) s in
      ((launch stub id ip port c s).0 ≡ call.0)
      × (((launch stub id ip port c s).1 ≡ none) ↔ IsTurnedAway call.1)
unfolding launch establish_connection set_members
launch-exits stub id ip port c s = (refl, unless_failed-IsTurnedAway _ _)
