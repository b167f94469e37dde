-- ===== src/Client.antt =====
-- `SchedulerClient`, with which a worker calls the scheduler (render_worker/src/scheduler_client.cpp),
-- and its use in the worker's `main` (main.cpp). What they print is left out.
pub mod Registration
pub mod Frames
use pathological_v.Prelude.{ℕ, ◌≡◌, Bytes, Bool, true, false, Option, none, some, List, [], ◌∷◌}
use pathological_v.Prelude.Int.{ℤ, pos, negsuc}
use pathological_v.Prelude.Result.{Result, ok, throws}
use pathological_v.Scheduler.{System, External}
use pathological_v.Server.{RegistrationStatus, ServerResponse, unknown, reconnected, rejected}
use pathological_v.Server

-- A call with a request `Q` and a response `R` at a peer of state `S`: `throws` is a status that is
-- not OK, with its message.
abbrev pub Rpc : Type 0 → Type 0 → Type 0 → Type 0
Rpc S Q R = Q → S → S × Result R

pub record WorkerInfo : Type 0 where
  pub worker_ip : Bytes
  pub worker_id : Bytes
  pub port : ℕ

pub record JobCompletedRequest : Type 0 where
  pub worker_id : Bytes
  pub job_id : Bytes

-- The stub of the service `WorkerConnection`.
pub record WorkerConnection (S : Type 0) : Type 0 where
  pub establish_connection : Rpc S WorkerInfo ServerResponse
  pub heartbeat : Rpc S Bytes ServerResponse
  pub job_completed : Rpc S JobCompletedRequest ServerResponse
  pub disconnect : Rpc S Bytes ServerResponse

abbrev answered : {S R : Type 0} → S × R → S × Result R
answered (s, r) = (s, ok r)

-- A stub whose every call reaches the scheduler.
unfoldable pub served : External → WorkerConnection System
unfolding Server.establish_connection Server.heartbeat Server.job_completed Server.disconnect
served x = record {
  establish_connection =
      λ q s. answered (Server.establish_connection q.worker_id q.worker_ip q.port s);
  heartbeat = λ id s. answered (Server.heartbeat id s);
  job_completed = λ q s. Server.job_completed x q.worker_id q.job_id s;
  disconnect = λ id s. answered (Server.disconnect id s);
}

pub record SchedulerClient : Type 0 where
  pub worker_id : Bytes
  pub worker_ip : Bytes
  pub port : ℕ

unfoldable pub set_members : Bytes → Bytes → ℕ → SchedulerClient → SchedulerClient
set_members worker_id worker_ip port c = record c {
  worker_id = worker_id;
  worker_ip = worker_ip;
  port = port;
}

-- `if (response.has_assigned_id())`
abbrev pub adopt : Option Bytes → SchedulerClient → SchedulerClient
adopt none c = c
adopt (some id) c = record c { worker_id = id }

abbrev pub on_status : RegistrationStatus → Option Bytes → SchedulerClient → SchedulerClient × ℤ
on_status RegistrationStatus.ok id c = (adopt id c, pos 0)
on_status reconnected id c = (c, pos 0)
on_status rejected id c = (c, pos 1)
on_status unknown id c = (c, pos 0)

abbrev pub on_response : Result ServerResponse → SchedulerClient → SchedulerClient × ℤ
on_response (throws e) c = (c, pos 1)
on_response (ok r) c = on_status r.status r.assigned_id c

unfoldable pub establish_connection :
    {S : Type 0} → WorkerConnection S → SchedulerClient → S → S × (SchedulerClient × ℤ)
establish_connection stub c s =
    let (s', r) =
      stub.establish_connection
        (record { worker_ip = c.worker_ip; worker_id = c.worker_id; port = c.port }) s in
    (s', on_response r c)

unfoldable pub heartbeat : {S : Type 0} → WorkerConnection S → SchedulerClient → S → S
heartbeat stub c s = (stub.heartbeat c.worker_id s).0

unfoldable pub job_completed : {S : Type 0} → WorkerConnection S → SchedulerClient → Bytes → S → S
job_completed stub c job_id s =
    (stub.job_completed (record { worker_id = c.worker_id; job_id = job_id }) s).0

unfoldable pub disconnect : {S : Type 0} → WorkerConnection S → SchedulerClient → S → S
disconnect stub c s = (stub.disconnect c.worker_id s).0

-- `if (client.EstablishConnection() == 1)` of the worker's `main`: no client where it exits.
abbrev pub unless_failed : SchedulerClient × ℤ → Option SchedulerClient
unless_failed (c, pos (ℕ.suc ℕ.zero)) = none
unless_failed (c, pos ℕ.zero) = some c
unless_failed (c, pos (ℕ.suc (ℕ.suc n))) = some c
unless_failed (c, negsuc n) = some c

-- The worker's `main` up to its server.
unfoldable pub launch :
    {S : Type 0}
    → WorkerConnection S
    → Bytes
    → Bytes
    → ℕ
    → SchedulerClient
    → S
    → S × Option SchedulerClient
unfolding set_members establish_connection
launch stub worker_id worker_ip port c s =
    let (s', outcome) = establish_connection stub (set_members worker_id worker_ip port c) s in
    (s', unless_failed outcome)
