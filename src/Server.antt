-- ===== src/Server.antt =====
-- The gRPC service that the workers call (scheduler/src/scheduler_server.hpp,
-- scheduler_server.cpp; the messages are those of protos/scheduler_server.proto).
pub mod Statuses
use pathological_v.Prelude.{ℕ, ◌≡◌, Bytes, codes, Bool, Option, none, some, get_elem?, List}
use mathlib.Core.Option
use pathological_v.Prelude.Result.{Result}
use pathological_v.Scheduler.{Worker, System, External}
use pathological_v.Scheduler.Workers.{
  find_worker_by_id, register_worker, reconnect_worker, mark_worker_offline, mark_worker_idle,
}
use pathological_v.Scheduler.Complete.{mark_render_completed}

pub data RegistrationStatus : Type 0 where
  unknown ok reconnected rejected : RegistrationStatus

pub record ServerResponse : Type 0 where
  pub status : RegistrationStatus
  pub assigned_id : Option Bytes

abbrev pub answer : RegistrationStatus → ServerResponse
answer status = record { status = status; assigned_id = none }

-- `existing->id`
unfoldable pub id_at : ℕ → List Worker → Option Bytes
id_at i ws = Option.map (λ w. w.id) (get_elem? ws i)

unfoldable pub establish_connection : Bytes → Bytes → ℕ → System → System × ServerResponse
unfolding find_worker_by_id register_worker reconnect_worker id_at
establish_connection id ip port s = elim (find_worker_by_id id s.workers) [
  | none ↦ (
    record s { scheduler = register_worker id ip port s.scheduler },
    record { status = ok; assigned_id = some id },
  )
  | some i ↦
      let s' : System = record s { scheduler = reconnect_worker id s.scheduler } in
      (s', record { status = reconnected; assigned_id = id_at i s'.workers })
]

unfoldable pub heartbeat : Bytes → System → System × ServerResponse
unfolding find_worker_by_id
heartbeat id s = elim (find_worker_by_id id s.workers) [
  | none ↦ (s, answer unknown)
  | some i ↦ (s, answer ok)
]

abbrev pub free_worker : Bytes → System × Result Bool → System × Result ServerResponse
free_worker worker_id (s, Result.throws e) = (s, Result.throws e)
free_worker worker_id (s, Result.ok done) =
    (record s { scheduler = mark_worker_idle worker_id s.scheduler }, Result.ok (answer ok))

unfoldable pub job_completed : External → Bytes → Bytes → System → System × Result ServerResponse
unfolding find_worker_by_id mark_worker_idle
job_completed x worker_id job_id s = elim (find_worker_by_id worker_id s.workers) [
  | none ↦ (s, Result.ok (answer unknown))
  | some i ↦ free_worker worker_id (mark_render_completed x job_id s)
]

unfoldable pub disconnect : Bytes → System → System × ServerResponse
unfolding find_worker_by_id mark_worker_offline
disconnect id s = elim (find_worker_by_id id s.workers) [
  | none ↦ (s, answer unknown)
  | some i ↦ (record s { scheduler = mark_worker_offline id s.scheduler }, answer ok)
]
