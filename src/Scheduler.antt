-- ===== src/Scheduler.antt =====
-- The scheduler's state (scheduler/src/scheduler.hpp, worker.hpp) and what it takes from outside.
-- One `System` holds the two singletons that the handlers share, `Scheduler` and `RenderHistory`.
pub mod Workers
pub mod Jobs
pub mod Assign
pub mod Complete
pub mod RunLoop
pub mod Frames
pub mod Invariant
use pathological_v.Prelude.{
  ℕ, ◌≡◌, Bytes, codes, Bool, true, false, Option, none, some, List, [], ◌∷◌, ◌++◌,
}
use pathological_v.Prelude.Int.{ℤ}
use pathological_v.Render.{Uuid}
use pathological_v.Render.History.{Ptr, RenderHistory}

pub data WorkerStatus : Type 0 where
  idle busy offline : WorkerStatus

pub record Worker : Type 0 where
  pub id : Bytes
  pub ip : Bytes
  pub port : ℕ
  pub status : WorkerStatus

-- A `float`, kept as the operations on `int` that compute it: nothing here depends on its rounding.
pub data Float : Type 0 where
  of_int : ℤ → Float
  div : Float → Float → Float

pub record FrameJob : Type 0 where
  pub render_request : Ptr
  pub frame_index : ℕ
  pub time : Float

pub record FrameJobContext : Type 0 where
  pub render_id : Bytes
  pub frame_index : ℕ

pub record RenderProgress : Type 0 where
  pub total_frames : ℕ
  pub frames_completed : ℕ
  pub frame_links : List (Option Bytes)

-- A dispatch thread that waits for its `RenderJob` call, with the variables that it captured.
pub record Dispatch : Type 0 where
  pub worker_id : Bytes
  pub worker_address : Bytes
  pub frame_job : FrameJob
  pub job_id : Bytes

-- The front of the queue is the head of `pending_jobs`. `ids_minted` counts the calls of the
-- generator of job ids.
pub record Scheduler : Type 0 where
  pub pending_jobs : List FrameJob
  pub workers : List Worker
  pub worker_job_to_render_id : List (Bytes × FrameJobContext)
  pub render_progress : List (Bytes × RenderProgress)
  pub ids_minted : ℕ
  pub dispatch_threads : List Dispatch

pub record System : Type 0 where
  pub scheduler : Scheduler
  pub open scheduler use *
  pub renders : RenderHistory

-- Boost's uuids and their texts, with what its exception says of a text that is no uuid, the
-- generator of job ids, and what the AWS client gives `S3Manager::createLink`: a presigned link for a
-- key, empty where none could be made.
pub record External : Type 0 where
  pub uuid_text : Uuid → Bytes
  pub uuid_parse : Bytes → Option Uuid
  pub job_uuid : ℕ → Uuid
  pub parse_error : Bytes → Bytes
  pub presign : Bytes → Bytes
  pub bucket_name : Bytes

-- What the code relies on: a text is read back as the uuid that it was made of, and the generator
-- of job ids gives no uuid twice.
pub record IsSound (x : External) : Type 0 where
  pub parse_text : (u : Uuid) → x.uuid_parse (x.uuid_text u) ≡ some u
  pub job_uuid_fresh : (m n : ℕ) → x.job_uuid m ≡ x.job_uuid n → m ≡ n
