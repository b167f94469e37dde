-- ===== src/Worker.antt =====
-- The render worker's gRPC service and its jobs (render_worker/src/render_server.cpp,
-- render_jobs.cpp, job.hpp, job.cpp).
pub mod Jobs
use pathological_v.Prelude.{
  ℕ, ◌≡◌, Bytes, bytes_discrete, codes, Bool, true, false, Option, none, some, List, [], ◌∷◌, ◌++◌,
}
use pathological_v.Prelude.Assoc.{lookup, insert, erase}
use pathological_v.Prelude.Result.{Result, ok, throws}
use pathological_v.Prelude.Int.{pos}
use pathological_v.Scheduler.{Float}
use pathological_v.Scheduler.Complete.{frame_key}
use pathological_v.S3.{Files, Os, S3Client, get_object, put_object}

-- `render_server::Status`
pub data Status : Type 0 where
  completed in_progress in_queue error : Status

pub record Job : Type 0 where
  pub width : ℕ
  pub height : ℕ
  pub samples : ℕ
  pub gltf_file : Bytes
  pub output : Bytes
  pub time : Float
  pub frame_index : ℕ
  pub status : Status

-- A job object has one owner, the map, once the handler has returned; a null pointer is `none`.
abbrev pub RenderJobs : Type 0
RenderJobs = List (Bytes × Option Job)

unfoldable pub add_job : Bytes → Job → RenderJobs → RenderJobs
unfolding insert bytes_discrete
add_job uuid job jobs = insert bytes_discrete uuid (some job) jobs

-- `jobMap[uuid]` puts a null pointer where there is none; `->` on it is the crash `none`.
unfoldable pub job_at : Bytes → RenderJobs → Option Job
unfolding lookup bytes_discrete
job_at uuid jobs = elim (lookup bytes_discrete uuid jobs) [ none ↦ none | some pointer ↦ pointer ]

unfoldable pub update_job_status : Bytes → Status → RenderJobs → Option RenderJobs
unfolding job_at insert bytes_discrete
update_job_status uuid status jobs = elim (job_at uuid jobs) [
  | none ↦ none
  | some job ↦ some (insert bytes_discrete uuid (some (record job { status = status })) jobs)
]

unfoldable pub fetch_job_status : Bytes → RenderJobs → Option Status
unfolding job_at
fetch_job_status uuid jobs = elim (job_at uuid jobs) [ none ↦ none | some job ↦ some job.status ]

-- What the worker takes from outside: the file system, the last part of a path, the path tracer on
-- the GPU with its glTF loader (an image or an exception), and the removal of a file, which may throw.
pub record Machine : Type 0 where
  pub os : Os
  pub filename : Bytes → Bytes
  pub trace : Job → Bytes → Result Bytes
  pub remove_error : Bytes → Option Bytes

pub record WorkerState (B : Type 0) : Type 0 where
  pub jobs : RenderJobs
  pub files : Files
  pub bucket : B

-- Where the scene is downloaded to.
abbrev pub local_gltf_path : Bytes → Bytes
local_gltf_path s3_key = codes "temp_" ++ s3_key

abbrev pub file_at : Bytes → Files → Bytes
file_at path fs = elim (lookup bytes_discrete path fs) [ none ↦ [] | some content ↦ content ]

-- The removal of a file that may be absent.
abbrev pub remove_file : Machine → Bytes → Files → Files × Result (Unit {0})
remove_file m path fs = elim (m.remove_error path) [
  | none ↦ (erase bytes_discrete path fs, ok tt)
  | some e ↦ (fs, throws e)
]

-- `generateScene` after the download of the scene.
abbrev pub trace_scene : Machine → Job → Bytes → Files × Bool → Files × Result (Unit {0})
trace_scene m job path (fs, false) =
    (fs, throws (codes "failed to download scene file from S3: " ++ m.filename job.gltf_file))
trace_scene m job path (fs, true) = elim (m.trace job (file_at path fs)) [
  | throws e ↦ (fs, throws e)
  | ok image ↦ remove_file m path (insert bytes_discrete job.output image fs)
]

unfoldable pub generate_scene :
    {B : Type 0} → S3Client B → Machine → Job → Files → B → Files × Result (Unit {0})
unfolding get_object lookup insert erase bytes_discrete
generate_scene c m job fs b =
    trace_scene m job (local_gltf_path (m.filename job.gltf_file)) (
      get_object c m.os (m.filename job.gltf_file) (local_gltf_path (m.filename job.gltf_file)) b
        fs)

-- The image is uploaded and removed. What `putObject` returns is not looked at.
unfoldable pub upload_image :
    {B : Type 0} → S3Client B → Machine → Job → Files → B → Files × B × Result (Unit {0})
unfolding put_object frame_key erase bytes_discrete
upload_image c m job fs b =
    let stored = put_object c job.output (frame_key job.output job.frame_index) true fs b in
    let removed = remove_file m job.output fs in (removed.0, stored.0, removed.1)

-- What is in the `try` block before the status is set.
abbrev pub upload_traced :
    {B : Type 0}
    → S3Client B
    → Machine
    → Job
    → B
    → Files × Result (Unit {0})
    → Files × B × Result (Unit {0})
upload_traced c m job b (fs, throws e) = (fs, b, throws e)
upload_traced c m job b (fs, ok u) = upload_image c m job fs b

pub data GrpcStatus : Type 0 where
  ok_status : GrpcStatus
  internal : Bytes → GrpcStatus

-- The handler's end: the new state, the job ids that it reported by `JobCompleted`, its status.
pub record Handled (B : Type 0) : Type 0 where
  pub state : WorkerState B
  pub reported : List Bytes
  pub status : GrpcStatus

abbrev pub handled_as :
    {B : Type 0} → Bytes → GrpcStatus → Files → B → Option RenderJobs → Option (Handled B)
handled_as job_id reply fs b none = none
handled_as job_id reply fs b (some jobs) = some (record {
  state = record { jobs = jobs; files = fs; bucket = b };
  reported = job_id ∷ [];
  status = reply;
})

abbrev pub conclude :
    {B : Type 0} → Bytes → RenderJobs → Files × B × Result (Unit {0}) → Option (Handled B)
conclude job_id jobs (fs, b, ok u) =
    handled_as job_id ok_status fs b (update_job_status job_id completed jobs)
conclude job_id jobs (fs, b, throws e) =
    handled_as job_id (internal e) fs b (update_job_status job_id error jobs)

-- `RenderServer::RenderJob`; `job` is what it makes of the request.
unfoldable pub render_job :
    {B : Type 0} → S3Client B → Machine → Bytes → Job → WorkerState B → Option (Handled B)
unfolding add_job generate_scene upload_image update_job_status
render_job c m job_id job w =
    let jobs = add_job job_id job w.jobs in
    conclude job_id jobs (upload_traced c m job w.bucket (generate_scene c m job w.files w.bucket))
