-- ===== src/Client/Frames.antt =====
-- A frame on its way: `RenderWorkerClient` (scheduler/src/render_client.cpp), with which a dispatch thread
-- calls a worker, what the worker makes of the call (render_worker/src/render_server.cpp), and the
-- worker's report back.
pub mod Delivery
use pathological_v.Prelude.{ℕ, ◌≡◌, Bytes, Bool, true, false, Option, none, some, List, [], ◌∷◌}
use pathological_v.Prelude.Int.{ℤ, pos, negsuc, to_u32}
use pathological_v.Prelude.Result.{Result, ok, throws}
use pathological_v.Render.{RenderRequest}
use pathological_v.Scheduler.{Float, Dispatch, Scheduler, System}
use pathological_v.Scheduler.Assign.{dispatch_returns}
use pathological_v.S3.{S3Client}
use pathological_v.Worker.{
  Status, completed, in_progress, in_queue, error, Job, RenderJobs, fetch_job_status, Machine,
  WorkerState, GrpcStatus, ok_status, internal, Handled, render_job,
}
use pathological_v.Client.{Rpc, WorkerConnection, SchedulerClient, job_completed}

pub record RenderJobRequest : Type 0 where
  pub scene_location : Bytes
  pub output_name : Bytes
  pub width : ℕ
  pub height : ℕ
  pub samples : ℕ
  pub time : Float
  pub job_id : Bytes
  pub frame_index : ℕ

-- The request that `RenderWorkerClient::RenderJob` fills in.
unfoldable pub frame_request : RenderRequest → Bytes → ℕ → Float → RenderJobRequest
frame_request render job_id frame_index time = record {
  scene_location = render.scene_file_url;
  output_name = render.output_file_name;
  width = to_u32 render.width;
  height = to_u32 render.height;
  samples = to_u32 render.samples_per_pixel;
  time = time;
  job_id = job_id;
  frame_index = frame_index;
}

abbrev is_ok : {A : Type 0} → Result A → Bool
is_ok (ok a) = true
is_ok (throws e) = false

-- `RenderWorkerClient::RenderJob`; the response is the job's id.
unfoldable pub send_render_job :
    {S : Type 0} → Rpc S RenderJobRequest Bytes → RenderRequest → Bytes → ℕ → Float → S → S × Bool
unfolding frame_request
send_render_job stub render job_id frame_index time s =
    let (s', r) = stub (frame_request render job_id frame_index time) s in (s', is_ok r)

-- The numbers of the enumeration.
abbrev pub status_number : Status → ℕ
status_number completed = 0
status_number in_progress = 1
status_number in_queue = 2
status_number error = 3

abbrev number_of : Result Status → ℤ
number_of (ok status) = pos (status_number status)
number_of (throws e) = negsuc 0

-- `RenderWorkerClient::RenderStatus`
unfoldable pub send_render_status : {S : Type 0} → Rpc S Bytes Status → Bytes → S → S × ℤ
send_render_status stub job s = let (s', r) = stub job s in (s', number_of r)

-- The `Job` that the worker's handler makes.
unfoldable pub make_job : RenderJobRequest → Job
make_job q = record {
  width = q.width;
  height = q.height;
  samples = q.samples;
  gltf_file = q.scene_location;
  output = q.output_name;
  time = q.time;
  frame_index = q.frame_index;
  status = in_progress;
}

unfoldable pub report_all : {S : Type 0} → WorkerConnection S → SchedulerClient → List Bytes → S → S
report_all stub client [] s = s
report_all stub client (j ∷ js) s = report_all stub client js (job_completed stub client j s)

abbrev pub reply : GrpcStatus → Bytes → Result Bytes
reply ok_status job_id = ok job_id
reply (internal e) job_id = throws e

-- A dispatch thread's call to a worker that runs beside the scheduler, with the reports that the
-- worker makes while it serves it, and the thread's end. `none` is a crash of the worker.
unfoldable pub run_dispatch :
    {B : Type 0}
    → S3Client B
    → Machine
    → WorkerConnection System
    → SchedulerClient
    → Dispatch
    → System
    → WorkerState B
    → Option (System × WorkerState B)
unfolding frame_request make_job render_job report_all dispatch_returns
run_dispatch c m stub client d s w =
    let q =
      frame_request (s.renders.heap d.frame_job.render_request) d.job_id d.frame_job.frame_index
        d.frame_job.time in
    elim (render_job c m q.job_id (make_job q) w) [
      | none ↦ none
      | some h ↦
          let reported = report_all stub client h.reported s in
          some (
            record reported {
              scheduler = dispatch_returns d (is_ok (reply h.status q.job_id)) reported.scheduler;
            },
            h.state,
          )
    ]
