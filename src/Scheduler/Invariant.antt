-- ===== src/Scheduler/Invariant.antt =====
-- What holds of the scheduler between two of its critical sections.
pub mod Renders
pub mod Add
pub mod Assign
pub mod Fail
pub mod Complete
pub mod Threads
use pathological_v.Prelude.{
  ℕ, ◌+◌, ◌≤◌, ◌<◌, ◌≡◌, Bytes, bytes_discrete, Option, none, some, ◌⊎◌, length, get_elem?,
}
use pathological_v.Prelude.Assoc.{lookup, Unique}
use pathological_v.Render.{Uuid}
use pathological_v.Render.History.{Ptr, RenderHistory, get_render_request}
use pathological_v.Scheduler.{
  RenderProgress, FrameJobContext, Dispatch, Scheduler, System, External,
}
use pathological_v.Scheduler.Complete.{build_download_link, frame_key}
use pathological_v.Scheduler.Frames.{ids, queued, in_flight, missing_at, count_missing}

-- The progress `p` of the render with id `r`, before its last frame: the render is in the history,
-- the counter agrees with the links, and a link that is there is the one of its own frame.
pub record Tracked (x : External) (h : RenderHistory) (r : Bytes) (p : RenderProgress)
    : Type 0 where
  pub uuid : Uuid
  pub ptr : Ptr
  pub parsed : x.uuid_parse r ≡ some uuid
  pub found : get_render_request uuid h ≡ some ptr
  pub size : length p.frame_links ≡ p.total_frames
  pub small : p.total_frames < 2147483648
  pub counted : p.frames_completed + count_missing p.frame_links ≡ p.total_frames
  pub unfinished : p.frames_completed < p.total_frames
  pub named :
      (i : ℕ) (l : Bytes)
      → get_elem? p.frame_links i ≡ some (some l)
      → l ≡ build_download_link x (frame_key (h.heap ptr).output_file_name i)

-- No frame is in two places.
abbrev pub Accounted : External → System → Type 0
Accounted x s =
    (r : Bytes) (i : ℕ)
    → queued (ids x s.renders.heap) r i s.pending_jobs + in_flight r i s.worker_job_to_render_id
      ≡ missing_at i (lookup bytes_discrete r s.render_progress)

-- The job ids that are still to come are not in use.
abbrev pub Fresh : External → Scheduler → Type 0
Fresh x s =
    (m : ℕ)
    → s.ids_minted ≤ m
    → lookup bytes_discrete (x.uuid_text (x.job_uuid m)) s.worker_job_to_render_id ≡ none

pub record Inv (x : External) (s : System) : Type 0 where
  pub unique : Unique bytes_discrete s.worker_job_to_render_id
  pub fresh : Fresh x s.scheduler
  pub accounted : Accounted x s
  pub tracked :
      (r : Bytes) (p : RenderProgress)
      → lookup bytes_discrete r s.render_progress ≡ some p
      → Tracked x s.renders r p

-- What the map says of the job of a dispatch thread.
abbrev pub context : External → System → Dispatch → FrameJobContext
context x s d = record {
  render_id = ids x s.renders.heap d.frame_job.render_request;
  frame_index = d.frame_job.frame_index;
}

-- The id of a dispatch thread was minted, and names the thread's own frame or nothing any more.
pub record IsRegistered (x : External) (s : System) (d : Dispatch) : Type 0 where
  pub number : ℕ
  pub minted : number < s.ids_minted
  pub named : d.job_id ≡ x.uuid_text (x.job_uuid number)
  pub entry :
      (lookup bytes_discrete d.job_id s.worker_job_to_render_id ≡ none)
      ⊎ (lookup bytes_discrete d.job_id s.worker_job_to_render_id ≡ some (context x s d))

abbrev pub Threads : External → System → Type 0
Threads x s = (k : ℕ) (d : Dispatch) → get_elem? s.dispatch_threads k ≡ some d → IsRegistered x s d
