-- ===== src/Scheduler/Jobs.antt =====
-- `Scheduler::addJob`: one `FrameJob` for each frame of the animation, behind those that wait.
pub mod Queue
use pathological_v.Prelude.{
  ℕ, zero, suc, ◌+◌, ◌≡◌, refl, Bytes, bytes_discrete, Option, none, some, List, [], ◌∷◌, ◌++◌, u32,
  replicate,
}
use pathological_v.Prelude.Assoc.{insert}
use pathological_v.Prelude.Int.{ℤ, pos, negsuc}
use pathological_v.Render.{RenderRequest}
use pathological_v.Render.History.{Ptr}
use pathological_v.Scheduler.{
  Float, of_int, div, FrameJob, RenderProgress, Scheduler, System, External,
}

-- The time of frame `i`: seconds at a positive frame rate.
unfoldable pub frame_time : ℤ → ℕ → Float
frame_time (pos zero) i = of_int (pos i)
frame_time (pos (suc fps)) i = div (of_int (pos i)) (of_int (pos (suc fps)))
frame_time (negsuc _) i = of_int (pos i)

-- The loop: the frames from `i` on, `left` of them.
unfoldable pub frame_jobs : Ptr → ℤ → ℕ → ℕ → List FrameJob
unfolding frame_time
frame_jobs p fps i zero = []
frame_jobs p fps i (suc left) =
    record { render_request = p; frame_index = u32 i; time = frame_time fps i }
    ∷ frame_jobs p fps (i + 1) left

unfoldable pub new_progress : ℕ → RenderProgress
new_progress total = record {
  total_frames = u32 total;
  frames_completed = 0;
  frame_links = replicate total none;
}

unfoldable pub queue_frames : Bytes → Ptr → ℤ → ℕ → Scheduler → Scheduler
unfolding insert bytes_discrete frame_jobs new_progress
queue_frames render_id p fps total s = record s {
  render_progress = insert bytes_discrete render_id (new_progress total) s.render_progress;
  pending_jobs = s.pending_jobs ++ frame_jobs p fps 0 total;
}

-- A render with no frames is left out.
unfoldable pub add_frames : Bytes → Ptr → ℤ → ℤ → Scheduler → Scheduler
unfolding queue_frames
add_frames render_id p fps (negsuc _) s = s
add_frames render_id p fps (pos zero) s = s
add_frames render_id p fps (pos (suc n)) s = queue_frames render_id p fps (suc n) s

unfoldable pub add_job : External → Ptr → System → System
unfolding add_frames
add_job x p s = record s {
  scheduler =
      add_frames (x.uuid_text job.id) p job.frames_per_second job.animation_runtime s.scheduler;
}
  where
    job : RenderRequest
    job = s.renders.heap p
