-- ===== src/Tests/Scheduling.antt =====
-- The theorems on the scheduler at concrete states.
use mathlib.Core.Option
use pathological_v.Prelude.{
  true, false, ite, ◌≡◌, refl, Bytes, bytes_discrete, codes, none, some, [], ◌∷◌, arith,
}
use pathological_v.Prelude.Assoc.{lookup}
use pathological_v.Prelude.Int.{pos}
use pathological_v.Scheduler.Invariant.Add.{IsInt}
use pathological_v.Render.History.{Heap, get_render_request}
use pathological_v.Scheduler.{idle, offline, FrameJobContext, Dispatch}
use pathological_v.Scheduler.Jobs.{add_job, frame_time}
use pathological_v.Scheduler.Assign.{assign_jobs}
use pathological_v.Scheduler.Invariant.{Accounted}
use pathological_v.Server.{establish_connection, disconnect, answer}
use pathological_v.Runs.{initial, submit, Reach, start, next, submits, connects, assigns}
use pathological_v.Runs.Good.{Reach-Good, Reach-Accounted}
use pathological_v.Runs.Workers.{DistinctWorkers, Reach-Distinct}
use pathological_v.Runs.Refused.{LandedAndQueued, refused_after_completion}
use pathological_v.Scheduler.Complete.{mark_render_completed, build_download_link, frame_key}
use pathological_v.Scheduler.Complete.Outcome.{
  IsDelivered, mark_render_completed_more, mark_render_completed_last,
}
use pathological_v.Prelude.{ℕ, List, get_elem?, ltb, if◌then◌else◌, ◌<◌, ◌≢◌, ◌↔◌}
use pathological_v.Scheduler.Complete.{all_frames_done}
use pathological_v.Scheduler.Jobs.{new_progress}
use pathological_v.Scheduler.Complete.Recorded.{land_all, recorded, land_all-refines}
use pathological_v.Scheduler.Complete.Repeat.{mark_render_completed_twice}
use pathological_v.Prelude.Result.{ok}
use pathological_v.Scheduler.Assign.Fifo.{Started, assign_jobs-Started}
use pathological_v.Scheduler.Jobs.Queue.{Queues, add_job-Queues}
use pathological_v.Scheduler.Invariant.Fail.{failed}
use pathological_v.Server.Statuses.{
  recognised, registration, establish_connection_statuses, disconnect_statuses,
}
use pathological_v.Scheduler.Workers.Status.{status_of}
use pathological_v.Tests.{
  world, world-IsSound, two_frames, one_frame, submitted, connected, started,
}

Reach-started : (heap : Heap) → IsInt (heap 0).animation_runtime → Reach world heap (started heap)
unfolding initial submit lookup get_render_request
Reach-started heap range =
    next
      (next (next start (submits 0 (initial heap) refl range))
        (connects (codes "w") (codes "host") 80 (submitted heap)))
      (assigns (connected heap))

pub reached : Reach world two_frames (started two_frames)
unfolding two_frames
reached = Reach-started two_frames (omega arith)

reached_one : Reach world one_frame (started one_frame)
unfolding two_frames
reached_one = Reach-started one_frame (omega arith)

Reach-Accounted_example : Accounted world (started two_frames)
Reach-Accounted_example = Reach-Accounted world-IsSound reached

Reach-Distinct_example : DistinctWorkers (started two_frames)
Reach-Distinct_example = Reach-Distinct reached

abbrev pub first_frame : FrameJobContext
first_frame = record { render_id = 1 ∷ []; frame_index = 0 }

abbrev pub first_dispatch : Dispatch
first_dispatch = record {
  worker_id = codes "w";
  worker_address = codes "host:80";
  frame_job = record { render_request = 0; frame_index = 0; time = frame_time (pos 24) 0 };
  job_id = 0 ∷ [];
}

pub first_registered :
    lookup bytes_discrete (0 ∷ []) (started two_frames).worker_job_to_render_id ≡ some first_frame
unfolding lookup assign_jobs establish_connection submit add_job initial two_frames
first_registered = refl

only_registered :
    lookup bytes_discrete (0 ∷ []) (started one_frame).worker_job_to_render_id ≡ some first_frame
unfolding lookup assign_jobs establish_connection submit add_job initial two_frames
only_registered = refl

pub first_progress :
    lookup bytes_discrete (1 ∷ []) (started two_frames).render_progress
    ≡ some (record { total_frames = 2; frames_completed = 0; frame_links = none ∷ none ∷ [] })
unfolding lookup assign_jobs establish_connection submit add_job initial two_frames
first_progress = refl

only_progress :
    lookup bytes_discrete (1 ∷ []) (started one_frame).render_progress
    ≡ some (record { total_frames = 1; frames_completed = 0; frame_links = none ∷ [] })
unfolding lookup assign_jobs establish_connection submit add_job initial two_frames
only_progress = refl

pub first_found : get_render_request 1 (started two_frames).renders ≡ some 0
unfolding lookup assign_jobs establish_connection submit add_job initial two_frames
    get_render_request
first_found = refl

only_found : get_render_request 1 (started one_frame).renders ≡ some 0
unfolding lookup assign_jobs establish_connection submit add_job initial two_frames
    get_render_request
only_found = refl

mark_render_completed_more_example :
    ((mark_render_completed world (0 ∷ []) (started two_frames)).1 ≡ ok true)
    × (lookup bytes_discrete
          (1 ∷ [])
          (mark_render_completed world (0 ∷ []) (started two_frames)).0.render_progress
        ≡ some (record {
          total_frames = 2;
          frames_completed = 1;
          frame_links =
              some (
                build_download_link world
                  (frame_key ((started two_frames).renders.heap 0).output_file_name 0))
              ∷ none
              ∷ [];
        }))
    × ((mark_render_completed world (0 ∷ []) (started two_frames)).0.renders.heap 0
        ≡ record ((started two_frames).renders.heap 0) { frames_completed = pos 1 })
mark_render_completed_more_example =
    mark_render_completed_more world (started two_frames) (0 ∷ []) first_frame
      (Reach-Good world-IsSound reached).inv first_registered _ first_progress 1 0 refl first_found
      (omega arith)

mark_render_completed_last_example :
    ((mark_render_completed world (0 ∷ []) (started one_frame)).1 ≡ ok true)
    × IsDelivered world
        ((started one_frame).renders.heap 0).output_file_name
        1
        ((mark_render_completed world (0 ∷ []) (started one_frame)).0.renders.heap 0)
    × (lookup bytes_discrete
          (1 ∷ [])
          (mark_render_completed world (0 ∷ []) (started one_frame)).0.render_progress
        ≡ none)
mark_render_completed_last_example =
    mark_render_completed_last world (started one_frame) (0 ∷ []) first_frame
      (Reach-Good world-IsSound reached_one).inv only_registered _ only_progress 1 0 refl only_found
      refl

mark_render_completed_twice_example :
    mark_render_completed world
      (0 ∷ [])
      (mark_render_completed world (0 ∷ []) (started two_frames)).0
    ≡ ((mark_render_completed world (0 ∷ []) (started two_frames)).0, ok false)
mark_render_completed_twice_example =
    mark_render_completed_twice world (0 ∷ []) (started two_frames)

assign_jobs-Started_example : Started (connected two_frames) (started two_frames)
assign_jobs-Started_example = assign_jobs-Started world (connected two_frames)

refused_after_completion_example :
    LandedAndQueued world
      (1 ∷ [])
      0
      (failed first_dispatch (mark_render_completed world (0 ∷ []) (started two_frames)).0)
unfolding lookup assign_jobs establish_connection submit add_job initial two_frames
refused_after_completion_example =
    refused_after_completion world-IsSound reached first_dispatch first_registered

add_job-Queues_example :
    Queues 0
      (pos 24)
      (pos 2)
      (initial two_frames).scheduler
      (add_job world 0 (initial two_frames)).scheduler
unfolding initial two_frames
add_job-Queues_example = add_job-Queues world 0 (initial two_frames) (omega arith)

establish_connection_statuses_example :
    ((j : Bytes)
      → status_of j (establish_connection (codes "w") (codes "h") 1 (started two_frames)).0.workers
        ≡ ite (bytes_discrete (codes "w") j) (some idle) (status_of j (started two_frames).workers))
    × ((establish_connection (codes "w") (codes "h") 1 (started two_frames)).1 ≡ record {
      status = registration (status_of (codes "w") (started two_frames).workers);
      assigned_id = some (codes "w");
    })
establish_connection_statuses_example =
    establish_connection_statuses (codes "w") (codes "h") 1 (started two_frames)

disconnect_statuses_example :
    ((j : Bytes)
      → status_of j (disconnect (codes "w") (started two_frames)).0.workers
        ≡ ite
            (bytes_discrete (codes "w") j)
            (Option.map (λ _. offline) (status_of j (started two_frames).workers))
            (status_of j (started two_frames).workers))
    × ((disconnect (codes "w") (started two_frames)).1
        ≡ answer (recognised (status_of (codes "w") (started two_frames).workers)))
disconnect_statuses_example = disconnect_statuses (codes "w") (started two_frames)

abbrev arrivals : List (ℕ × Bytes)
arrivals = (1, codes "b") ∷ (0, codes "a") ∷ (1, codes "c") ∷ (7, codes "d") ∷ []

land_all-refines_example :
    ((j : ℕ)
      → get_elem? (land_all arrivals (new_progress 2)).frame_links j
        ≡ (if ltb j 2 then some (recorded arrivals (λ i. none) j) else none))
    × ((all_frames_done (land_all arrivals (new_progress 2)) ≡ true)
        ↔ ((j : ℕ) → j < 2 → recorded arrivals (λ i. none) j ≢ none))
land_all-refines_example = land_all-refines 2 arrivals (omega arith)
