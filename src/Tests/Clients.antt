-- ===== src/Tests/Clients.antt =====
-- The theorems on the gRPC clients at concrete states.
use pathological_v.Prelude.{
  ◌≡◌, refl, Bytes, bytes_discrete, codes, Option, none, some, [], ◌∷◌, ite, arith,
}
use pathological_v.Prelude.Result.{ok, throws}
use pathological_v.Scheduler.{idle, offline, System}
use pathological_v.Prelude.Assoc.{lookup, insert}
use pathological_v.Server.{establish_connection}
use pathological_v.Runs.{initial, submit}
use pathological_v.Scheduler.Assign.{assign_jobs}
use pathological_v.Scheduler.Jobs.{add_job}
use pathological_v.Scheduler.Workers.Status.{status_of}
use pathological_v.Scheduler.Workers.{find_worker_by_id}
use pathological_v.Scheduler.Complete.{frame_key}
use pathological_v.Runs.Good.{Reach-Good}
use pathological_v.Client.{SchedulerClient, served, launch, disconnect}
use pathological_v.Client.Registration.{launch-disconnect}
use pathological_v.Client.Frames.{run_dispatch, make_job, frame_request}
use pathological_v.Client.Frames.Delivery.{
  Delivered, IsLinkedUnstored, run_dispatch-Delivered, run_dispatch-untraced, job_of,
}
use pathological_v.Worker.{Machine, WorkerState, generate_scene}
use pathological_v.S3.{Files, read_file}
use pathological_v.Tests.{world, world-IsSound, two_frames, started, submitted}
use pathological_v.Tests.Scheduling.{
  first_dispatch, first_progress, first_found, first_registered, reached,
}
use pathological_v.Tests.Serving.{store_client, store_client-IsStore, machine}

abbrev unset : SchedulerClient
unset = record { worker_id = []; worker_ip = []; port = 0 }

abbrev client : SchedulerClient
client = record { worker_id = codes "w"; worker_ip = codes "host"; port = 80 }

abbrev launched : System × Option SchedulerClient
launched = launch (served world) (codes "w") (codes "host") 80 unset (submitted two_frames)

launch-disconnect_example :
    (launched.1 ≡ some client)
    × ((j : Bytes)
        → status_of j launched.0.workers
          ≡ ite
              (bytes_discrete (codes "w") j)
              (some idle)
              (status_of j (submitted two_frames).workers))
    × ((j : Bytes)
        → status_of j (disconnect (served world) client launched.0).workers
          ≡ ite
              (bytes_discrete (codes "w") j)
              (some offline)
              (status_of j (submitted two_frames).workers))
launch-disconnect_example =
    launch-disconnect world (codes "w") (codes "host") 80 unset (submitted two_frames)

-- The scene of `two_frames` has an empty name.
abbrev ready : WorkerState Files
ready = record { jobs = []; files = []; bucket = ([], codes "{}") ∷ [] }

abbrev broken : Machine
broken = record machine { trace = λ job content. throws (codes "no device") }

known_worker : find_worker_by_id (codes "w") (started two_frames).workers ≡ some 0
unfolding find_worker_by_id assign_jobs establish_connection submit add_job initial two_frames
known_worker = refl

traced :
    generate_scene store_client machine (job_of first_dispatch (started two_frames)) [] ready.bucket
    ≡ ((codes "o", codes "png") ∷ [], ok tt)
unfolding generate_scene assign_jobs establish_connection submit add_job initial two_frames make_job
    frame_request
traced = refl

untraced :
    generate_scene store_client broken (job_of first_dispatch (started two_frames)) [] ready.bucket
    ≡ ((codes "temp_", codes "{}") ∷ [], throws (codes "no device"))
unfolding generate_scene assign_jobs establish_connection submit add_job initial two_frames make_job
    frame_request
untraced = refl

run_dispatch-Delivered_example :
    Delivered store_client world client
      (codes "png")
      (frame_key ((started two_frames).renders.heap 0).output_file_name 0)
      (1 ∷ [])
      0
      (record { total_frames = 2; frames_completed = 0; frame_links = none ∷ none ∷ [] })
      (run_dispatch store_client machine
        (served world)
        client
        first_dispatch
        (started two_frames)
        ready)
unfolding lookup assign_jobs establish_connection submit add_job initial two_frames make_job
    frame_request insert bytes_discrete read_file
run_dispatch-Delivered_example =
    run_dispatch-Delivered store_client machine client first_dispatch ready world
      (started two_frames) (Reach-Good world-IsSound reached).inv first_registered _ first_progress
      world-IsSound first_found (omega arith) 0 known_worker store_client-IsStore
      ((codes "o", codes "png") ∷ []) (codes "png") traced refl refl refl

run_dispatch-untraced_example :
    IsLinkedUnstored world client ready.bucket
      (frame_key ((started two_frames).renders.heap 0).output_file_name 0)
      (1 ∷ [])
      first_dispatch.frame_job
      (record { total_frames = 2; frames_completed = 0; frame_links = none ∷ none ∷ [] })
      (started two_frames).pending_jobs
      (run_dispatch store_client broken
        (served world)
        client
        first_dispatch
        (started two_frames)
        ready)
unfolding lookup assign_jobs establish_connection submit add_job initial two_frames make_job
    frame_request
run_dispatch-untraced_example =
    run_dispatch-untraced store_client broken client first_dispatch ready world (started two_frames)
      (Reach-Good world-IsSound reached).inv first_registered _ first_progress world-IsSound
      first_found (omega arith) 0 known_worker refl ((codes "temp_", codes "{}") ∷ [])
      (codes "no device") untraced
