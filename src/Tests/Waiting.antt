-- ===== src/Tests/Waiting.antt =====
-- The theorems on the scheduler's loop at concrete states.
use pathological_v.Prelude.{◌<◌, ◌≡◌, refl, true, false, codes, ◌⊎◌, arith}
use pathological_v.Scheduler.Jobs.{add_job}
use pathological_v.Scheduler.RunLoop.{is_awaited}
use pathological_v.Scheduler.RunLoop.Progress.{IsServed, round_serves}
use pathological_v.Scheduler.RunLoop.Wakeup.{
  Waiting, WaitSteps, checking, decided, blocked, here, then, checks, blocks, awaited,
  render_queued, check, acquires, woken, queues, worker_added,
}
use pathological_v.Scheduler.RunLoop.Wakeup.Queueing.{queueing_wakes}
use pathological_v.Scheduler.RunLoop.Wakeup.Lost.{Missed, registration_lost}
use pathological_v.Runs.{initial}
use pathological_v.Tests.{world, two_frames, connected}

round_serves_example : IsServed world (connected two_frames)
round_serves_example = round_serves world (connected two_frames)

-- No job, a thread at the start of a round.
abbrev quiet : Waiting
quiet = record { phase = woken; running = true; system = initial two_frames; owed = 0 }

abbrev asleep : Waiting
asleep = record quiet { phase = blocked }

quiet_steps : WaitSteps world quiet (render_queued world 0 asleep)
unfolding initial two_frames is_awaited check
quiet_steps =
    then asleep _
      (then (record quiet { phase = decided }) _
        (then (record quiet { phase = checking }) _ (then quiet _ here (acquires refl))
          (checks refl))
        (blocks refl))
      (queues 0 1 refl refl)

queueing_wakes_example :
    (awaited (render_queued world 0 asleep) ≡ false) ⊎ (0 < (render_queued world 0 asleep).owed)
unfolding render_queued
queueing_wakes_example =
    queueing_wakes world quiet (render_queued world 0 asleep) refl quiet_steps refl

-- A render waits, and no worker.
abbrev waiting_for_worker : Waiting
waiting_for_worker = record {
  phase = decided;
  running = true;
  system = add_job world 0 (initial two_frames);
  owed = 0;
}

registration_lost_example :
    Missed world (worker_added (codes "w") (codes "host") 80 waiting_for_worker)
unfolding add_job two_frames initial
registration_lost_example =
    registration_lost world (codes "w") (codes "host") 80 waiting_for_worker refl refl (omega arith)
