-- ===== src/Client/Frames/Delivery.antt =====
-- A frame from its dispatch to the link that the client of the web service gets.
use pathological_v.Prelude.{
  ℕ, ◌+◌, ◌<◌, ◌≡◌, refl, sym, ◌∙◌, ap, Bytes, bytes_discrete, Bool, true, false, Option, none,
  some, arith, set, length, List, [], ◌∷◌, ◌++◌,
}
use pathological_v.Prelude.Assoc.{lookup}
use pathological_v.Prelude.Int.{pos}
use pathological_v.Prelude.Result.{Result, ok, throws}
use pathological_v.Render.History.{get_render_request}
use pathological_v.Scheduler.{
  idle, offline, Worker, FrameJob, RenderProgress, Dispatch, System, External, IsSound,
}
use pathological_v.Scheduler.Assign.{dispatch_returns, dispatch_failed}
use pathological_v.Scheduler.Workers.{find_worker_by_id, mark_worker_idle}
use pathological_v.Scheduler.Workers.Status.{status_of, status_of-mark, find_worker_by_id-some}
use pathological_v.Scheduler.Complete.{build_download_link, frame_key, mark_render_completed}
use pathological_v.Scheduler.Complete.Leaves.{
  mark_render_completed-workers, mark_render_completed_leaves,
}
use pathological_v.Scheduler.Complete.Outcome.{mark_render_completed_more}
use pathological_v.Scheduler.Invariant.{Inv, context}
use pathological_v.S3.{Files, S3Client, IsStore, put_object, read_file}
use pathological_v.Server
use pathological_v.Server.{free_worker}
use pathological_v.Worker.{Job, Machine, WorkerState, Handled, render_job, generate_scene}
use pathological_v.Worker.Jobs.{render_job_ends, upload_is_not_awaited, render_job_untraced}
use pathological_v.Client.{SchedulerClient, served, job_completed}
use pathological_v.Client.Frames.{is_ok, reply, frame_request, make_job, report_all, run_dispatch}

-- The job that the worker makes of a dispatch.
abbrev pub job_of : Dispatch → System → Job
job_of d s = make_job (
    frame_request (s.renders.heap d.frame_job.render_request) d.job_id d.frame_job.frame_index
      d.frame_job.time)

abbrev freed : Bytes → System → System
freed id s = record s { scheduler = mark_worker_idle id s.scheduler }

free_worker-ok :
    (id : Bytes) (b : Bool) (r : System × Result Bool)
    → r.1 ≡ ok b
    → (free_worker id r).0 ≡ freed id r.0
free_worker-ok id b (s, ok c) e = refl
free_worker-ok id b (s, throws text) e = absurd (cc)

job_completed-freed :
    (x : External) (id job_id : Bytes) (s : System) (i : ℕ)
    → find_worker_by_id id s.workers ≡ some i
    → (mark_render_completed x job_id s).1 ≡ ok true
    → (Server.job_completed x id job_id s).0 ≡ freed id (mark_render_completed x job_id s).0
unfolding Server.job_completed
job_completed-freed x id job_id s i known done =
    rw (known, Server.job_completed)
      (free_worker-ok id true (mark_render_completed x job_id s) done)

freed-status_of :
    (id : Bytes) (s : System) (i : ℕ) (ws : List Worker)
    → s.workers ≡ ws
    → find_worker_by_id id ws ≡ some i
    → status_of id (freed id s).workers ≡ some idle
unfolding mark_worker_idle
freed-status_of id s i ws same known =
    let (w, there, named, status) = find_worker_by_id-some id ws i known in
    ground (arith, status_of-mark idle id id s.workers, ap (status_of id) same, status)

-- A frame that came back: the image is in the bucket under a key, the progress of its render has the
-- link of that key at the frame's place, and the worker is free.
pub record Delivered {B : Type 0} (c : S3Client B) (x : External) (client : SchedulerClient)
    (image key render_id : Bytes) (frame_index : ℕ) (p : RenderProgress)
    (o : Option (System × WorkerState B)) : Type 0 where
  pub system : System
  pub worker : WorkerState B
  pub returns : o ≡ some (system, worker)
  pub stored : c.get_object worker.bucket key ≡ some (image, pos (length image))
  pub linked :
      lookup bytes_discrete render_id system.render_progress
      ≡ some (record p {
        frames_completed = p.frames_completed + 1;
        frame_links = set p.frame_links frame_index (some (build_download_link x key));
      })
  pub free : status_of client.worker_id system.workers ≡ some idle

-- A frame that failed at the worker: the bucket is as before, the frame has a link all the same and is
-- queued again, and the worker is offline.
pub record IsLinkedUnstored {B : Type 0} (x : External) (client : SchedulerClient) (bucket : B)
    (key render_id : Bytes) (frame_job : FrameJob) (p : RenderProgress) (queue : List FrameJob)
    (o : Option (System × WorkerState B)) : Type 0 where
  pub system : System
  pub worker : WorkerState B
  pub returns : o ≡ some (system, worker)
  pub unstored : worker.bucket ≡ bucket
  pub linked :
      lookup bytes_discrete render_id system.render_progress
      ≡ some (record p {
        frames_completed = p.frames_completed + 1;
        frame_links = set p.frame_links frame_job.frame_index (some (build_download_link x key));
      })
  pub queued : system.pending_jobs ≡ queue ++ frame_job ∷ []
  pub is_offline : status_of client.worker_id system.workers ≡ some offline

module _ {B : Type 0} (c : S3Client B) (m : Machine) (client : SchedulerClient) (d : Dispatch)
    (w : WorkerState B) where
  -- The scheduler after the worker's report and the thread's end.
  abbrev returned : External → System → Bool → System
  returned x s accepted =
      let t = (Server.job_completed x client.worker_id d.job_id s).0 in
      record t { scheduler = dispatch_returns d accepted t.scheduler }

  run_dispatch-handled :
      (x : External) (s : System) (h : Handled B)
      → render_job c m d.job_id (job_of d s) w ≡ some h
      → run_dispatch c m (served x) client d s w
        ≡ some (returned x s (is_ok (reply h.status d.job_id)), h.state)
  unfolding run_dispatch report_all served frame_request make_job job_completed
  run_dispatch-handled x s h returns =
      let ended = render_job_ends c m d.job_id (job_of d s) w in
      let same : ended.handled ≡ h = cc (ended.returns, returns) in
      let reported : h.reported ≡ d.job_id ∷ [] =
        ap (λ (g : Handled B). g.reported) (sym same) ∙ ended.reports in
      rw (returns, run_dispatch, reported) refl

  module _ (x : External) (s : System) (inv : Inv x s)
      (registered : lookup bytes_discrete d.job_id s.worker_job_to_render_id ≡ some (context x s d))
      (p : RenderProgress)
      (has_progress : lookup bytes_discrete (context x s d).render_id s.render_progress ≡ some p)
      (sound : IsSound x)
      (found : get_render_request (s.renders.heap d.frame_job.render_request).id s.renders
        ≡ some d.frame_job.render_request)
      (more : p.frames_completed + 1 < p.total_frames) (i : ℕ)
      (known : find_worker_by_id client.worker_id s.workers ≡ some i) where
    -- The key that both sides make for the frame.
    abbrev key : Bytes
    key =
        frame_key (s.renders.heap d.frame_job.render_request).output_file_name
          d.frame_job.frame_index

    completed_more :
        ((mark_render_completed x d.job_id s).1 ≡ ok true)
        × (lookup bytes_discrete
              (context x s d).render_id
              (mark_render_completed x d.job_id s).0.render_progress
            ≡ some (record p {
              frames_completed = p.frames_completed + 1;
              frame_links =
                  set p.frame_links d.frame_job.frame_index (some (build_download_link x key));
            }))
    completed_more =
        let (done, linked, rest) =
          mark_render_completed_more x s d.job_id (context x s d) inv registered p has_progress
            (s.renders.heap d.frame_job.render_request).id d.frame_job.render_request
            (sound.parse_text _) found more in
        (done, linked)

    -- One frame of a render goes through the whole system: its dispatch is known to the scheduler, it is
    -- not the last one of its render, and its worker is in the list. If the worker traces the scene to an image in
    -- the output file, which can be removed afterwards, and the bucket takes the upload, then the
    -- worker stores the image under the very key whose link the scheduler records for the frame, and
    -- the scheduler has the worker as idle again.
    pub run_dispatch-Delivered :
        IsStore c
        → (fs : Files) (image : Bytes)
        → generate_scene c m (job_of d s) w.files w.bucket ≡ (fs, ok tt)
        → read_file (job_of d s).output fs ≡ some image
        → m.remove_error (job_of d s).output ≡ none
        → (c.put_object w.bucket key (some image)).1 ≡ true
        → Delivered c x client image key
            (context x s d).render_id
            d.frame_job.frame_index
            p
            (run_dispatch c m (served x) client d s w)
    unfolding put_object make_job frame_request dispatch_returns
    run_dispatch-Delivered store fs image traced kept removed put =
        let (h, returns, fine, reported, status, bucket) =
          upload_is_not_awaited c m d.job_id (job_of d s) w fs traced removed in
        let (done, linked) = completed_more in
        let after = job_completed-freed x client.worker_id d.job_id s i known done in
        record {
          system = (Server.job_completed x client.worker_id d.job_id s).0;
          worker = h.state;
          returns = run_dispatch-handled x s h returns ∙ rw fine refl;
          stored = rw (bucket, kept) (store.get_put w.bucket key image put);
          linked = rw after (unfold mark_worker_idle in linked);
          free = rw after (
              freed-status_of client.worker_id (mark_render_completed x d.job_id s).0 i s.workers
                (mark_render_completed-workers x d.job_id s) known);
        }

    -- The same frame, when the worker fails to trace it: the worker reports it completed and then
    -- refuses the call, so that the scheduler records the frame's link, queues the frame again behind
    -- the others, and has the worker as offline, if that is the worker that the dispatch names; nothing was stored.
    pub run_dispatch-untraced :
        client.worker_id ≡ d.worker_id
        → (fs : Files) (e : Bytes)
        → generate_scene c m (job_of d s) w.files w.bucket ≡ (fs, throws e)
        → IsLinkedUnstored x client w.bucket key
            (context x s d).render_id
            d.frame_job
            p
            s.pending_jobs
            (run_dispatch c m (served x) client d s w)
    unfolding make_job frame_request dispatch_returns dispatch_failed
    run_dispatch-untraced named fs e untraced =
        let (h, returns, failed, bucket) =
          render_job_untraced c m d.job_id (job_of d s) w fs e untraced in
        let (done, linked) = completed_more in
        let (workers, queue) = mark_render_completed_leaves x d.job_id s in
        let after = job_completed-freed x client.worker_id d.job_id s i known done in
        record {
          system = returned x s false;
          worker = h.state;
          returns = run_dispatch-handled x s h returns ∙ rw failed refl;
          unstored = bucket;
          linked = rw after (unfold mark_worker_idle in linked);
          queued =
              rw after (
                unfold mark_worker_idle in ap (λ (q : List FrameJob). q ++ d.frame_job ∷ []) queue);
          is_offline = rw after (
              ground (
                arith,
                named,
                status_of-mark offline d.worker_id client.worker_id
                    (freed client.worker_id (mark_render_completed x d.job_id s).0).workers,
                freed-status_of client.worker_id (mark_render_completed x d.job_id s).0 i s.workers
                    workers known,
              ));
        }
