-- ===== src/Worker/Jobs.antt =====
-- How a job that a worker takes ends.
use pathological_v.Prelude.{
  ◌≡◌, ◌≢◌, refl, ◌∙◌, Bytes, bytes_discrete, true, Option, none, some, [], ◌∷◌,
}
use pathological_v.Prelude.Assoc.{lookup, insert, erase, lookup-insert_self, lookup-insert_ne}
use pathological_v.Prelude.Result.{Result, ok, throws}
use pathological_v.Scheduler.Complete.{frame_key}
use pathological_v.S3.{Files, S3Client, put_object}
use pathological_v.Worker.{
  Status, completed, error, Job, RenderJobs, add_job, job_at, update_job_status, fetch_job_status,
  Machine, WorkerState, GrpcStatus, ok_status, internal, Handled, generate_scene, remove_file,
  upload_image, handled_as, conclude, render_job,
}

-- The status that a worker keeps of a job whose handler returned `g`.
abbrev pub kept_status : GrpcStatus → Status
kept_status ok_status = completed
kept_status (internal e) = error

-- A handler's end: it did not crash, it reported its job once, it keeps a status of the job that
-- agrees with what it returned, and no other job was touched.
pub record IsEnded {B : Type 0} (job_id : Bytes) (w : WorkerState B) (o : Option (Handled B))
    : Type 0 where
  pub handled : Handled B
  pub returns : o ≡ some handled
  pub reports : handled.reported ≡ job_id ∷ []
  pub kept : fetch_job_status job_id handled.state.jobs ≡ some (kept_status handled.status)
  pub others :
      (other : Bytes)
      → job_id ≢ other
      → lookup bytes_discrete other handled.state.jobs ≡ lookup bytes_discrete other w.jobs

update_job_status-add_job :
    (job_id : Bytes) (job : Job) (st : Status) (jobs : RenderJobs)
    → update_job_status job_id st (add_job job_id job jobs)
      ≡ some (
          insert bytes_discrete job_id
            (some (record job { status = st }))
            (insert bytes_discrete job_id (some job) jobs))
unfolding update_job_status add_job job_at
update_job_status-add_job job_id job st jobs =
    rw
      (lookup-insert_self bytes_discrete job_id (some job) jobs, update_job_status, add_job, job_at)
      refl

abbrev with_status : Bytes → Job → Status → RenderJobs → RenderJobs
with_status job_id job st jobs =
    insert bytes_discrete job_id (some (record job { status = st }))
      (insert bytes_discrete job_id (some job) jobs)

fetch_job_status-with_status :
    (job_id : Bytes) (job : Job) (st : Status) (jobs : RenderJobs)
    → fetch_job_status job_id (with_status job_id job st jobs) ≡ some st
unfolding fetch_job_status job_at
fetch_job_status-with_status job_id job st jobs =
    rw
      (
        lookup-insert_self bytes_discrete job_id (some (record job { status = st }))
            (insert bytes_discrete job_id (some job) jobs),
        fetch_job_status,
        job_at,
      )
      refl

handled_as-IsEnded :
    {B : Type 0} (job_id : Bytes) (job : Job) (w : WorkerState B) (g : GrpcStatus) (fs : Files)
    (b : B)
    → IsEnded job_id w (
        handled_as job_id g fs b
          (update_job_status job_id (kept_status g) (add_job job_id job w.jobs)))
handled_as-IsEnded job_id job w g fs b =
    let st = kept_status g in
    rw (update_job_status-add_job job_id job st w.jobs) (record {
      handled = record {
        state = record { jobs = with_status job_id job st w.jobs; files = fs; bucket = b };
        reported = job_id ∷ [];
        status = g;
      };
      returns = refl;
      reports = refl;
      kept = fetch_job_status-with_status job_id job st w.jobs;
      others = λ other ne.
          lookup-insert_ne bytes_discrete job_id other (some (record job { status = st }))
            (insert bytes_discrete job_id (some job) w.jobs) ne
          ∙ lookup-insert_ne bytes_discrete job_id other (some job) w.jobs ne;
    })

conclude-IsEnded :
    {B : Type 0} (job_id : Bytes) (job : Job) (w : WorkerState B)
    (r : Files × B × Result (Unit {0}))
    → IsEnded job_id w (conclude job_id (add_job job_id job w.jobs) r)
conclude-IsEnded job_id job w (fs, b, ok u) = handled_as-IsEnded job_id job w ok_status fs b
conclude-IsEnded job_id job w (fs, b, throws e) = handled_as-IsEnded job_id job w (internal e) fs b

-- Whatever fails on the way, the handler returns, reports its job to the scheduler once, keeps
-- `COMPLETED` for it if it returned OK and `ERROR` otherwise, and touches no other job.
pub render_job_ends :
    {B : Type 0} (c : S3Client B) (m : Machine) (job_id : Bytes) (job : Job) (w : WorkerState B)
    → IsEnded job_id w (render_job c m job_id job w)
unfolding render_job
render_job_ends c m job_id job w = conclude-IsEnded job_id job w _

upload_image_removed :
    {B : Type 0} (c : S3Client B) (m : Machine) (job : Job) (fs : Files) (b : B)
    → m.remove_error job.output ≡ none
    → upload_image c m job fs b ≡ (
      erase bytes_discrete job.output fs,
      (put_object c job.output (frame_key job.output job.frame_index) true fs b).0,
      ok tt,
    )
unfolding upload_image
upload_image_removed c m job fs b removed = rw (removed, upload_image, remove_file) refl

-- A job whose frame was traced, and whose file can be removed, returns OK, is reported once to the
-- scheduler as completed and keeps the status `COMPLETED`, whatever `putObject` returned; the bucket
-- is as `putObject` left it.
pub upload_is_not_awaited :
    {B : Type 0} (c : S3Client B) (m : Machine) (job_id : Bytes) (job : Job) (w : WorkerState B)
    (fs : Files)
    → generate_scene c m job w.files w.bucket ≡ (fs, ok tt)
    → m.remove_error job.output ≡ none
    → (h : Handled B) × (render_job c m job_id job w ≡ some h)
      × (h.status ≡ ok_status)
      × (h.reported ≡ job_id ∷ [])
      × (fetch_job_status job_id h.state.jobs ≡ some completed)
      × (h.state.bucket
          ≡ (put_object c job.output (frame_key job.output job.frame_index) true fs w.bucket).0)
unfolding render_job
upload_is_not_awaited c m job_id job w fs traced removed =
    rw
      (
        traced,
        upload_image_removed c m job fs w.bucket removed,
        render_job,
        update_job_status-add_job job_id job completed w.jobs,
      )
      (_, refl, refl, refl, fetch_job_status-with_status job_id job completed w.jobs, refl)

-- A scene that cannot be traced ends the job with an error, and nothing is put into the bucket.
pub render_job_untraced :
    {B : Type 0} (c : S3Client B) (m : Machine) (job_id : Bytes) (job : Job) (w : WorkerState B)
    (fs : Files) (e : Bytes)
    → generate_scene c m job w.files w.bucket ≡ (fs, throws e)
    → (h : Handled B) × (render_job c m job_id job w ≡ some h)
      × (h.status ≡ internal e)
      × (h.state.bucket ≡ w.bucket)
unfolding render_job
render_job_untraced c m job_id job w fs e untraced =
    rw (untraced, render_job, update_job_status-add_job job_id job error w.jobs)
      (_, refl, refl, refl)
