-- ===== src/Scheduler/Complete.antt =====
-- `Scheduler::markRenderCompleted`, in the parts between which it holds no lock.
pub mod Outcome
pub mod Leaves
pub mod Repeat
pub mod Recorded
use pathological_v.Prelude.{
  ℕ, zero, suc, ◌+◌, ◌≡◌, refl, Bytes, bytes_discrete, codes, Bool, true, false, Option, none, some,
  List, [], ◌∷◌, ◌++◌, map, ltb, leb, if◌then◌else◌, length, get_elem?, set, u32, ◌&&◌,
}
use pathological_v.Prelude.Assoc.{lookup, insert, erase}
use pathological_v.Prelude.Decimal.{to_string}
use pathological_v.Prelude.Int.{to_int}
use pathological_v.Prelude.Result.{Result, ok, throws}
use pathological_v.Render.{
  RenderRequest, completed, set_status, set_frames_completed, set_download_link, set_download_links,
}
use pathological_v.Render.History.{Ptr, store, get_render_request}
use pathological_v.Scheduler.{FrameJobContext, RenderProgress, Scheduler, System, External}

-- `buildDownloadLink`
unfoldable pub build_download_link : External → Bytes → Bytes
build_download_link x key = link (x.presign key)
  where
    link : Bytes → Bytes
    link [] = codes "s3://" ++ x.bucket_name ++ codes "/" ++ key
    link (c ∷ cs) = c ∷ cs

-- The name under which a frame is stored.
unfoldable pub frame_key : Bytes → ℕ → Bytes
frame_key output frame_index = output ++ codes "_" ++ to_string frame_index

abbrev pub is_missing {ℓ} : {A : Type ℓ} → Option (Option A) → Bool
is_missing none = false
is_missing (some none) = true
is_missing (some (some a)) = false

-- A frame that is in range and has no link yet gets `link`.
unfoldable pub land : ℕ → Bytes → RenderProgress → RenderProgress
land i link p =
    if is_missing (get_elem? p.frame_links i)
    then record p {
      frame_links = set p.frame_links i (some link);
      frames_completed = u32 (p.frames_completed + 1);
    }
    else p

abbrev pub value_or : Bytes → Option Bytes → Bytes
value_or d none = d
value_or d (some v) = v

unfoldable pub ordered_links : RenderProgress → List Bytes
ordered_links p = map (value_or []) p.frame_links

unfoldable pub all_frames_done : RenderProgress → Bool
all_frames_done p = leb p.total_frames p.frames_completed

-- The progress is dropped with the last frame.
unfoldable pub keep_progress : Bytes → RenderProgress → Scheduler → Scheduler
unfolding insert erase bytes_discrete all_frames_done
keep_progress render_id p s = record s {
  render_progress =
      if all_frames_done p
      then erase bytes_discrete render_id s.render_progress
      else insert bytes_discrete render_id p s.render_progress;
}

-- `if (!orderedLinks.empty()) setDownloadLink(orderedLinks.front())`
unfoldable pub set_front_link : List Bytes → RenderRequest → RenderRequest
unfolding set_download_link
set_front_link [] r = r
set_front_link (link ∷ links) r = set_download_link (some link) r

unfoldable pub finish : RenderProgress → RenderRequest → RenderRequest
unfolding set_front_link set_status set_download_links ordered_links all_frames_done
finish p r =
    if all_frames_done p
    then set_status completed
        (set_front_link (ordered_links p) (set_download_links (ordered_links p) r))
    else r

unfoldable pub report : RenderProgress → RenderRequest → Result RenderRequest
unfolding set_frames_completed finish
report p r = elim (set_frames_completed (to_int p.frames_completed) r) [
  | ok r' ↦ ok (finish p r')
  | throws e ↦ throws e
]

abbrev publish : Ptr → System → Result RenderRequest → System × Result Bool
publish p s (throws e) = (s, throws e)
publish p s (ok r) =
    (record s { renders = record s.renders { heap = store p r s.renders.heap } }, ok true)

-- The part under `progress_mutex_` and what follows it.
unfoldable pub land_frame : External → FrameJobContext → Ptr → System → System × Result Bool
unfolding lookup bytes_discrete
land_frame x ctx p s = elim (lookup bytes_discrete ctx.render_id s.render_progress) [
  | none ↦ (s, ok false)
  | some progress ↦
      let after = land ctx.frame_index (build_download_link x key) progress in
      publish p (record s { scheduler = keep_progress ctx.render_id after s.scheduler })
        (report after render)
]
  where
    render : RenderRequest
    render = s.renders.heap p

    key : Bytes
    key = frame_key render.output_file_name ctx.frame_index

unfoldable pub complete_context : External → FrameJobContext → System → System × Result Bool
unfolding get_render_request
complete_context x ctx s = elim (x.uuid_parse ctx.render_id) [
  | none ↦ (s, throws (x.parse_error ctx.render_id))
  | some uuid ↦ elim (get_render_request uuid s.renders) [
    | none ↦ (s, ok false)
    | some p ↦ land_frame x ctx p s
  ]
]

unfoldable pub mark_render_completed : External → Bytes → System → System × Result Bool
unfolding lookup erase bytes_discrete
mark_render_completed x job_id s = elim (lookup bytes_discrete job_id s.worker_job_to_render_id) [
  | none ↦ (s, ok false)
  | some ctx ↦ complete_context x ctx (record s {
    scheduler = record s.scheduler {
      worker_job_to_render_id = erase bytes_discrete job_id s.worker_job_to_render_id;
    };
  })
]
