-- ===== src/Scheduler/Complete/Outcome.antt =====
-- The outcome of `markRenderCompleted` for the frames of a render, up to the last one.
use mathlib.Core.Path.{ap₂, subst₂}
use pathological_v.Prelude.{
  ℕ, zero, suc, ◌+◌, ◌≤◌, ◌<◌, ◌≡◌, refl, ◌∙◌, ap, Bytes, bytes_discrete, true, false, Option, none,
  some, inl, inr, ◌↔◌, arith, get_elem?, set, length, length-set, List, [], ◌∷◌, map, Bool-cases,
}
use pathological_v.Prelude.Assoc.{lookup, lookup-erase_self, lookup-insert_self}
use pathological_v.Prelude.Int.{pos, to_int}
use pathological_v.Prelude.Result.{ok}
use pathological_v.Render.{
  Uuid, RenderRequest, completed, set_status, set_download_links, set_download_link,
}
use pathological_v.Render.History.{Ptr, get_render_request}
use pathological_v.Scheduler.{FrameJobContext, RenderProgress, System, External}
use pathological_v.Scheduler.Complete.{
  build_download_link, frame_key, value_or, ordered_links, all_frames_done, set_front_link,
  keep_progress, finish, mark_render_completed,
}
use pathological_v.Scheduler.Frames.{count_missing}
use pathological_v.Scheduler.Invariant.{Inv, Tracked}
use pathological_v.Scheduler.Invariant.Complete.{
  awaited, track, render, link, landed, reported, completed_state, landed_facts, landed-counted,
  landed-named, mark_render_completed_registered,
}

-- The links of the frames from `k` on, `n` of them, in the order of the frames.
unfoldable pub frame_links_from : External → Bytes → ℕ → ℕ → List Bytes
frame_links_from x output k zero = []
frame_links_from x output k (suc n) =
    build_download_link x (frame_key output k) ∷ frame_links_from x output (k + 1) n

-- A row of links with no gap, each of its own frame, is that list.
ordered-frame_links :
    (x : External) (output : Bytes) (k : ℕ) (ls : List (Option Bytes))
    → count_missing ls ≡ 0
    → ((i : ℕ) (l : Bytes)
        → get_elem? ls i ≡ some (some l)
        → l ≡ build_download_link x (frame_key output (k + i)))
    → map (value_or []) ls ≡ frame_links_from x output k (length ls)
unfolding frame_links_from count_missing
ordered-frame_links x output k [] full named = refl
ordered-frame_links x output k (none ∷ ls) full named = absurd (omega arith)
ordered-frame_links x output k (some l ∷ ls) full named =
    ap₂ ◌∷◌ (named 0 l refl ∙ ap (λ i. build_download_link x (frame_key output i)) (omega arith)) (
      ordered-frame_links x output (k + 1) ls full λ i l' e.
        named (suc i) l' e ∙ ap (λ i'. build_download_link x (frame_key output i')) (omega arith))

set_front_link-fields :
    (x : External) (output : Bytes) (n : ℕ) (ls : List Bytes) (r : RenderRequest)
    → ls ≡ frame_links_from x output 0 (suc n)
    → ((set_front_link ls r).download_link ≡ some (build_download_link x (frame_key output 0)))
      × ((set_front_link ls r).download_links ≡ r.download_links)
unfolding set_front_link set_download_link frame_links_from
set_front_link-fields x output n [] r e = absurd (cc)
set_front_link-fields x output n (l ∷ ls) r e = (cc, refl)

-- What the record of a render shows once all its `n` frames are in.
pub record IsDelivered (x : External) (output : Bytes) (n : ℕ) (r : RenderRequest) : Type 0 where
  pub status : r.status ≡ completed
  pub links : r.download_links ≡ frame_links_from x output 0 n
  pub link : r.download_link ≡ some (build_download_link x (frame_key output 0))

module _ (x : External) (s : System) (job_id : Bytes) (ctx : FrameJobContext) (inv : Inv x s)
    (registered : lookup bytes_discrete job_id s.worker_job_to_render_id ≡ some ctx)
    (p : RenderProgress)
    (has_progress : lookup bytes_discrete ctx.render_id s.render_progress ≡ some p) (uuid : Uuid)
    (ptr : Ptr) (parsed : x.uuid_parse ctx.render_id ≡ some uuid)
    (found : get_render_request uuid s.renders ≡ some ptr) where
  abbrev T : Tracked x s.renders ctx.render_id (awaited x s job_id ctx inv registered).progress
  T = track x s job_id ctx inv registered

  same_progress : (awaited x s job_id ctx inv registered).progress ≡ p
  same_progress = cc ((awaited x s job_id ctx inv registered).has_progress)

  same_ptr : T.ptr ≡ ptr
  same_ptr = cc (T.parsed, T.found)

  abbrev L : RenderProgress
  L = landed x s job_id ctx inv registered

  abbrev R : RenderRequest
  R = render x s job_id ctx inv registered

  links_in_order :
      all_frames_done L ≡ true
      → ordered_links L ≡ frame_links_from x R.output_file_name 0 L.total_frames
  unfolding all_frames_done ordered_links
  links_in_order done =
      let full : count_missing L.frame_links ≡ 0 =
        ground (arith, landed-counted x s job_id ctx inv registered) in
      ordered-frame_links x R.output_file_name 0 L.frame_links full (λ i l e.
        landed-named x s job_id ctx inv registered i l e
        ∙ ap (λ k. build_download_link x (frame_key R.output_file_name k)) (omega arith))
      ∙ ap (frame_links_from x R.output_file_name 0) (
          omega (
            arith,
            landed_facts x s job_id ctx inv registered,
            ap length (landed_facts x s job_id ctx inv registered).1,
            length-set (awaited x s job_id ctx inv registered).progress.frame_links ctx.frame_index
                (some (link x s job_id ctx inv registered)),
            T.size,
          ))

  reported-IsDelivered :
      (n : ℕ)
      → L.total_frames ≡ suc n
      → all_frames_done L ≡ true
      → IsDelivered x R.output_file_name (suc n) (reported x s job_id ctx inv registered)
  unfolding reported finish set_status set_download_links
  reported-IsDelivered n total done =
      let order : ordered_links L ≡ frame_links_from x R.output_file_name 0 (suc n) =
        links_in_order done ∙ ap (frame_links_from x R.output_file_name 0) total in
      let fields = set_front_link-fields x R.output_file_name n (ordered_links L) _ order in
      rw done (record { status = refl; links = fields.1 ∙ order; link = fields.0 })

  abbrev frame_link : Bytes
  frame_link =
      build_download_link x (frame_key (s.renders.heap ptr).output_file_name ctx.frame_index)

  C : System
  unfolding completed_state
  C = completed_state x s job_id ctx inv registered

  facts :
      (L.frames_completed ≡ p.frames_completed + 1)
      × (L.total_frames ≡ p.total_frames)
      × (L.frame_links ≡ set p.frame_links ctx.frame_index (some frame_link))
  unfolding link render
  facts =
      let known = landed_facts x s job_id ctx inv registered in
      (
        omega (arith, known.0, ap (λ (q : RenderProgress). q.frames_completed) same_progress),
        omega (arith, known.2, ap (λ (q : RenderProgress). q.total_frames) same_progress),
        known.1
            ∙ ap
                (λ (q : RenderProgress).
                  set q.frame_links ctx.frame_index (some (link x s job_id ctx inv registered)))
                same_progress
            ∙ ap
                (λ q. set p.frame_links ctx.frame_index (
                  some (
                    build_download_link x
                      (frame_key (s.renders.heap q).output_file_name ctx.frame_index))))
                same_ptr,
      )

  heap_after : C.renders.heap ptr ≡ reported x s job_id ctx inv registered
  unfolding C
  heap_after = ground (arith, same_ptr)

  done_iff : (all_frames_done L ≡ true) ↔ (p.total_frames ≤ p.frames_completed + 1)
  unfolding all_frames_done
  done_iff = ground (arith, facts)

  output_same : R.output_file_name ≡ (s.renders.heap ptr).output_file_name
  unfolding render
  output_same = ap (λ q. (s.renders.heap q).output_file_name) same_ptr

  delivered :
      p.frames_completed + 1 ≡ p.total_frames
      → IsDelivered x (s.renders.heap ptr).output_file_name p.total_frames (C.renders.heap ptr)
  delivered last =
      let n_eq : suc p.frames_completed ≡ p.total_frames = omega arith in
      rw heap_after (
        subst₂ (λ o n. IsDelivered x o n (reported x s job_id ctx inv registered)) output_same n_eq
          (reported-IsDelivered p.frames_completed (omega (arith, facts))
            (done_iff.1 (omega arith))))

  dropped :
      p.frames_completed + 1 ≡ p.total_frames
      → lookup bytes_discrete ctx.render_id C.render_progress ≡ none
  unfolding C keep_progress
  dropped last =
      rw (done_iff.1 (omega arith))
        (lookup-erase_self bytes_discrete ctx.render_id s.render_progress)

  module _ (more : p.frames_completed + 1 < p.total_frames) where
    not_done : all_frames_done L ≡ false
    not_done = elim (Bool-cases (all_frames_done L)) [
      | inl done ↦ absurd (omega (arith, done_iff.0 done))
      | inr open_frames ↦ open_frames
    ]

    progress_after :
        lookup bytes_discrete ctx.render_id C.render_progress
        ≡ some (record p {
          frames_completed = p.frames_completed + 1;
          frame_links = set p.frame_links ctx.frame_index (some frame_link);
        })
    unfolding C keep_progress
    progress_after = rw not_done (
        lookup-insert_self bytes_discrete ctx.render_id L s.render_progress ∙ ground (arith, facts))

    to_int_after : to_int L.frames_completed ≡ pos (p.frames_completed + 1)
    to_int_after = ground (arith, facts, T.small, landed_facts x s job_id ctx inv registered)

    render_after :
        C.renders.heap ptr
        ≡ record (s.renders.heap ptr) { frames_completed = pos (p.frames_completed + 1) }
    unfolding reported finish render
    render_after =
        heap_after
        ∙ rw not_done (
            ap (λ q. record (s.renders.heap q) { frames_completed = to_int L.frames_completed })
              same_ptr
            ∙ ap (λ n. record (s.renders.heap ptr) { frames_completed = n }) to_int_after)

  -- In a state with the invariant `Inv`, for a registered job whose render is in the history and has
  -- progress: if its frame is not the last, the call returns `true`, the frame's link is set and
  -- counted, and of the render only the counter changes.
  pub mark_render_completed_more :
      p.frames_completed + 1 < p.total_frames
      → ((mark_render_completed x job_id s).1 ≡ ok true)
        × (lookup bytes_discrete ctx.render_id (mark_render_completed x job_id s).0.render_progress
            ≡ some (record p {
              frames_completed = p.frames_completed + 1;
              frame_links = set p.frame_links ctx.frame_index (some frame_link);
            }))
        × ((mark_render_completed x job_id s).0.renders.heap ptr
            ≡ record (s.renders.heap ptr) { frames_completed = pos (p.frames_completed + 1) })
  mark_render_completed_more more =
      rw (mark_render_completed_registered x s job_id ctx inv registered)
        (unfold C in (refl, progress_after more, render_after more))

  -- In a state with the invariant `Inv`, for a registered job whose render is in the history and has
  -- progress: if its frame is the last, the call returns `true`, the render is completed with the
  -- links of all its frames in their order, the first of them as its link, and its progress is
  -- dropped.
  pub mark_render_completed_last :
      p.frames_completed + 1 ≡ p.total_frames
      → ((mark_render_completed x job_id s).1 ≡ ok true)
        × IsDelivered x
            (s.renders.heap ptr).output_file_name
            p.total_frames
            ((mark_render_completed x job_id s).0.renders.heap ptr)
        × (lookup bytes_discrete ctx.render_id (mark_render_completed x job_id s).0.render_progress
            ≡ none)
  mark_render_completed_last last =
      rw (mark_render_completed_registered x s job_id ctx inv registered)
        (unfold C in (refl, delivered last, dropped last))
