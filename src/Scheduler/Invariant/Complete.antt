-- ===== src/Scheduler/Invariant/Complete.antt =====
-- `markRenderCompleted` of a job that is registered: what it does, and that it keeps the invariant.
use mathlib.Core.Path.{subst₂}
use pathological_v.Prelude.{
  ℕ, ◌+◌, ◌≤◌, ◌≡◌, refl, sym, ap, Bytes, bytes_discrete, true, false, Option, none, some, inl, inr,
  ite, ℕ_discrete, arith, get_elem?, set, length, length-set, subst, get_elem?-set_cases, List, [],
  ◌∷◌, Bool-cases,
}
use pathological_v.Prelude.Assoc.{
  lookup, erase, lookup-insert, lookup-erase, lookup-insert_cases, lookup-erase-some, erase-Unique,
}
use pathological_v.Prelude.Int.{to_int}
use pathological_v.Prelude.Result.{ok}
use pathological_v.Render.{RenderRequest, set_frames_completed, set_status, set_download_links}
use pathological_v.Render.History.{store}
use pathological_v.Scheduler.{FrameJobContext, RenderProgress, System, External}
use pathological_v.Scheduler.Complete.{
  build_download_link, frame_key, is_missing, ordered_links, set_front_link, land, all_frames_done,
  keep_progress, finish, report, land_frame, complete_context, mark_render_completed,
}
use pathological_v.Scheduler.Frames.{
  missing_at, hit, count_missing, count_missing-set, count_missing-zero, is_missing-set,
}
use pathological_v.Scheduler.Invariant.{Inv, Accounted, Tracked}
use pathological_v.Scheduler.Invariant.Fail.{in_flight-erase}
use pathological_v.Scheduler.Invariant.Renders.{Keeps, ids-Keeps, Tracked-Keeps, store-Keeps}

-- A registered frame is missing from the progress of a render that has one.
pub record Awaited (s : System) (ctx : FrameJobContext) : Type 0 where
  pub progress : RenderProgress
  pub has_progress : lookup bytes_discrete ctx.render_id s.render_progress ≡ some progress
  pub is_awaited : is_missing (get_elem? progress.frame_links ctx.frame_index) ≡ true

set_front_link-names :
    (ls : List Bytes) (r : RenderRequest)
    → ((set_front_link ls r).id ≡ r.id)
      × ((set_front_link ls r).output_file_name ≡ r.output_file_name)
unfolding set_front_link
set_front_link-names [] r = (refl, refl)
set_front_link-names (l ∷ ls) r = (refl, refl)

pub finish-names :
    (p : RenderProgress) (r : RenderRequest)
    → ((finish p r).id ≡ r.id) × ((finish p r).output_file_name ≡ r.output_file_name)
unfolding finish set_status set_download_links
finish-names p r = elim (Bool-cases (all_frames_done p)) [
  | inl done ↦
      rw done (set_front_link-names (ordered_links p) (set_download_links (ordered_links p) r))
  | inr more ↦ rw more (refl, refl)
]

missing_at-Awaited :
    (s : System) (ctx : FrameJobContext) (o : Option RenderProgress)
    → lookup bytes_discrete ctx.render_id s.render_progress ≡ o
    → 1 ≤ missing_at ctx.frame_index o
    → Awaited s ctx
unfolding missing_at
missing_at-Awaited s ctx none e h = absurd (omega arith)
missing_at-Awaited s ctx (some p) e h = record {
  progress = p;
  has_progress = e;
  is_awaited = ground arith;
}

pub hit_self : (r : Bytes) (i : ℕ) → hit r i r i ≡ 1
unfolding hit
hit_self r i = ground arith

module _ (x : External) (s : System) (job_id : Bytes) (ctx : FrameJobContext) (inv : Inv x s)
    (registered : lookup bytes_discrete job_id s.worker_job_to_render_id ≡ some ctx) where
  pub awaited : Awaited s ctx
  awaited = missing_at-Awaited s ctx _ refl (
      omega (
        arith,
        inv.accounted ctx.render_id ctx.frame_index,
        in_flight-erase ctx.render_id ctx.frame_index job_id ctx inv registered,
        hit_self ctx.render_id ctx.frame_index,
      ))

  pub track : Tracked x s.renders ctx.render_id awaited.progress
  track = inv.tracked ctx.render_id awaited.progress awaited.has_progress

  unfoldable pub render : RenderRequest
  render = s.renders.heap track.ptr

  unfoldable pub link : Bytes
  link = build_download_link x (frame_key render.output_file_name ctx.frame_index)

  -- The progress with the frame in it.
  pub landed : RenderProgress
  landed = land ctx.frame_index link awaited.progress

  -- The render, written through the pointer of the history.
  unfoldable pub reported : RenderRequest
  reported = finish landed (record render { frames_completed = to_int landed.frames_completed })

  unfoldable pub completed_state : System
  completed_state = record s {
    scheduler = keep_progress ctx.render_id landed (record s.scheduler {
      worker_job_to_render_id = erase bytes_discrete job_id s.worker_job_to_render_id;
    });
    renders = record s.renders { heap = store track.ptr reported s.renders.heap };
  }

  pub landed_facts :
      (landed.frames_completed ≡ awaited.progress.frames_completed + 1)
      × (landed.frame_links ≡ set awaited.progress.frame_links ctx.frame_index (some link))
      × (landed.total_frames ≡ awaited.progress.total_frames)
  unfolding landed land
  landed_facts = ground (arith, awaited.is_awaited, track.unfinished, track.small)

  report_ok : report landed render ≡ ok reported
  unfolding report set_frames_completed reported
  report_ok = ground (arith, landed_facts, track.unfinished, track.small)

  -- The call returns `true` and leaves the state above.
  pub mark_render_completed_registered :
      mark_render_completed x job_id s ≡ (completed_state, ok true)
  unfolding mark_render_completed complete_context land_frame completed_state landed link render
  mark_render_completed_registered = rw (
    registered, mark_render_completed, track.parsed, complete_context, track.found, land_frame,
    awaited.has_progress, report_ok,
  )

  pub completed-Keeps : Keeps s.renders completed_state.renders
  unfolding completed_state reported render
  completed-Keeps =
      let names =
        finish-names landed (record render { frames_completed = to_int landed.frames_completed }) in
      store-Keeps s.renders track.ptr reported names.0 names.1

  pub landed-counted :
      landed.frames_completed + count_missing landed.frame_links ≡ landed.total_frames
  landed-counted = omega (
    arith,
    landed_facts,
    ap count_missing landed_facts.1,
    count_missing-set awaited.progress.frame_links ctx.frame_index link awaited.is_awaited,
    track.counted,
  )

  -- Only the frame itself is no longer missing.
  is_missing-landed :
      (k : ℕ)
      → is_missing (get_elem? landed.frame_links k)
        ≡ ite
            (ℕ_discrete ctx.frame_index k)
            false
            (is_missing (get_elem? awaited.progress.frame_links k))
  is_missing-landed k =
      rw (landed_facts.1) (is_missing-set awaited.progress.frame_links ctx.frame_index k link)

  done_none_missing :
      (k : ℕ) → all_frames_done landed ≡ true → is_missing (get_elem? landed.frame_links k) ≡ false
  unfolding all_frames_done
  done_none_missing k done =
      count_missing-zero landed.frame_links k (ground (arith, landed-counted))

  pub missing_at-completed :
      (r : Bytes) (k : ℕ)
      → missing_at k (lookup bytes_discrete r completed_state.render_progress)
          + hit ctx.render_id ctx.frame_index r k
        ≡ missing_at k (lookup bytes_discrete r s.render_progress)
  unfolding completed_state keep_progress missing_at hit
  missing_at-completed r k = elim (Bool-cases (all_frames_done landed)) [
    | inl done ↦ rw done (
        ground (
          arith,
          lookup-erase bytes_discrete ctx.render_id r s.render_progress,
          done_none_missing k done,
          is_missing-landed k,
          awaited.has_progress,
          awaited.is_awaited,
        ))
    | inr more ↦ rw more (
        ground (
          arith,
          lookup-insert bytes_discrete ctx.render_id r landed s.render_progress,
          is_missing-landed k,
          awaited.has_progress,
          awaited.is_awaited,
        ))
  ]

  completed-Accounted : Accounted x completed_state
  unfolding completed_state keep_progress
  completed-Accounted r k = rw (ids-Keeps x completed-Keeps) (
      omega (
        arith,
        inv.accounted r k,
        missing_at-completed r k,
        in_flight-erase r k job_id ctx inv registered,
      ))

  pub landed-named :
      (i : ℕ) (l : Bytes)
      → get_elem? landed.frame_links i ≡ some (some l)
      → l ≡ build_download_link x (frame_key render.output_file_name i)
  unfolding render link
  landed-named i l e =
      let e' = subst (λ ls. get_elem? ls i ≡ some (some l)) landed_facts.1 e in
      elim (get_elem?-set_cases awaited.progress.frame_links ctx.frame_index i link l e') [
        | inl (same_index, same_link) ↦ rw (← same_index) (sym same_link)
        | inr old ↦ track.named i l old
      ]

  -- Before the last frame the progress stays in order.
  landed-Tracked :
      all_frames_done landed ≡ false → Tracked x completed_state.renders ctx.render_id landed
  unfolding completed_state all_frames_done render
  landed-Tracked more = Tracked-Keeps completed-Keeps (record {
    uuid = track.uuid;
    ptr = track.ptr;
    parsed = track.parsed;
    found = track.found;
    size = omega (
      arith,
      ap length landed_facts.1,
      length-set awaited.progress.frame_links ctx.frame_index (some link),
      track.size,
      landed_facts,
    );
    small = omega (arith, landed_facts, track.small);
    counted = landed-counted;
    unfinished = ground arith;
    named = landed-named;
  })

  completed-tracked :
      (r : Bytes) (p : RenderProgress)
      → lookup bytes_discrete r completed_state.render_progress ≡ some p
      → Tracked x completed_state.renders r p
  unfolding completed_state keep_progress
  completed-tracked r p e = elim (Bool-cases (all_frames_done landed)) [
    | inl done ↦ Tracked-Keeps completed-Keeps (
        inv.tracked r p
          (lookup-erase-some bytes_discrete ctx.render_id r p s.render_progress (rw done at e)))
    | inr more ↦
        elim (lookup-insert_cases bytes_discrete ctx.render_id r landed p s.render_progress
          (rw more at e)) [
            | inl (same_id, same_progress) ↦
                subst₂ (Tracked x completed_state.renders) same_id same_progress
                  (landed-Tracked more)
            | inr old ↦ Tracked-Keeps completed-Keeps (inv.tracked r p old)
          ]
  ]

  pub completed-Inv : Inv x completed_state
  unfolding completed_state keep_progress
  completed-Inv = record {
    unique = erase-Unique bytes_discrete job_id _ inv.unique;
    fresh = λ m h. ground (
      arith,
      lookup-erase bytes_discrete job_id (x.uuid_text (x.job_uuid m)) s.worker_job_to_render_id,
      inv.fresh m h,
    );
    accounted = completed-Accounted;
    tracked = completed-tracked;
  }
