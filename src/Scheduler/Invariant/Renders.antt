-- ===== src/Scheduler/Invariant/Renders.antt =====
-- Writes through a pointer that leave the names of the renders as they were.
use pathological_v.Prelude.{
  ◌≡◌, refl, ap, sym, ◌∙◌, fun_ext, Bytes, ℕ_discrete, arith, Option-cases, inl, inr,
}
use pathological_v.Prelude.Assoc.{lookup}
use pathological_v.Render.{RenderStatus, RenderRequest, Uuid, set_status}
use pathological_v.Render.History.{Ptr, RenderHistory, store, update_status, get_render_request}
use pathological_v.Scheduler.Complete.{build_download_link, frame_key}
use pathological_v.Scheduler.{RenderProgress, External}
use pathological_v.Scheduler.Frames.{ids}
use pathological_v.Scheduler.Invariant.{Tracked}

pub record Keeps (h h' : RenderHistory) : Type 0 where
  pub same_history : h'.history ≡ h.history
  pub same_id : (p : Ptr) → (h'.heap p).id ≡ (h.heap p).id
  pub same_output : (p : Ptr) → (h'.heap p).output_file_name ≡ (h.heap p).output_file_name

pub ids-Keeps : (x : External) {h h' : RenderHistory} → Keeps h h' → ids x h'.heap ≡ ids x h.heap
ids-Keeps x k = fun_ext λ p. ap x.uuid_text (k.same_id p)

pub Tracked-Keeps :
    {x : External} {h h' : RenderHistory} {r : Bytes} {p : RenderProgress}
    → Keeps h h'
    → Tracked x h r p
    → Tracked x h' r p
unfolding get_render_request
Tracked-Keeps {x} k t = record {
  uuid = t.uuid;
  ptr = t.ptr;
  parsed = t.parsed;
  found = rw k.same_history t.found;
  size = t.size;
  small = t.small;
  counted = t.counted;
  unfinished = t.unfinished;
  named = λ i l e.
      t.named i l e ∙ ap (λ o. build_download_link x (frame_key o i)) (sym (k.same_output t.ptr));
}

pub Keeps-refl : (h : RenderHistory) → Keeps h h
Keeps-refl h = record { same_history = refl; same_id = λ p. refl; same_output = λ p. refl }

pub store-Keeps :
    (h : RenderHistory) (p : Ptr) (r : RenderRequest)
    → r.id ≡ (h.heap p).id
    → r.output_file_name ≡ (h.heap p).output_file_name
    → Keeps h (record h { heap = store p r h.heap })
store-Keeps h p r same_id same_output = record {
  same_history = refl;
  same_id = λ q. ground arith;
  same_output = λ q. ground arith;
}

pub update_status-Keeps :
    (id : Uuid) (status : RenderStatus) (h : RenderHistory) → Keeps h (update_status id status h).0
unfolding update_status
update_status-Keeps id status h = elim (Option-cases (lookup ℕ_discrete id h.history)) [
  | inl e ↦
      rw (e, update_status)
        (record { same_history = refl; same_id = λ p. refl; same_output = λ p. refl })
  | inr (p, e) ↦ rw (e, update_status) (store-Keeps h p (set_status status (h.heap p)) refl refl)
]
