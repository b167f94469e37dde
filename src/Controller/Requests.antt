-- ===== src/Controller/Requests.antt =====
-- What becomes of a submitted render.
use pathological_v.Prelude.{◌≡◌, refl, Bytes, false, Option, none, some, inl, inr, ◌⊎◌, arith}
use pathological_v.Prelude.Int.{ℤ, pos, negsuc, is_negative}
use pathological_v.Prelude.Result.{Result, ok, throws, ◌>>=◌}
use pathological_v.Render.{
  Uuid, RenderRequest, new_render_request, in_queue, set_status, set_width, set_height,
  set_frames_per_second, set_animation_runtime_in_frames, set_samples_per_pixel,
  set_created_at_timestamp, set_scene_file_url, set_output_file_name,
}
use pathological_v.Render.Json.{JsonObject, to_json}
use pathological_v.Render.History.{Ptr}
use pathological_v.Scheduler.{System, External}
use pathological_v.Runs.{submit}
use pathological_v.Controller.{
  Response, created, bad_request, RenderPayload, fill_request, place, accept, create_render_request,
}

-- A result that is `ok` satisfies `P`.
abbrev Holds {ℓ κ} : {A : Type ℓ} → (A → Type κ) → Result A → Type κ
Holds P (ok a) = P a
Holds P (throws e) = Unit

Holds-bind {ℓ κ} :
    {A B : Type ℓ} {Q : A → Type κ} (P : B → Type κ) (m : Result A) (f : A → Result B)
    → Holds Q m
    → ((a : A) → Q a → Holds P (f a))
    → Holds P (m >>= f)
Holds-bind P (ok a) f q next = next a q
Holds-bind P (throws e) f q next = tt

Holds-any {ℓ} : {A : Type ℓ} (m : Result A) → Holds (λ _. Unit {0}) m
Holds-any (ok a) = tt
Holds-any (throws e) = tt

-- A request as the handler makes it: queued, with no negative size, rate or length.
pub record IsAccepted (id : Uuid) (r : RenderRequest) : Type 0 where
  pub same_id : r.id ≡ id
  pub waits : r.status ≡ in_queue
  pub wide : is_negative r.width ≡ false
  pub high : is_negative r.height ≡ false
  pub rate : is_negative r.frames_per_second ≡ false
  pub frames : is_negative r.animation_runtime ≡ false
  pub unstarted : r.frames_completed ≡ pos 0

set_width-Holds :
    (w : ℤ) (r : RenderRequest)
    → Holds (λ r'. (is_negative w ≡ false) × (r' ≡ record r { width = w })) (set_width w r)
unfolding set_width
set_width-Holds (pos n) r = (refl, refl)
set_width-Holds (negsuc n) r = tt

set_height-Holds :
    (w : ℤ) (r : RenderRequest)
    → Holds (λ r'. (is_negative w ≡ false) × (r' ≡ record r { height = w })) (set_height w r)
unfolding set_height
set_height-Holds (pos n) r = (refl, refl)
set_height-Holds (negsuc n) r = tt

set_frames_per_second-Holds :
    (w : ℤ) (r : RenderRequest)
    → Holds
        (λ r'. (is_negative w ≡ false) × (r' ≡ record r { frames_per_second = w }))
        (set_frames_per_second w r)
unfolding set_frames_per_second
set_frames_per_second-Holds (pos n) r = (refl, refl)
set_frames_per_second-Holds (negsuc n) r = tt

set_animation_runtime_in_frames-Holds :
    (w : ℤ) (r : RenderRequest)
    → Holds
        (λ r'. (is_negative w ≡ false) × (r' ≡ record r { animation_runtime = w }))
        (set_animation_runtime_in_frames w r)
unfolding set_animation_runtime_in_frames
set_animation_runtime_in_frames-Holds (pos n) r = (refl, refl)
set_animation_runtime_in_frames-Holds (negsuc n) r = tt

IsAccepted-filled :
    (timestamp : Bytes) (id : Uuid) (w h fps n samples : ℤ) (url output : Bytes)
    (r1 r2 r3 r4 : RenderRequest)
    → (is_negative w ≡ false) × (r1 ≡ record (new_render_request id) { width = w })
    → (is_negative h ≡ false) × (r2 ≡ record r1 { height = h })
    → (is_negative fps ≡ false) × (r3 ≡ record (set_status in_queue r2) { frames_per_second = fps })
    → (is_negative n ≡ false) × (r4 ≡ record r3 { animation_runtime = n })
    → IsAccepted id (
        set_output_file_name output (
          set_scene_file_url url
            (set_created_at_timestamp timestamp (set_samples_per_pixel samples r4))))
unfolding new_render_request set_status set_samples_per_pixel set_created_at_timestamp
    set_scene_file_url set_output_file_name
IsAccepted-filled timestamp id w h fps n samples url output r1 r2 r3 r4 e1 e2 e3 e4 = record {
  same_id = ground (arith, e1.1, e2.1, e3.1, e4.1);
  waits = ground (arith, e1.1, e2.1, e3.1, e4.1);
  wide = ground (arith, e1, e2.1, e3.1, e4.1);
  high = ground (arith, e1.1, e2, e3.1, e4.1);
  rate = ground (arith, e1.1, e2.1, e3, e4.1);
  frames = ground (arith, e1.1, e2.1, e3.1, e4);
  unstarted = ground (arith, e1.1, e2.1, e3.1, e4.1);
}

fill_request-Holds :
    (payload : RenderPayload) (timestamp : Bytes) (id : Uuid)
    → Holds (IsAccepted id) (fill_request payload timestamp (new_render_request id))
unfolding fill_request new_render_request set_status set_samples_per_pixel set_created_at_timestamp
    set_scene_file_url set_output_file_name
fill_request-Holds payload timestamp id =
    let P = IsAccepted id in
    Holds-bind P payload.width _ (Holds-any payload.width) λ w _.
      Holds-bind P _ _ (set_width-Holds w (new_render_request id)) λ r1 e1.
        Holds-bind P payload.height _ (Holds-any payload.height) λ h _.
          Holds-bind P _ _ (set_height-Holds h r1) λ r2 e2.
            Holds-bind P payload.frames_per_second _ (Holds-any payload.frames_per_second) λ fps _.
              Holds-bind P _ _ (set_frames_per_second-Holds fps (set_status in_queue r2)) λ r3 e3.
                Holds-bind P payload.animation_runtime _ (Holds-any payload.animation_runtime)
                  λ n _. Holds-bind P _ _ (set_animation_runtime_in_frames-Holds n r3) λ r4 e4.
                    Holds-bind P payload.samples_per_pixel _ (Holds-any payload.samples_per_pixel)
                      λ samples _.
                        Holds-bind P payload.scene_file_url _ (Holds-any payload.scene_file_url)
                          λ url _.
                            Holds-bind P payload.output_filename _
                              (Holds-any payload.output_filename)
                              λ output _.
                                IsAccepted-filled timestamp id w h fps n samples url output r1 r2 r3
                                  r4 e1 e2 e3 e4

abbrev pub Requested :
    External → Bytes → Ptr → Uuid → System → System × Response JsonObject → Type 0
Requested x json_error p id s outcome =
    ((e : Bytes) × (outcome ≡ (s, bad_request e)))
    ⊎ ((r : RenderRequest) × IsAccepted id r
        × (outcome.0 ≡ submit x p (place p r s))
        × (outcome.1 ≡ created (to_json x.uuid_text (outcome.0.renders.heap p))))

-- The handler either answers 400 and changes nothing, or it submits one request, queued, with the
-- new id and no negative size, rate or length, and answers 201 with its JSON.
pub create_render_request_outcome :
    (x : External) (payload : Option RenderPayload) (json_error timestamp : Bytes) (p : Ptr)
    (id : Uuid) (s : System)
    → Requested x json_error p id s (create_render_request x payload json_error timestamp p id s)
unfolding create_render_request accept submit
create_render_request_outcome x none json_error timestamp p id s = inl (json_error, refl)
create_render_request_outcome x (some payload) json_error timestamp p id s =
    go (fill_request payload timestamp (new_render_request id))
      (fill_request-Holds payload timestamp id) refl
  where
    go :
        (m : Result RenderRequest)
        → Holds (IsAccepted id) m
        → fill_request payload timestamp (new_render_request id) ≡ m
        → Requested x json_error p id s
            (create_render_request x (some payload) json_error timestamp p id s)
    go (throws e) h eq = rw (eq, create_render_request) (inl (e, refl))
    go (ok r) h eq = rw (eq, create_render_request) (inr (r, h, refl, refl))
