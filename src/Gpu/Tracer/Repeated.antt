-- ===== src/Gpu/Tracer/Repeated.antt =====
-- What `saveImage` leaves behind: the image is not moved back to the layout that it expects.
use pathological_v.Prelude.{
  Bool, ℕ, ◌<◌, ◌*◌, u32, ◌≡◌, sym, ap, ◌∙◌, Bytes, List, [], ◌∷◌, ◌++◌, length,
}
use pathological_v.Prelude.Result.{Result}
use pathological_v.Prelude.Run.{IsSafe}
use pathological_v.Tiles
use pathological_v.Tiles.{Tile}
use pathological_v.Gpu.Context.{RtProperties}
use pathological_v.Gpu.ShaderTable.{IsSound}
use pathological_v.Gpu.ShaderTable.Layout.{IsSupported}
use pathological_v.Gpu.ShaderTable.{ShaderTable}
use pathological_v.Gpu.Calls.{
  general, transfer_src_optimal, CreateInfo, Call, create, submit, write_png, TracerDriver, Calling,
  continue, answered, call, note,
}
use pathological_v.Gpu.Validity.{GpuState, fresh_gpu}
use pathological_v.Gpu.Validity.Steps.{CanCall, AreValid, after_calls, call_step}
use pathological_v.Gpu.Validity.Tracking.{after_calls-append, continue-IsSafe}
use pathological_v.Gpu.Tracer.Setup.{Counts}
use pathological_v.Gpu.Tracer.Images.{save_commands, save_image, trace_scene}
use pathological_v.Gpu.Tracer.Whole.{Traced, trace_scene-Traced}
use pathological_v.Gpu.Tracer.Descriptors.{whole_tracer}
use pathological_v.Gpu.Tracer.Saving.{Saved, staging_info}

AreValid-last :
    (s : GpuState) (calls : List Call) (c : Call)
    → AreValid s (calls ++ c ∷ [])
    → AreValid s calls × CanCall (after_calls s calls) c
AreValid-last s [] c h = (tt, h.0)
AreValid-last s (x ∷ calls) c h =
    let (before, last) = AreValid-last (call_step x s) calls c (h.1) in ((h.0, before), last)

answered-IsSafe :
    {B : Type 0} (P : B × List Call → Type 0) (calls : List Call) (c : Call) (r : Result (Unit {0}))
    (f : ℕ → Calling B)
    → IsSafe P (f (length calls) (calls ++ c ∷ []))
    → IsSafe P (continue (answered calls c r) f)
answered-IsSafe P calls c (Result.ok u) f next = next
answered-IsSafe P calls c (Result.throws e) f next = tt

-- A call is made, valid or not, and what follows goes on; or it throws.
made-IsSafe :
    {B : Type 0} (P : B × List Call → Type 0) (d : TracerDriver) (calls : List Call) (c : Call)
    (f : ℕ → Calling B)
    → IsSafe P (f (length calls) (calls ++ c ∷ []))
    → IsSafe P (continue (call d c calls) f)
made-IsSafe P d calls c f next = answered-IsSafe P calls c (d.answer calls c) f next

note-IsSafe :
    {B : Type 0} (P : B × List Call → Type 0) (calls : List Call) (c : Call) (f : ℕ → Calling B)
    → IsSafe P (f (length calls) (calls ++ c ∷ []))
    → IsSafe P (continue (note c calls) f)
unfolding note
note-IsSafe P calls c f next = next

general-other : general ≡ transfer_src_optimal → ⊥
general-other e = cc e

save-Invalid :
    (w h k : ℕ) (table : ShaderTable) (calls : List Call) (info : CreateInfo) (last : Call)
    → (after_calls fresh_gpu calls).layouts 8 ≡ transfer_src_optimal
    → ¬ AreValid fresh_gpu (
        ((calls ++ create info ∷ []) ++ submit (save_commands (whole_tracer w h table) 8 k) ∷ [])
        ++ last ∷ [])
save-Invalid w h k table calls info last left valid =
    let (before, can_last) =
      AreValid-last fresh_gpu
        ((calls ++ create info ∷ []) ++ submit (save_commands (whole_tracer w h table) 8 k) ∷ [])
        last valid in
    let (before', can) =
      AreValid-last fresh_gpu (calls ++ create info ∷ [])
        (submit (save_commands (whole_tracer w h table) 8 k)) before in
    let in_general : (after_calls fresh_gpu (calls ++ create info ∷ [])).layouts 8 ≡ general =
      can.0.0 in
    let same : (after_calls fresh_gpu (calls ++ create info ∷ [])).layouts 8
        ≡ (after_calls fresh_gpu calls).layouts 8 =
      ap (λ (s : GpuState). s.layouts 8) (after_calls-append fresh_gpu calls (create info)) in
    general-other (sym in_general ∙ same ∙ left)

save_image-Invalid :
    {H : Type 0} (d : TracerDriver) (w h : ℕ) (table : ShaderTable) (first second : Bytes)
    (written : Bool) (tiles : List Tile) (calls : List Call)
    → Saved H w h table first written tiles calls
    → IsSafe (λ r. ¬ AreValid fresh_gpu (r.1)) (save_image d (whole_tracer w h table) second calls)
unfolding save_image
save_image-Invalid d w h table first second written tiles calls (s, tracks, saved, left, tables) =
    let end = λ (r : Unit {0} × List Call). ¬ AreValid fresh_gpu (r.1) in
    let info = create (staging_info w h) in
    let copy = submit (save_commands (whole_tracer w h table) 8 (length calls)) in
    let last =
      write_png second (u32 w) (u32 h) 4 (length calls) (u32 (w * 4)) (d.writes_png second) in
    made-IsSafe end d calls info _ (
      made-IsSafe end d (calls ++ info ∷ []) copy _ (
        note-IsSafe end ((calls ++ info ∷ []) ++ copy ∷ []) last _ (
          save-Invalid w h (length calls) table calls (staging_info w h) last
            (ap (λ (s' : GpuState). s'.layouts 8) tracks.reached ∙ left))))

-- With a driver that does what it documents, and properties that are supported, a second `saveImage`
-- after the tracing of a scene throws, or makes a call that is not valid: its barrier names the general
-- layout, which the image is no longer in.
pub save_again-Invalid :
    {V M : Type 0} (d : TracerDriver) (p : RtProperties) (j k : ℕ) (vertices : List V)
    (indices : List ℕ) (materials : List M) (material_indices : List ℕ)
    (width height samples max_tile : ℕ) (first second : Bytes)
    → IsSound d.tables
    → IsSupported j k p
    → width < 536870912
    → height < 536870912
    → IsSafe
        (λ r. ¬ AreValid fresh_gpu (r.1))
        (continue
          (trace_scene d p vertices indices materials material_indices width height samples max_tile
            first [])
          (λ t. save_image d t second))
save_again-Invalid d p j k vs is ms mis w h samples max_tile first second sound supported low high =
    let n : Counts = (length vs, length is, length ms, length mis) in
    continue-IsSafe (Traced d p j k sound supported n w h max_tile first)
      (λ r. ¬ AreValid fresh_gpu (r.1)) _ _
      (trace_scene-Traced d p j k sound supported vs is ms mis w h samples max_tile first low high)
      λ t calls q. rw (q.1) (
        save_image-Invalid d w h (q.0) first second (d.writes_png first)
          (Tiles.render w h max_tile).launches calls (q.3))
