-- ===== src/Gpu/Validity/Tracking.antt =====
-- A run of code that makes calls, beside the state that the calls lead to.
use pathological_v.Prelude.{ℕ, ◌≡◌, refl, List, [], ◌∷◌, ◌++◌, length, length-append, arith}
use pathological_v.Prelude.Result.{Result}
use pathological_v.Prelude.Run.{Run, done, throws, faults, out_of_fuel, IsSafe}
use pathological_v.Gpu.Calls.{Call, TracerDriver, Calling, continue, answered, call, note, run}
use pathological_v.Gpu.Validity.{GpuState, fresh_gpu}
use pathological_v.Gpu.Validity.Steps.{CanCall, call_step, AreValid, after_calls}

-- The calls lead to the state, and where `H` holds they are valid, one after the other.
pub record Tracks (H : Type 0) (s : GpuState) (calls : List Call) : Type 0 where
  pub valid : H → AreValid fresh_gpu calls
  pub reached : after_calls fresh_gpu calls ≡ s
  pub counted : length calls ≡ s.next

pub after_calls-append :
    (s : GpuState) (calls : List Call) (c : Call)
    → after_calls s (calls ++ c ∷ []) ≡ call_step c (after_calls s calls)
after_calls-append s [] c = refl
after_calls-append s (x ∷ calls) c = after_calls-append (call_step x s) calls c

AreValid-append :
    (s : GpuState) (calls : List Call) (c : Call)
    → AreValid s calls
    → CanCall (after_calls s calls) c
    → AreValid s (calls ++ c ∷ [])
AreValid-append s [] c h can = (can, tt)
AreValid-append s (x ∷ calls) c h can = (h.0, AreValid-append (call_step x s) calls c h.1 can)

Tracks-append :
    (H : Type 0) (s : GpuState) (calls : List Call) (c : Call)
    → Tracks H s calls
    → (H → CanCall s c)
    → Tracks H (call_step c s) (calls ++ c ∷ [])
Tracks-append H s calls c h can = record {
  valid = λ z. AreValid-append fresh_gpu calls c (h.valid z) (rw h.reached (can z));
  reached = rw (after_calls-append fresh_gpu calls c, h.reached) refl;
  counted = omega (arith, length-append calls (c ∷ []), h.counted);
}

module _ {A B : Type 0} (Q : A × List Call → Type 0) (P : B × List Call → Type 0) where
  pub continue-IsSafe :
      (m : Run (A × List Call)) (f : A → Calling B)
      → IsSafe Q m
      → ((a : A) (calls : List Call) → Q (a, calls) → IsSafe P (f a calls))
      → IsSafe P (continue m f)
  continue-IsSafe (done p) f q next = next (p.0) (p.1) q
  continue-IsSafe (throws e) f q next = tt
  continue-IsSafe faults f q next = absurd q
  continue-IsSafe out_of_fuel f q next = absurd q

module _ {B H : Type 0} (P : B × List Call → Type 0) where
  answered-IsSafe :
      (s : GpuState) (calls : List Call) (c : Call) (r : Result (Unit {0})) (f : ℕ → Calling B)
      → Tracks H s calls
      → (H → CanCall s c)
      → ((calls' : List Call) → Tracks H (call_step c s) calls' → IsSafe P (f s.next calls'))
      → IsSafe P (continue (answered calls c r) f)
  answered-IsSafe s calls c (Result.throws e) f h can next = tt
  answered-IsSafe s calls c (Result.ok u) f h can next =
      rw h.counted (next (calls ++ c ∷ []) (Tracks-append H s calls c h can))

  -- A valid call is made, and what follows goes on from the next state; or it throws.
  pub call-IsSafe :
      (d : TracerDriver) (s : GpuState) (calls : List Call) (c : Call) (f : ℕ → Calling B)
      → Tracks H s calls
      → (H → CanCall s c)
      → ((calls' : List Call) → Tracks H (call_step c s) calls' → IsSafe P (f s.next calls'))
      → IsSafe P (continue (call d c calls) f)
  call-IsSafe d s calls c f h can next = answered-IsSafe s calls c (d.answer calls c) f h can next

  -- The same of a call that does not throw.
  pub note-IsSafe :
      (s : GpuState) (calls : List Call) (c : Call) (f : ℕ → Calling B)
      → Tracks H s calls
      → (H → CanCall s c)
      → ((calls' : List Call) → Tracks H (call_step c s) calls' → IsSafe P (f s.next calls'))
      → IsSafe P (continue (note c calls) f)
  unfolding note
  note-IsSafe s calls c f h can next =
      rw h.counted (next (calls ++ c ∷ []) (Tracks-append H s calls c h can))

pub run-IsSafe :
    {A B : Type 0} (Q : A → Type 0) (P : B × List Call → Type 0) (calls : List Call) (m : Run A)
    (f : A → Calling B)
    → IsSafe Q m
    → ((a : A) → Q a → IsSafe P (f a calls))
    → IsSafe P (continue (run m calls) f)
run-IsSafe Q P calls (done a) f q next = next a q
run-IsSafe Q P calls (throws e) f q next = tt
run-IsSafe Q P calls faults f q next = absurd q
run-IsSafe Q P calls out_of_fuel f q next = absurd q
