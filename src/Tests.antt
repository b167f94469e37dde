-- ===== src/Tests.antt =====
-- Concrete data for the theorems' hypotheses: an outside world, a store of renders, and states that
-- the scheduler reaches with them.
pub mod Scheduling
pub mod Waiting
pub mod Gpu
pub mod Clients
pub mod Serving
pub mod Building
pub mod Loading
pub mod Tiling
pub mod Tracing
use pathological_v.Prelude.{ℕ, ◌≡◌, refl, ap, Bytes, codes, Option, none, some, [], ◌∷◌}
use mathlib.Core.Option
use pathological_v.Prelude.Int.{pos}
use pathological_v.Render.{Uuid, RenderRequest, new_render_request}
use pathological_v.Render.History.{Heap}
use pathological_v.Scheduler.{System, External, IsSound}
use pathological_v.Runs.{initial, submit, Reach, start, next, submits, connects, assigns, completes}
use pathological_v.Scheduler.Assign.{assign_jobs}
use pathological_v.Server.{establish_connection}

abbrev pub parse_one : Bytes → Option Uuid
parse_one [] = none
parse_one (u ∷ []) = some u
parse_one (u ∷ v ∷ us) = none

-- A uuid's text is one character; the generator counts; links are the keys.
abbrev pub world : External
world = record {
  uuid_text = λ u. u ∷ [];
  uuid_parse = parse_one;
  job_uuid = λ n. n;
  parse_error = λ text. codes "invalid uuid string";
  presign = λ key. key;
  bucket_name = codes "b";
}

pub world-IsSound : IsSound world
world-IsSound = record { parse_text = λ u. refl; job_uuid_fresh = λ m n e. e }

-- Object `p` has id `p + 1`, two frames and the output name "o".
abbrev pub two_frames : Heap
unfolding new_render_request
two_frames p = record (new_render_request (ℕ.suc p)) {
  frames_per_second = pos 24;
  animation_runtime = pos 2;
  output_file_name = codes "o";
}

abbrev pub one_frame : Heap
one_frame p = record (two_frames p) { animation_runtime = pos 1 }

-- One render is submitted, a worker connects and gets its first frame.
abbrev pub submitted : Heap → System
submitted heap = submit world 0 (initial heap)

abbrev pub connected : Heap → System
connected heap = (establish_connection (codes "w") (codes "host") 80 (submitted heap)).0

abbrev pub started : Heap → System
started heap = assign_jobs world (connected heap)
