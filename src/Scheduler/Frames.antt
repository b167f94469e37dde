-- ===== src/Scheduler/Frames.antt =====
-- Where a frame can be between its submission and its completion, counted: in the queue, in the map
-- of dispatched jobs, or missing from the progress of its render.
use pathological_v.Prelude.{
  ℕ, zero, suc, ◌+◌, ◌≤◌, ◌≡◌, refl, Bytes, bytes_discrete, true, false, Option, none, some, List,
  [], ◌∷◌, ◌++◌, ite, ℕ_discrete, arith, ltb, leb, ◌&&◌, if◌then◌else◌, get_elem?, set, replicate,
}
use pathological_v.Prelude.Assoc.{weigh}
use pathological_v.Prelude.Int.{ℤ}
use pathological_v.Render.History.{Ptr, Heap}
use pathological_v.Scheduler.{FrameJob, FrameJobContext, RenderProgress, External}
use pathological_v.Scheduler.Jobs.{frame_jobs}
use pathological_v.Scheduler.Complete.{is_missing}

-- 1 for frame `i` of render `r`, and 0 for any other.
unfoldable pub hit : Bytes → ℕ → Bytes → ℕ → ℕ
hit r' i' r i = ite (bytes_discrete r' r) (ite (ℕ_discrete i' i) 1 0) 0

-- The id of the render that a pointer names, as a text.
abbrev pub ids : External → Heap → Ptr → Bytes
ids x heap p = x.uuid_text (heap p).id

unfoldable pub queued : (Ptr → Bytes) → Bytes → ℕ → List FrameJob → ℕ
queued id r i [] = 0
queued id r i (j ∷ q) = hit (id j.render_request) j.frame_index r i + queued id r i q

unfoldable pub in_flight : Bytes → ℕ → List (Bytes × FrameJobContext) → ℕ
unfolding bytes_discrete weigh
in_flight r i = weigh bytes_discrete (λ c. hit c.render_id c.frame_index r i)

unfoldable pub missing_at : ℕ → Option RenderProgress → ℕ
missing_at i none = 0
missing_at i (some p) = if is_missing (get_elem? p.frame_links i) then 1 else 0

pub queued-append :
    (id : Ptr → Bytes) (r : Bytes) (i : ℕ) (q q' : List FrameJob)
    → queued id r i (q ++ q') ≡ queued id r i q + queued id r i q'
unfolding queued
queued-append id r i [] q' = omega arith
queued-append id r i (j ∷ q) q' = omega (arith, queued-append id r i q q')

-- The loop of `addJob` queues each frame once.
pub queued-frame_jobs :
    (id : Ptr → Bytes) (r : Bytes) (i : ℕ) (p : Ptr) (fps : ℤ) (k left : ℕ)
    → k + left ≤ 4294967296
    → queued id r i (frame_jobs p fps k left)
      ≡ ite (bytes_discrete (id p) r) (if leb k i && ltb i (k + left) then 1 else 0) 0
unfolding queued frame_jobs hit
queued-frame_jobs id r i p fps k zero h = ground arith
queued-frame_jobs id r i p fps k (suc left) h =
    ground (arith, queued-frame_jobs id r i p fps (k + 1) left)

pub is_missing-replicate :
    (n i : ℕ) → is_missing (get_elem? (replicate {A = Option Bytes} n none) i) ≡ ltb i n
is_missing-replicate zero i = ground arith
is_missing-replicate (suc n) zero = ground arith
is_missing-replicate (suc n) (suc i) = ground (arith, is_missing-replicate n i)

-- How many links are missing.
unfoldable pub count_missing : List (Option Bytes) → ℕ
count_missing [] = 0
count_missing (none ∷ ls) = suc (count_missing ls)
count_missing (some l ∷ ls) = count_missing ls

pub count_missing-replicate : (n : ℕ) → count_missing (replicate n none) ≡ n
unfolding count_missing
count_missing-replicate zero = refl
count_missing-replicate (suc n) = omega (arith, count_missing-replicate n)

pub count_missing-set :
    (ls : List (Option Bytes)) (i : ℕ) (l : Bytes)
    → is_missing (get_elem? ls i) ≡ true
    → count_missing (set ls i (some l)) + 1 ≡ count_missing ls
unfolding count_missing
count_missing-set [] i l h = cc
count_missing-set (none ∷ ls) zero l h = omega arith
count_missing-set (none ∷ ls) (suc i) l h = omega (arith, count_missing-set ls i l h)
count_missing-set (some x ∷ ls) zero l h = cc
count_missing-set (some x ∷ ls) (suc i) l h = omega (arith, count_missing-set ls i l h)

pub count_missing-zero :
    (ls : List (Option Bytes)) (i : ℕ) → count_missing ls ≡ 0 → is_missing (get_elem? ls i) ≡ false
unfolding count_missing
count_missing-zero [] i h = refl
count_missing-zero (none ∷ ls) i h = absurd (omega arith)
count_missing-zero (some x ∷ ls) zero h = refl
count_missing-zero (some x ∷ ls) (suc i) h = count_missing-zero ls i h

pub is_missing-set :
    (ls : List (Option Bytes)) (i j : ℕ) (l : Bytes)
    → is_missing (get_elem? (set ls i (some l)) j)
      ≡ ite (ℕ_discrete i j) false (is_missing (get_elem? ls j))
is_missing-set [] i j l = ground arith
is_missing-set (x ∷ ls) zero zero l = ground arith
is_missing-set (x ∷ ls) zero (suc j) l = ground arith
is_missing-set (x ∷ ls) (suc i) zero l = ground arith
is_missing-set (x ∷ ls) (suc i) (suc j) l = ground (arith, is_missing-set ls i j l)
