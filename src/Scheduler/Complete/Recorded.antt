-- ===== src/Scheduler/Complete/Recorded.antt =====
-- A render's progress as a map of its frames to their links, in which the first link of a frame stays.
use pathological_v.Prelude.{
  ℕ, zero, suc, ◌+◌, ◌<◌, ◌≡◌, ◌≢◌, refl, ◌∙◌, sym, ap, Bytes, true, false, Option, none, some, inl,
  inr, ◌↔◌, arith, List, [], ◌∷◌, ltb, if◌then◌else◌, ite, ℕ_discrete, get_elem?, set, replicate,
  Option-cases, Bool-cases, dec_lt,
}
use mathlib.Core.Option
use pathological_v.Scheduler.{RenderProgress}
use pathological_v.Scheduler.Jobs.{new_progress}
use pathological_v.Scheduler.Complete.{is_missing, land, all_frames_done}
use pathological_v.Scheduler.Frames.{
  count_missing, count_missing-replicate, count_missing-set, count_missing-zero,
}

-- The specification: a frame keeps the first link that it is given.
abbrev pub LinkMap : Type 0
LinkMap = ℕ → Option Bytes

abbrev pub or_else : Option Bytes → Option Bytes → Option Bytes
or_else (some l) o = some l
or_else none o = o

abbrev pub record_link : ℕ → Bytes → LinkMap → LinkMap
record_link i link links j = or_else (links j) (ite (ℕ_discrete i j) (some link) none)

abbrev pub recorded : List (ℕ × Bytes) → LinkMap → LinkMap
recorded [] links = links
recorded ((i, link) ∷ events) links = recorded events (record_link i link links)

-- The same events at the detailed progress.
unfoldable pub land_all : List (ℕ × Bytes) → RenderProgress → RenderProgress
unfolding land
land_all [] p = p
land_all ((i, link) ∷ events) p = land_all events (land i link p)

-- `p` stands for the map `links` of the frames below its total.
pub record Represents (n : ℕ) (links : LinkMap) (p : RenderProgress) : Type 0 where
  pub total : p.total_frames ≡ n
  pub counted : p.frames_completed + count_missing p.frame_links ≡ n
  pub has : (j : ℕ) → get_elem? p.frame_links j ≡ (if ltb j n then some (links j) else none)

get_elem?-set :
    (ls : List (Option Bytes)) (i j : ℕ) (v : Option Bytes)
    → get_elem? (set ls i v) j
      ≡ ite (ℕ_discrete i j) (Option.map (λ _. v) (get_elem? ls j)) (get_elem? ls j)
get_elem?-set [] i j v = ground arith
get_elem?-set (x ∷ ls) zero zero v = ground arith
get_elem?-set (x ∷ ls) zero (suc j) v = ground arith
get_elem?-set (x ∷ ls) (suc i) zero v = ground arith
get_elem?-set (x ∷ ls) (suc i) (suc j) v = ground (arith, get_elem?-set ls i j v)

get_elem?-replicate :
    (n j : ℕ)
    → get_elem? (replicate {A = Option Bytes} n none) j ≡ (if ltb j n then some none else none)
get_elem?-replicate zero j = ground arith
get_elem?-replicate (suc n) zero = ground arith
get_elem?-replicate (suc n) (suc j) = ground (arith, get_elem?-replicate n j)

new_progress-Represents : (n : ℕ) → n < 4294967296 → Represents n (λ i. none) (new_progress n)
unfolding new_progress
new_progress-Represents n small = record {
  total = ground arith;
  counted = omega (arith, count_missing-replicate n);
  has = get_elem?-replicate n;
}

in_range :
    (n i : ℕ) (o : Option Bytes)
    → is_missing (if ltb i n then some o else none) ≡ true
    → (i < n) × (o ≡ none)
in_range n i none e = ground arith
in_range n i (some l) e = ground arith

written :
    (n : ℕ) (links : LinkMap) (p : RenderProgress) (i j : ℕ) (link : Bytes)
    → Represents n links p
    → is_missing (get_elem? p.frame_links i) ≡ true
    → get_elem? (set p.frame_links i (some link)) j
      ≡ (if ltb j n then some (record_link i link links j) else none)
written n links p i j link r missing =
    let (low, empty) = in_range n i (links i) (ap is_missing (sym (r.has i)) ∙ missing) in
    elim (ℕ_discrete i j) [
      | yes same ↦
          ground (
            arith,
            same,
            get_elem?-set p.frame_links i j (some link),
            r.has j,
            empty,
            ap links same,
          )
      | no other ↦ elim (Option-cases (links j)) [
        | inl e ↦ ground (arith, other, get_elem?-set p.frame_links i j (some link), r.has j, e)
        | inr (l, e) ↦
            ground (arith, other, get_elem?-set p.frame_links i j (some link), r.has j, e)
      ]
    ]

kept :
    (n : ℕ) (links : LinkMap) (p : RenderProgress) (i j : ℕ) (link : Bytes)
    → Represents n links p
    → is_missing (get_elem? p.frame_links i) ≡ false
    → get_elem? p.frame_links j ≡ (if ltb j n then some (record_link i link links j) else none)
kept n links p i j link r there = elim (Option-cases (links j)) [
  | inr (l, e) ↦ ground (arith, r.has j, e)
  | inl e ↦ elim (ℕ_discrete i j) [
    | yes same ↦
        ground (arith, same, r.has j, ap links same, e, ap is_missing (sym (r.has i)) ∙ there)
    | no other ↦ ground (arith, other, r.has j, e)
  ]
]

land-Represents :
    (n : ℕ) (links : LinkMap) (p : RenderProgress) (i : ℕ) (link : Bytes)
    → n < 4294967296
    → Represents n links p
    → Represents n (record_link i link links) (land i link p)
unfolding land
land-Represents n links p i link small r =
    elim (Bool-cases (is_missing (get_elem? p.frame_links i))) [
      | inl missing ↦ rw missing (record {
        total = r.total;
        counted = omega (arith, r.counted, count_missing-set p.frame_links i link missing);
        has = λ j. written n links p i j link r missing;
      })
      | inr there ↦ rw there (record {
        total = r.total;
        counted = r.counted;
        has = λ j. kept n links p i j link r there;
      })
    ]

land_all-Represents :
    (n : ℕ) (events : List (ℕ × Bytes)) (links : LinkMap) (p : RenderProgress)
    → n < 4294967296
    → Represents n links p
    → Represents n (recorded events links) (land_all events p)
unfolding land_all
land_all-Represents n [] links p small r = r
land_all-Represents n ((i, link) ∷ events) links p small r =
    land_all-Represents n events (record_link i link links) (land i link p) small
      (land-Represents n links p i link small r)

none_missing :
    (ls : List (Option Bytes))
    → ((j : ℕ) → is_missing (get_elem? ls j) ≡ false)
    → count_missing ls ≡ 0
unfolding count_missing
none_missing [] h = refl
none_missing (none ∷ ls) h = absurd (cc (h 0))
none_missing (some l ∷ ls) h = none_missing ls (λ j. h (suc j))

not_missing : (o : Option Bytes) → is_missing (some o) ≡ false → o ≢ none
not_missing none e h = absurd (cc)
not_missing (some l) e h = absurd (cc)

has_all :
    (n j : ℕ) (o : Option Bytes)
    → (j < n → o ≢ none)
    → is_missing (if ltb j n then some o else none) ≡ false
has_all n j (some l) h = ground arith
has_all n j none h = elim (dec_lt j n) [
  | yes low ↦ absurd (h low refl)
  | no high ↦ ground (arith, high)
]

Represents-done :
    (n : ℕ) (links : LinkMap) (p : RenderProgress)
    → Represents n links p
    → (all_frames_done p ≡ true) ↔ ((j : ℕ) → j < n → links j ≢ none)
unfolding all_frames_done
Represents-done n links p r = (
  λ done j low.
      let full : count_missing p.frame_links ≡ 0 = ground (arith, done, r.total, r.counted) in
      not_missing (links j) (ground (arith, low, r.has j, count_missing-zero p.frame_links j full)),
  λ all.
      let full =
        none_missing p.frame_links λ j. ap is_missing (r.has j) ∙ has_all n j (links j) (all j) in
      ground (arith, full, r.total, r.counted),
)

-- The progress of a render is a map in which the first link of each frame stays: from the progress of `n`
-- frames, fewer than 2^32, any sequence of completions in any order, with repeats and frames out of
-- range, leaves the links of that map at the places of the frames, and counts as done exactly when every
-- frame has one.
pub land_all-refines :
    (n : ℕ) (events : List (ℕ × Bytes))
    → n < 4294967296
    → let p = land_all events (new_progress n) in
      let links = recorded events (λ i. none) in
      ((j : ℕ) → get_elem? p.frame_links j ≡ (if ltb j n then some (links j) else none))
      × ((all_frames_done p ≡ true) ↔ ((j : ℕ) → j < n → links j ≢ none))
land_all-refines n events small =
    let r =
      land_all-Represents n events (λ i. none) (new_progress n) small
        (new_progress-Represents n small) in
    (r.has, Represents-done n (recorded events (λ i. none)) (land_all events (new_progress n)) r)
