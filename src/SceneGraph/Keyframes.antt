-- ===== src/SceneGraph/Keyframes.antt =====
-- Which key frames a sample is made of.
use pathological_v.Prelude.{
  ℕ, zero, suc, ◌+◌, ◌-◌, ◌<◌, ◌≡◌, refl, ◌∙◌, ap, ◌⊎◌, inl, inr, arith, true, false, Bool-cases,
  ◌==◌,
}
use pathological_v.Prelude.Run.{done, Returns, Returns-map}
use pathological_v.Builder.{Glm}
use pathological_v.SceneGraph.{Keys, search, sample}

-- Of two numbers one is at most the other: no NaN is among them.
abbrev pub IsTotal : Glm → Type 0
IsTotal g = (a b : g.Real) → (g.at_most a b ≡ true) ⊎ (g.at_most b a ≡ true)

module _ (g : Glm) {V : Type 0} (keys : Keys g V) (times : ℕ → g.Real) (values : ℕ → V)
    (blend : V → V → g.Real → V) (default : V) (time : g.Real) where
  -- The reads of the key frames succeed.
  pub record AreRead : Type 0 where
    pub time_read : (i : ℕ) → i < keys.count → keys.time_at i ≡ done (times i)
    pub value_read : (i : ℕ) → i < keys.count → keys.value_at i ≡ done (values i)

  -- A sample between the key frames `i` and `i + 1`, which the time lies between.
  pub record IsBetween (v : V) : Type 0 where
    pub index : ℕ
    pub inside : suc index < keys.count
    pub after : g.at_most (times index) time ≡ true
    pub before : g.at_most time (times (suc index)) ≡ true
    pub blended :
        v
        ≡ blend
            (values index)
            (values (suc index))
            (g.over (g.minus time (times index)) (g.minus (times (suc index)) (times index)))

  -- A sample is the value of the first key frame, of the last, or of two neighbours.
  pub data IsSampled (v : V) : Type 0 where
    first : g.at_most time (times 0) ≡ true → v ≡ values 0 → IsSampled v
    last :
        g.at_most (times (keys.count - 1)) time ≡ true → v ≡ values (keys.count - 1) → IsSampled v
    between : IsBetween v → IsSampled v

  module _ (total : IsTotal g) (read : AreRead) where
    not_before-after : (a b : g.Real) → g.at_most a b ≡ false → g.at_most b a ≡ true
    not_before-after a b e = elim (total a b) [ inl yes_at_most ↦ absurd (cc) | inr other ↦ other ]

    search-IsBetween :
        (i left : ℕ)
        → i + left + 1 ≡ keys.count
        → g.at_most (times i) time ≡ true
        → g.at_most (times (i + left)) time ≡ false
        → Returns IsBetween (search g keys blend default time i left)
    unfolding search
    search-IsBetween i zero end after not_after =
        let same : i + 0 ≡ i = omega arith in absurd (cc (ap times same))
    search-IsBetween i (suc left) end after not_after =
        rw (read.time_read i (omega arith), after, read.time_read (suc i) (omega arith))
          (elim (Bool-cases (g.at_most time (times (suc i)))) [
            | inl before ↦
                rw (before, read.value_read i (omega arith), read.value_read (suc i) (omega arith))
                  (record {
                    index = i;
                    inside = omega arith;
                    after = after;
                    before = before;
                    blended = refl;
                  })
            | inr not_before ↦ rw not_before (
                search-IsBetween (suc i) left (omega arith)
                  (not_before-after time (times (suc i)) not_before)
                  (ap (λ k. g.at_most (times k) time) (omega arith) ∙ not_after))
          ])

    -- With readable key frames and no NaN, a channel that has key frames is sampled at one of its ends
    -- or between two neighbours that the time lies between, whatever the order of the key frames: the
    -- default behind the loop is never returned.
    pub sample-IsSampled : 0 < keys.count → Returns IsSampled (sample g keys blend default time)
    unfolding sample
    sample-IsSampled some_keys =
        let not_none : (keys.count == 0) ≡ false = ground arith in
        rw (not_none, read.time_read 0 (omega arith))
          (elim (Bool-cases (g.at_most time (times 0))) [
            | inl early ↦ rw (early, read.value_read 0 (omega arith)) (first early refl)
            | inr started ↦
                rw (started, read.time_read (keys.count - 1) (omega arith))
                  (elim (Bool-cases (g.at_most (times (keys.count - 1)) time)) [
                    | inl late ↦
                        rw (late, read.value_read (keys.count - 1) (omega arith)) (last late refl)
                    | inr inside ↦ rw inside (
                        Returns-map IsBetween IsSampled _
                          (search-IsBetween 0 (keys.count - 1) (omega arith)
                            (not_before-after time (times 0) started)
                            (ap (λ k. g.at_most (times k) time) (omega arith) ∙ inside))
                          (λ v b. between b))
                  ])
          ])
