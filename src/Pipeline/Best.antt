-- ===== src/Pipeline/Best.antt =====
-- FindBestLpcm finds an LPCM set of the highest score.
use motown.Base.{
  ℕ, ◌≤◌, ◌<◌, ◌≡◌, refl, sym, subst, ◌⊎◌, inl, inr, true, Bool-cases, Option, none, some,
  Option-cases, List, [], ◌∷◌, ◌↔◌, arith, ltb,
}
use motown.Stream.{AudioDetails, AudioSetDetails, StreamTypeSet, range_contains}
use motown.Pipeline.{score, lpcm_set, find_best_from, find_best}

-- The audio sets in a list that include the LPCM encoding.
pub data Offered (s : AudioSetDetails) : List StreamTypeSet → Type 0 where
  here :
      {t : StreamTypeSet} {rest : List StreamTypeSet} → lpcm_set t ≡ some s → Offered s (t ∷ rest)
  there : {t : StreamTypeSet} {rest : List StreamTypeSet} → Offered s rest → Offered s (t ∷ rest)

-- No offered set scores more than a bound.
abbrev pub Bounded : AudioDetails → List StreamTypeSet → ℕ → Type 0
Bounded a sets bound = (s : AudioSetDetails) → Offered s sets → score a s ≤ bound

-- A set that was found has the highest score, and the score is positive; where none was found, all
-- the scores are zero.
abbrev pub IsBest : AudioDetails → List StreamTypeSet → Option AudioSetDetails → Type 0
IsBest a sets none = Bounded a sets 0
IsBest a sets (some s) = Offered s sets × (0 < score a s) × Bounded a sets (score a s)

-- What the loop finds: the best set so far, or a later one with a higher score.
abbrev Better :
    AudioDetails → Option AudioSetDetails → ℕ → List StreamTypeSet → Option AudioSetDetails → Type 0
Better a best bound sets o =
    ((o ≡ best) × Bounded a sets bound)
    ⊎ ((s : AudioSetDetails) × (o ≡ some s)
        × Offered s sets
        × (bound < score a s)
        × Bounded a sets (score a s))

Bounded-none :
    (a : AudioDetails) (t : StreamTypeSet) (rest : List StreamTypeSet) (bound : ℕ)
    → lpcm_set t ≡ none
    → Bounded a rest bound
    → Bounded a (t ∷ rest) bound
Bounded-none a t rest bound e h s (Offered.here f) = ground arith
Bounded-none a t rest bound e h s (Offered.there o) = h s o

Bounded-some :
    (a : AudioDetails) (t : StreamTypeSet) (x : AudioSetDetails) (rest : List StreamTypeSet)
    (bound : ℕ)
    → lpcm_set t ≡ some x
    → score a x ≤ bound
    → Bounded a rest bound
    → Bounded a (t ∷ rest) bound
Bounded-some a t x rest bound e le h s (Offered.here f) =
    let same : x ≡ s = cc in subst (λ y. score a y ≤ bound) same le
Bounded-some a t x rest bound e le h s (Offered.there o) = h s o

Bounded-weaken :
    (a : AudioDetails) (sets : List StreamTypeSet) (m n : ℕ)
    → m ≤ n
    → Bounded a sets m
    → Bounded a sets n
Bounded-weaken a sets m n le h s o = let k = h s o in omega arith

find_best_from-Better :
    (a : AudioDetails) (best : Option AudioSetDetails) (bound : ℕ) (sets : List StreamTypeSet)
    → Better a best bound sets (find_best_from a best bound sets)
unfolding find_best_from
find_best_from-Better a best bound [] = inl (refl, λ s o. elim o [ ])
find_best_from-Better a best bound (t ∷ rest) = elim (Option-cases (lpcm_set t)) [
  | inl e ↦
      rw (e, find_best_from)
        (elim (find_best_from-Better a best bound rest) [
          | inl (same, h) ↦ inl (same, Bounded-none a t rest bound e h)
          | inr (s, found, o, lt, h) ↦
              inr (s, found, Offered.there o, lt, Bounded-none a t rest (score a s) e h)
        ])
  | inr (x, e) ↦ elim (Bool-cases (ltb bound (score a x))) [
    | inl lt ↦
        rw (e, find_best_from, lt)
          (elim (find_best_from-Better a (some x) (score a x) rest) [
            | inl (same, h) ↦ inr (
              x,
              same,
              Offered.here e,
              ground arith,
              Bounded-some a t x rest (score a x) e (omega arith) h,
            )
            | inr (s, found, o, more, h) ↦ inr (
              s,
              found,
              Offered.there o,
              ground arith,
              Bounded-some a t x rest (score a s) e (omega arith) h,
            )
          ])
    | inr ge ↦
        rw (e, find_best_from, ge)
          (elim (find_best_from-Better a best bound rest) [
            | inl (same, h) ↦ inl (same, Bounded-some a t x rest bound e (ground arith) h)
            | inr (s, found, o, lt, h) ↦ inr (
              s,
              found,
              Offered.there o,
              lt,
              Bounded-some a t x rest (score a s) e (ground arith) h,
            )
          ])
  ]
]

-- FindBestLpcm returns an audio set that includes the LPCM encoding and scores at least as high as
-- any other of them, and more than zero; or all of them score zero, and it returns the null
-- pointer.
pub find_best-IsBest :
    (a : AudioDetails) (sets : List StreamTypeSet) → IsBest a sets (find_best a sets)
unfolding find_best
find_best-IsBest a sets = elim (find_best_from-Better a none 0 sets) [
  | inl (same, h) ↦ subst (IsBest a sets) (sym same) h
  | inr (s, found, o, lt, h) ↦ subst (IsBest a sets) (sym found) (o, lt, h)
]

-- The score of a type for a set is positive exactly where the channels and the frame rate of the
-- type are in the set's ranges.
pub score_positive :
    (a : AudioDetails) (s : AudioSetDetails)
    → (0 < score a s) ↔ (
        (range_contains s.channels a.channels ≡ true)
        × (range_contains s.frames_per_second a.frames_per_second ≡ true))
unfolding score
score_positive a s = ground arith
