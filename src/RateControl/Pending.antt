-- ===== src/RateControl/Pending.antt =====
-- The invariant of the rate control, and its queues of pending changes.
use motown.Base.{ℕ, ◌+◌, ◌^◌, ◌<◌, ◌≡◌, ◌≢◌, false, List, [], ◌∷◌, ◌++◌, arith, ◌==◌}
use motown.Base.Int.{ℤ, pos, pos_part, neg_part}
use motown.LinearTransform.{LinearTransform, make_transform}
use motown.LinearTransform.Euclid.{make_ratio_positive, make_transform-ratio}
use motown.RateControl.{RateControl, rest_of, last_of, is_stale, next_generation}

infix 50 ◌<ℤ◌
abbrev pub ◌<ℤ◌ : ℤ → ℤ → Type 0
a <ℤ b = pos_part a + neg_part b < pos_part b + neg_part a

-- Each change is strictly after the one in front of it.
abbrev pub Ascending : (LinearTransform → ℤ) → List LinearTransform → Type 0
Ascending time [] = Unit
Ascending time (t ∷ []) = Unit
Ascending time (t ∷ u ∷ rest) = (time t <ℤ time u) × Ascending time (u ∷ rest)

abbrev pub All : (LinearTransform → Type 0) → List LinearTransform → Type 0
All P [] = Unit
All P (t ∷ rest) = P t × All P rest

-- A transform that is defined everywhere.
abbrev pub HasRate : LinearTransform → Type 0
HasRate t = 0 < t.ratio.denominator

-- A change that was scheduled by the reference timeline.
abbrev pub IsReferenceChange : LinearTransform → Type 0
IsReferenceChange t = HasRate t × (t.a_zero ≡ pos 0)

pub record IsValid (s : RateControl) : Type 0 where
  pub rate : HasRate s.current
  pub target_rates : All HasRate s.target_pending
  pub reference_rates : All IsReferenceChange s.reference_pending
  pub target_order : Ascending (λ t. t.a_zero) s.target_pending
  pub reference_order : Ascending (λ t. t.b_zero) s.reference_pending
  pub generation : (0 < s.generation) × (s.generation < 2 ^ 32)

pub next_generation_range : (g : ℕ) → (0 < next_generation g) × (next_generation g < 2 ^ 32)
unfolding next_generation
next_generation_range g = ground arith

pub All-rest_of :
    (P : LinearTransform → Type 0) (ts : List LinearTransform) → All P ts → All P (rest_of ts)
All-rest_of P [] h = tt
All-rest_of P (t ∷ rest) h = h.1

pub Ascending-rest_of :
    (time : LinearTransform → ℤ) (ts : List LinearTransform)
    → Ascending time ts
    → Ascending time (rest_of ts)
Ascending-rest_of time [] h = tt
Ascending-rest_of time (t ∷ []) h = tt
Ascending-rest_of time (t ∷ u ∷ rest) h = h.1

pub All-append :
    (P : LinearTransform → Type 0) (ts us : List LinearTransform)
    → All P ts
    → All P us
    → All P (ts ++ us)
All-append P [] us h k = k
All-append P (t ∷ ts) us h k = (h.0, All-append P ts us h.1 k)

-- A change that is not stale goes behind the others.
pub Ascending-append :
    (time : LinearTransform → ℤ) (ts : List LinearTransform) (u : LinearTransform)
    → is_stale time ts (time u) ≡ false
    → Ascending time ts
    → Ascending time (ts ++ (u ∷ []))
unfolding is_stale last_of
Ascending-append time [] u h a = tt
Ascending-append time (t ∷ []) u h a = (ground arith, tt)
Ascending-append time (t ∷ v ∷ rest) u h a = (a.0, Ascending-append time (v ∷ rest) u h a.1)

pub made_positive : (a : ℤ) (n d : ℕ) (b : ℤ) → d ≢ 0 → HasRate (make_transform a n d b)
made_positive a n d b h = rw (make_transform-ratio a n d b) (make_ratio_positive n d h)

pub made-HasRate : (a : ℤ) (n d : ℕ) (b : ℤ) → (d == 0) ≡ false → HasRate (make_transform a n d b)
made-HasRate a n d b h = made_positive a n d b (ground arith)
