-- ===== src/LinearTransform/Transform.antt =====
-- What DoForwardTransform and DoReverseTransform compute.
use motown.Base.{
  ℕ, ◌-◌, ◌%◌, ◌^◌, ◌≤◌, ◌<◌, ◌≡◌, ◌⊎◌, inl, inr, Bool, true, false, ◌&&◌, not, Option, none, some,
  arith, leb, ltb, ◌==◌, if◌then◌else◌, Bool-cases, ne→==,
}
use motown.Base.Int.{ℤ, pos, negsuc, ltb_ℤ, ◌+ℤ◌}
use motown.LinearTransform.{
  LinearTransform, wrap_int64, int64_of_bits, is_negative, sum_check_ovfl, abs_int64, signed,
  rebase, distance, linear_transform, scale_u64_to_u64, do_forward_transform, do_reverse_transform,
}
use motown.LinearTransform.Int64.{IsInt64, Summed, sum_check_ovfl-Summed}
use motown.LinearTransform.Scaled.{rounded, scale_u64_to_u64_lem}

-- Inside the range of an int64_t, its least value left out.
abbrev pub IsInside : ℤ → Type 0
IsInside (pos n) = n < 2 ^ 63
IsInside (negsuc n) = n < 2 ^ 63 - 1

abbrev pub least_int64 : ℤ
least_int64 = negsuc (2 ^ 63 - 1)

-- A result that is given is the exact one, and in range. None is given only where the exact result is
-- outside, or where the basis that is added is the least int64_t.
abbrev pub Transformed : ℤ → ℤ → Option ℤ → Type 0
Transformed exact basis none = (¬ IsInside exact) ⊎ (basis ≡ least_int64)
Transformed exact basis (some z) = (z ≡ exact) × IsInt64 exact

IsInside-IsInt64 : (z : ℤ) → IsInside z → IsInt64 z
IsInside-IsInt64 (pos n) h = h
IsInside-IsInt64 (negsuc n) h = omega arith

Summed-Transformed : (a b : ℤ) (o : Option ℤ) → Summed a b o → Transformed (a +ℤ b) b o
Summed-Transformed a b none h = inl (λ (i : IsInside (a +ℤ b)). h (IsInside-IsInt64 (a +ℤ b) i))
Summed-Transformed a b (some z) h = h

-- Where the scaled distance needs its top bit.
abbrev rebase_large : Bool → ℕ → ℤ → Option ℤ
rebase_large is_neg scaled basis2 =
    if is_neg && is_negative basis2
    then none
    else if not is_neg && not (is_negative basis2)
    then none
    else if not (ltb_ℤ (pos (scaled % 2 ^ 63)) (abs_int64 basis2))
    then none
    else some (wrap_int64 (signed is_neg scaled +ℤ basis2))

rebase_large-Transformed :
    (is_neg : Bool) (scaled : ℕ) (basis2 : ℤ)
    → 2 ^ 63 ≤ scaled
    → scaled < 2 ^ 64
    → IsInt64 basis2
    → Transformed (signed is_neg scaled +ℤ basis2) basis2 (rebase_large is_neg scaled basis2)
unfolding abs_int64 wrap_int64 int64_of_bits ◌+ℤ◌
rebase_large-Transformed true scaled (pos b) l h hb = ground arith
rebase_large-Transformed true scaled (negsuc b) l h hb = inl (λ i. ground arith)
rebase_large-Transformed false scaled (pos b) l h hb = inl (λ i. ground arith)
rebase_large-Transformed false scaled (negsuc b) l h hb = elim (Bool-cases (b == 2 ^ 63 - 1)) [
  | inl e ↦ ground arith
  | inr e ↦ ground arith
]

signed-IsInt64 : (is_neg : Bool) (n : ℕ) → n < 2 ^ 63 → IsInt64 (signed is_neg n)
signed-IsInt64 true n h = ground arith
signed-IsInt64 false n h = h

rebase-Transformed :
    (is_neg : Bool) (scaled : ℕ) (basis2 : ℤ)
    → scaled < 2 ^ 64
    → IsInt64 basis2
    → Transformed (signed is_neg scaled +ℤ basis2) basis2 (rebase is_neg scaled basis2)
unfolding rebase
rebase-Transformed is_neg scaled basis2 h hb = elim (Bool-cases (leb (2 ^ 63) scaled)) [
  | inl e ↦ rw e (rebase_large-Transformed is_neg scaled basis2 (ground arith) h hb)
  | inr e ↦ rw e (
      Summed-Transformed (signed is_neg scaled) basis2
        (sum_check_ovfl (signed is_neg scaled) basis2)
        (sum_check_ovfl-Summed (signed is_neg scaled) basis2
          (signed-IsInt64 is_neg scaled (ground arith)) hb))
]

too_far :
    (is_neg : Bool) (scaled : ℕ) (basis2 : ℤ)
    → 2 ^ 64 ≤ scaled
    → IsInt64 basis2
    → ¬ IsInside (signed is_neg scaled +ℤ basis2)
unfolding ◌+ℤ◌
too_far true scaled (pos b) h hb = λ i. ground arith
too_far true scaled (negsuc b) h hb = λ i. ground arith
too_far false scaled (pos b) h hb = λ i. ground arith
too_far false scaled (negsuc b) h hb = λ i. ground arith

distance-lt : (a b : ℤ) → IsInt64 a → IsInt64 b → distance a b < 2 ^ 64
unfolding distance
distance-lt (pos a) (pos b) ha hb = ground arith
distance-lt (pos a) (negsuc b) ha hb = ground arith
distance-lt (negsuc a) (pos b) ha hb = ground arith
distance-lt (negsuc a) (negsuc b) ha hb = ground arith

-- The distance of a value from the first basis, times n / d, added to the second basis: rounded
-- towards minus infinity.
abbrev pub exact : ℤ → ℤ → ℕ → ℕ → ℤ → ℤ
exact val basis1 n d basis2 =
    signed (ltb_ℤ val basis1) (rounded (distance val basis1) n d (ltb_ℤ val basis1)) +ℤ basis2

module _ (val basis1 basis2 : ℤ) (hv : IsInt64 val) (h1 : IsInt64 basis1)
    (h2 : IsInt64 basis2) where
  -- The scaled distance, from the basis on.
  abbrev scaled_from : Option ℕ → Option ℤ
  scaled_from o = elim o as (λ o. Option ℤ) [
    | none ↦ none
    | some scaled ↦ rebase (ltb_ℤ val basis1) scaled basis2
  ]

  scaled_from-Transformed :
      (n d : ℕ)
      → n < 2 ^ 32
      → 0 < d
      → Transformed
          (exact val basis1 n d basis2)
          basis2
          (scaled_from (scale_u64_to_u64 (distance val basis1) n d (ltb_ℤ val basis1)))
  scaled_from-Transformed n d hn hd =
      let q = rounded (distance val basis1) n d (ltb_ℤ val basis1) in
      let e =
        scale_u64_to_u64_lem (distance val basis1) n d (ltb_ℤ val basis1)
          (distance-lt val basis1 hv h1) hn hd in
      elim (Bool-cases (ltb q (2 ^ 64))) [
        | inl f ↦ rw (e, f) (rebase-Transformed (ltb_ℤ val basis1) q basis2 (ground arith) h2)
        | inr f ↦ rw (e, f) (inl (too_far (ltb_ℤ val basis1) q basis2 (ground arith) h2))
      ]

-- The fields of a transform have the ranges of their types.
pub record IsTransform (t : LinearTransform) : Type 0 where
  pub numerator : t.ratio.numerator < 2 ^ 32
  pub denominator : t.ratio.denominator < 2 ^ 32
  pub a_zero : IsInt64 t.a_zero
  pub b_zero : IsInt64 t.b_zero

-- For a transform and a value of the ranges of their types, and a denominator that is not zero,
-- DoForwardTransform gives the exact result, (a - a_zero) * numerator / denominator + b_zero,
-- rounded towards minus infinity, and that is an int64_t; it fails only where the exact result is
-- no int64_t or the least one, or where b_zero is the least int64_t.
pub do_forward_transform-Transformed :
    (t : LinearTransform) (a : ℤ)
    → IsTransform t
    → IsInt64 a
    → 0 < t.ratio.denominator
    → Transformed
        (exact a t.a_zero t.ratio.numerator t.ratio.denominator t.b_zero)
        t.b_zero
        (do_forward_transform t a)
unfolding do_forward_transform linear_transform
do_forward_transform-Transformed t a v ha hd = rw (ne→== t.ratio.denominator 0 (omega arith)) (
    scaled_from-Transformed a t.a_zero t.b_zero ha v.a_zero v.b_zero t.ratio.numerator
      t.ratio.denominator v.numerator hd)

-- The same of DoReverseTransform, with a numerator that is not zero: it gives
-- (b - b_zero) * denominator / numerator + a_zero.
pub do_reverse_transform-Transformed :
    (t : LinearTransform) (b : ℤ)
    → IsTransform t
    → IsInt64 b
    → 0 < t.ratio.numerator
    → Transformed
        (exact b t.b_zero t.ratio.denominator t.ratio.numerator t.a_zero)
        t.a_zero
        (do_reverse_transform t b)
unfolding do_reverse_transform linear_transform
do_reverse_transform-Transformed t b v hb hn = rw (ne→== t.ratio.numerator 0 (omega arith)) (
    scaled_from-Transformed b t.b_zero t.a_zero hb v.b_zero v.a_zero t.ratio.denominator
      t.ratio.numerator v.denominator hn)
