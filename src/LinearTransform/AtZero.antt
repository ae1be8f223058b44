-- ===== src/LinearTransform/AtZero.antt =====
-- A transform at its own zero.
use native.Mathlib.Nat.{zero-mul, zero-div}
use motown.Base.{ℕ, ◌*◌, ◌/◌, ◌^◌, ◌<◌, ◌≡◌, ap, ◌∙◌, false, Option, none, some, arith, ne→==}
use motown.Base.Int.{ℤ, pos, negsuc, ltb_ℤ, ◌+ℤ◌}
use motown.LinearTransform.{
  LinearTransform, sum_check_ovfl, rebase, distance, linear_transform, do_forward_transform,
  scale_u64_to_u64,
}
use motown.LinearTransform.Int64.{IsInt64, Summed, sum_check_ovfl-Summed}
use motown.LinearTransform.Scaled.{scale_u64_to_u64_lem}

distance_self : (a : ℤ) → distance a a ≡ 0
unfolding distance
distance_self (pos a) = ground arith
distance_self (negsuc a) = ground arith

zero-+ℤ : (b : ℤ) → pos 0 +ℤ b ≡ b
unfolding ◌+ℤ◌
zero-+ℤ (pos b) = ground arith
zero-+ℤ (negsuc b) = ground arith

Summed-zero : (b : ℤ) (o : Option ℤ) → IsInt64 b → Summed (pos 0) b o → o ≡ some b
Summed-zero b none h s = absurd (s (rw (zero-+ℤ b) h))
Summed-zero b (some z) h s = ap (λ t. some t) (s.0 ∙ zero-+ℤ b)

rebase_zero : (b : ℤ) → IsInt64 b → rebase false 0 b ≡ some b
unfolding rebase
rebase_zero b h =
    Summed-zero b (sum_check_ovfl (pos 0) b) h (sum_check_ovfl-Summed (pos 0) b (omega arith) h)

scale_zero : (n d : ℕ) → n < 2 ^ 32 → 0 < d → scale_u64_to_u64 0 n d false ≡ some 0
scale_zero n d hn hd =
    let q : 0 * n / d ≡ 0 = ap (λ t. t / d) (zero-mul n) ∙ zero-div d in
    scale_u64_to_u64_lem 0 n d false (omega arith) hn hd ∙ (rw q)

-- At its a_zero, a transform gives its b_zero.
pub do_forward_transform_at_zero :
    (t : LinearTransform)
    → t.ratio.numerator < 2 ^ 32
    → 0 < t.ratio.denominator
    → IsInt64 t.b_zero
    → do_forward_transform t t.a_zero ≡ some t.b_zero
unfolding do_forward_transform linear_transform
do_forward_transform_at_zero t hn hd hb =
    let same : ltb_ℤ t.a_zero t.a_zero ≡ false = ground arith in
    rw
      (
        ne→== t.ratio.denominator 0 (omega arith),
        linear_transform,
        same,
        distance_self t.a_zero,
        scale_zero t.ratio.numerator t.ratio.denominator hn hd,
      )
      (rw same (rebase_zero t.b_zero hb))
