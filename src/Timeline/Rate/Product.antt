-- ===== src/Timeline/Rate/Product.antt =====
-- Rates in lowest terms, and the product of two rates.
use native.Mathlib.Nat.{eq_of_mul-eq-mul_right, mul-le-mul, pow-suc}
use motown.Base.{
  ℕ, zero, suc, ◌-◌, ◌*◌, ◌/◌, ◌^◌, ◌<◌, ◌∣◌, ◌≡◌, ◌≢◌, refl, subst, ap, ◌∙◌, sym, Bool, true,
  false, ◌||◌, Option, none, some, arith, ltb, ◌==◌, if◌then◌else◌,
}
use motown.Timeline.Gcd.{reduce_ratio}
use motown.Timeline.Gcd.Reduce.{Reduced, reduce_ratio-Reduced, reduce_ratio_coprime}
use motown.Timeline.Rate.{
  TimelineRate, make_rate, inverse, shift_down, product_parts, product, uint32_max,
}

-- A rate as the class keeps it: two 32-bit numbers in lowest terms over a non-zero one.
pub record IsValid (rate : TimelineRate) : Type 0 where
  pub subject_bound : rate.subject_delta < 2 ^ 32
  pub reference_bound : rate.reference_delta < 2 ^ 32
  pub positive : 0 < rate.reference_delta
  pub coprime : (k : ℕ) → k ∣ rate.subject_delta → k ∣ rate.reference_delta → k ≡ 1

-- The constructor of TimelineRate, for 32-bit parts and a non-zero reference delta, keeps the
-- ratio and establishes the invariant of the class.
pub make_rate-IsValid :
    (s r : ℕ)
    → s < 2 ^ 32
    → r < 2 ^ 32
    → 0 < r
    → IsValid (make_rate s r)
      × ((make_rate s r).subject_delta * r ≡ s * (make_rate s r).reference_delta)
unfolding make_rate
make_rate-IsValid s r hs hr pos =
    let v = reduce_ratio-Reduced 32 s r hs hr pos in
    (
      record {
        subject_bound = omega (arith, v.small.0);
        reference_bound = omega (arith, v.small.1);
        positive = v.pos;
        coprime = v.coprime;
      },
      v.same,
    )

-- The loop of Product ends with both parts in 32 bits, when `fuel` rounds are left for parts of
-- fewer than `32 + fuel` bits.
shift_down_bounds :
    (fuel s r : ℕ)
    → s < 2 ^ 32 * 2 ^ fuel
    → r < 2 ^ 32 * 2 ^ fuel
    → ((shift_down fuel s r).0 < 2 ^ 32) × ((shift_down fuel s r).1 < 2 ^ 32)
unfolding shift_down
shift_down_bounds zero s r hs hr = (omega arith, omega arith)
shift_down_bounds (suc fuel) s r hs hr =
    let p = pow-suc 2 fuel in
    ground (arith, shift_down_bounds fuel (s / 2) (r / 2) (omega (arith, p)) (omega (arith, p)))

-- 33 rounds are enough for 64-bit parts.
shift_down_ends :
    (s r : ℕ)
    → s < 2 ^ 64
    → r < 2 ^ 64
    → ((shift_down 33 s r).0 < 2 ^ 32) × ((shift_down 33 s r).1 < 2 ^ 32)
shift_down_ends s r hs hr = shift_down_bounds 33 s r (omega arith) (omega arith)

-- Two positive 32-bit numbers have a positive 64-bit product.
product_bound : (a b : ℕ) → a < 2 ^ 32 → b < 2 ^ 32 → a * b < 2 ^ 64
product_bound a b ha hb = omega (
  arith,
  mul-le-mul {n₁ = a} {m₁ = b} {n₂ = 2 ^ 32 - 1} {m₂ = 2 ^ 32 - 1} (omega arith) (omega arith),
)

product_pos : (a b : ℕ) → 0 < a → 0 < b → 0 < a * b
product_pos a b ha hb = grind arith

-- The parts that Product gives fit in 32 bits over a non-zero reference.
abbrev Fits : Option (ℕ × ℕ) → Type 0
Fits none = Unit
Fits (some (s, r)) = (s < 2 ^ 32) × (r < 2 ^ 32) × (0 < r)

-- The end of Product, for reduced parts.
reduced_parts-Fits :
    (s r : ℕ) (exact : Bool)
    → s < 2 ^ 64
    → r < 2 ^ 64
    → 0 < r
    → Fits (
        if ltb uint32_max s || ltb uint32_max r
        then (if exact
            then none
            else (let (s', r') = shift_down 33 s r in
                if r' == 0 then some (uint32_max, 1) else some (s', r')))
        else some (s, r))
reduced_parts-Fits s r exact hs hr pos = ground (arith, shift_down_ends s r hs hr)

module _ (a b : TimelineRate) (va : IsValid a) (vb : IsValid b) where
  reduced :
      Reduced (a.subject_delta * b.subject_delta) (a.reference_delta * b.reference_delta) (
        reduce_ratio 64 (a.subject_delta * b.subject_delta) (a.reference_delta * b.reference_delta))
  reduced =
      reduce_ratio-Reduced 64 (a.subject_delta * b.subject_delta)
        (a.reference_delta * b.reference_delta)
        (product_bound a.subject_delta b.subject_delta va.subject_bound vb.subject_bound)
        (product_bound a.reference_delta b.reference_delta va.reference_bound vb.reference_bound)
        (product_pos a.reference_delta b.reference_delta va.positive vb.positive)

  parts-Fits :
      (exact : Bool)
      → Fits
          (product_parts a.subject_delta a.reference_delta b.subject_delta b.reference_delta exact)
  unfolding product_parts
  parts-Fits exact =
      reduced_parts-Fits _ _ exact
        (omega (
          arith,
          reduced.small.0,
          product_bound a.subject_delta b.subject_delta va.subject_bound vb.subject_bound,
        ))
        (omega (
          arith,
          reduced.small.1,
          product_bound a.reference_delta b.reference_delta va.reference_bound vb.reference_bound,
        ))
        reduced.pos

rates-IsValid :
    (parts : Option (ℕ × ℕ)) (c : TimelineRate)
    → Fits parts
    → (elim parts [ none ↦ none | some (s, r) ↦ some (make_rate s r) ]) ≡ some c
    → IsValid c
rates-IsValid none c f e = cc
rates-IsValid (some (s, r)) c f e =
    let same : make_rate s r ≡ c = cc in subst IsValid same (make_rate-IsValid s r f.0 f.1 f.2).0

inexact_given : (a b c d : ℕ) → product_parts a b c d false ≢ none
unfolding product_parts
inexact_given a b c d e = ground arith

-- Every product of two valid rates is a valid rate, and an inexact product always returns one.
pub product-IsValid :
    (a b : TimelineRate) (exact : Bool)
    → IsValid a
    → IsValid b
    → ((c : TimelineRate) → product a b exact ≡ some c → IsValid c) × (product a b false ≢ none)
unfolding product
product-IsValid a b exact va vb = (
  λ c e.
      rates-IsValid
        (product_parts a.subject_delta a.reference_delta b.subject_delta b.reference_delta exact) c
        (parts-Fits a b va vb exact) e,
  λ e.
      ground
        (arith, inexact_given a.subject_delta a.reference_delta b.subject_delta b.reference_delta),
)

exact_parts :
    (a b c d : ℕ) (parts : ℕ × ℕ)
    → product_parts a b c d true ≡ some parts
    → (parts ≡ reduce_ratio 64 (a * c) (b * d)) × (parts.0 < 2 ^ 32) × (parts.1 < 2 ^ 32)
unfolding product_parts
exact_parts a b c d parts e = (ground arith, ground arith, ground arith)

product_made :
    (parts : Option (ℕ × ℕ)) (c : TimelineRate)
    → (elim parts as (λ p. Option TimelineRate) [
      | none ↦ none
      | some (s, r) ↦ some (make_rate s r)
    ])
      ≡ some c
    → (p : ℕ × ℕ) × (parts ≡ some p) × (make_rate p.0 p.1 ≡ c)
product_made none c e = cc
product_made (some p) c e = (p, refl, cc)

cancel_reference : (s r n d s' r' : ℕ) → 0 < r → s * d ≡ n * r → s' * r ≡ s * r' → s' * d ≡ n * r'
cancel_reference s r n d s' r' pos e f =
    eq_of_mul-eq-mul_right r pos (s' * d) (n * r')
      (omega (arith, ap (λ (t : ℕ). t * d) f, ap (λ (t : ℕ). t * r') e))

-- Where the exact product of two valid rates returns a rate, that rate is the product of the two
-- ratios.
pub product-exact :
    (a b c : TimelineRate)
    → IsValid a
    → IsValid b
    → product a b true ≡ some c
    → c.subject_delta * (a.reference_delta * b.reference_delta)
      ≡ a.subject_delta * b.subject_delta * c.reference_delta
unfolding product
product-exact a b c va vb e =
    let (p, given, made) =
      product_made
        (product_parts a.subject_delta a.reference_delta b.subject_delta b.reference_delta true) c
        e in
    let (is, hs, hr) = exact_parts _ _ _ _ p given in
    let v = subst (Reduced _ _) (sym is) (reduced a b va vb) in
    let kept = (make_rate-IsValid p.0 p.1 hs hr v.pos).1 in
    cancel_reference p.0 p.1 _ _ c.subject_delta c.reference_delta v.pos v.same
      (subst (λ (t : TimelineRate). t.subject_delta * p.1 ≡ p.0 * t.reference_delta) made kept)

-- The inverse of a valid rate swaps its parts.
pub inverse-reduced :
    (rate : TimelineRate)
    → IsValid rate
    → inverse rate
      ≡ record { subject_delta = rate.reference_delta; reference_delta = rate.subject_delta }
unfolding inverse make_rate
inverse-reduced rate v =
    let swapped : reduce_ratio 32 rate.reference_delta rate.subject_delta
        ≡ (rate.reference_delta, rate.subject_delta) =
      reduce_ratio_coprime 32 rate.reference_delta rate.subject_delta v.reference_bound
        v.subject_bound (λ k h g. v.coprime k g h) in
    rw swapped

-- Inverse keeps the invariant of a rate whose subject delta is not zero.
pub inverse-IsValid :
    (rate : TimelineRate) → IsValid rate → 0 < rate.subject_delta → IsValid (inverse rate)
inverse-IsValid rate v pos = rw (inverse-reduced rate v) (record {
  subject_bound = v.reference_bound;
  reference_bound = v.subject_bound;
  positive = pos;
  coprime = λ k h g. v.coprime k g h;
})

-- Inverse is its own inverse on the valid rates whose subject delta is not zero, and keeps the
-- invariant.
pub inverse-inverse :
    (rate : TimelineRate)
    → IsValid rate
    → 0 < rate.subject_delta
    → (inverse (inverse rate) ≡ rate) × IsValid (inverse rate)
inverse-inverse rate v pos =
    let kept = inverse-IsValid rate v pos in
    (inverse-reduced (inverse rate) kept ∙ rw (inverse-reduced rate v), kept)
