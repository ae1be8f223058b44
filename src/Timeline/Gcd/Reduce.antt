-- ===== src/Timeline/Gcd/Reduce.antt =====
-- ReduceRatio gives lowest terms.
use native.Mathlib.Nat.{dvd_refl, le_of_dvd, mul-div_cancel'}
use motown.Base.{
  ℕ, ◌*◌, ◌/◌, ◌^◌, ◌≤◌, ◌<◌, ◌∣◌, ◌≡◌, subst, ap, ◌∙◌, sym, inl, inr, arith, ◌==◌, Bool-cases,
  ==_iff, ne→==,
}
use motown.Timeline.Gcd.{binary_gcd, reduce_ratio}
use mathlib.Core.Path.{ap₂}
use native.Mathlib.Nat.{
  div-one, div-le_self, mul-dvd-mul_left, le_of_mul-le-mul_left, pos_of_dvd_of_pos,
}
use motown.Timeline.Gcd.Correct.{IsGcd, binary_gcd-IsGcd}

-- One ratio is another in lowest terms, with a denominator that is not zero.
pub record Reduced (n d : ℕ) (r : ℕ × ℕ) : Type 0 where
  pub same : r.0 * d ≡ n * r.1
  pub coprime : (k : ℕ) → k ∣ r.0 → k ∣ r.1 → k ≡ 1
  pub pos : 0 < r.1
  pub small : (r.0 ≤ n) × (r.1 ≤ d)

regroup : (g x y : ℕ) → x * (g * y) ≡ g * x * y
regroup g x y = omega arith

pub divided-Reduced : (n d g : ℕ) → 0 < d → 0 < g → IsGcd n d g → Reduced n d (n / g, d / g)
divided-Reduced n d g pos pg v = record {
  same =
      ap (λ (t : ℕ). n / g * t) (sym dg)
      ∙ regroup g (n / g) (d / g)
      ∙ ap (λ (t : ℕ). t * (d / g)) ng;
  coprime = one;
  pos = q;
  small = (div-le_self n g, div-le_self d g);
}
  where
    divides : (g ∣ n) × (g ∣ d)
    divides = (v g).1 (dvd_refl g)

    ng : g * (n / g) ≡ n
    ng = mul-div_cancel' g divides.0

    dg : g * (d / g) ≡ d
    dg = mul-div_cancel' g divides.1

    q : 0 < d / g
    q = elim (Bool-cases (d / g == 0)) [
      | inl e ↦
          let none : d ≡ g * 0 = sym dg ∙ ap (λ (t : ℕ). g * t) ((==_iff (d / g) 0).0 e) in
          absurd (omega arith)
      | inr e ↦ ground arith
    ]

    one : (k : ℕ) → k ∣ n / g → k ∣ d / g → k ≡ 1
    one k hn hd =
        let kn : g * k ∣ n = subst (λ t. g * k ∣ t) ng (mul-dvd-mul_left k g hn) in
        let kd : g * k ∣ d = subst (λ t. g * k ∣ t) dg (mul-dvd-mul_left k g hd) in
        let le : g * k ≤ g = le_of_dvd pg ((v (g * k)).0 (kn, kd)) in
        let le1 : k ≤ 1 = le_of_mul-le-mul_left {m = k} {n = 1} {k = g} (omega arith) pg in
        let kp : 0 < k = pos_of_dvd_of_pos hd q in omega arith

-- For parts of the type's width and a non-zero denominator, ReduceRatio's result is the same
-- ratio, its parts are no larger and have no common divisor but 1, and its denominator is not
-- zero.
pub reduce_ratio-Reduced :
    (width n d : ℕ) → n < 2 ^ width → d < 2 ^ width → 0 < d → Reduced n d (reduce_ratio width n d)
unfolding reduce_ratio
reduce_ratio-Reduced width n d ln ld pos =
    let g = binary_gcd width n d in
    let v : IsGcd n d g = binary_gcd-IsGcd width n d ln ld in
    let g_pos : 0 < g = pos_of_dvd_of_pos ((v g).1 (dvd_refl g)).1 pos in
    let divided : Reduced n d (n / g, d / g) = divided-Reduced n d g pos g_pos v in
    rw (ne→== g 0 (omega arith)) (elim (Bool-cases (g == 1)) [
      | inl e ↦ rw e (
          subst (λ t. Reduced n d t)
            (ap₂ (λ (x y : ℕ). (x, y)) (ap (λ t. n / t) ((==_iff g 1).0 e) ∙ div-one n)
              (ap (λ t. d / t) ((==_iff g 1).0 e) ∙ div-one d))
            divided)
      | inr e ↦ rw e divided
    ])

-- A ratio of the type's width whose parts have no common divisor but 1 is left as it is.
pub reduce_ratio_coprime :
    (width n d : ℕ)
    → n < 2 ^ width
    → d < 2 ^ width
    → ((k : ℕ) → k ∣ n → k ∣ d → k ≡ 1)
    → reduce_ratio width n d ≡ (n, d)
unfolding reduce_ratio
reduce_ratio_coprime width n d ln ld coprime =
    let g = binary_gcd width n d in
    let divides = (binary_gcd-IsGcd width n d ln ld g).1 (dvd_refl g) in
    let one : g ≡ 1 = coprime g divides.0 divides.1 in rw one
