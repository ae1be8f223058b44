-- ===== src/LinearTransform/Euclid.antt =====
-- internal::Reduce ends, and gives lowest terms.
use native.Mathlib.Nat.{
  eq-one_of_dvd-one, pos_of_dvd_of_pos, dvd_refl, dvd_trans, mod-lt, dvd-mod_iff,
  dvd_of_mod-eq-zero,
}
use motown.Base.{
  ℕ, zero, suc, ◌%◌, ◌≤◌, ◌<◌, ◌∣◌, ◌≡◌, ◌≢◌, ne→==, inl, inr, arith, ltb, ◌==◌, Bool-cases, ==_iff,
}
use motown.Base.{refl}
use motown.Base.Int.{ℤ}
use motown.Timeline.Gcd.Correct.{IsGcd, IsGcd-comm}
use motown.Timeline.Gcd.Reduce.{Reduced, divided-Reduced}
use motown.LinearTransform.{Ratio, euclid, reduce_parts, make_ratio, make_transform}

IsGcd-mod : (a b g : ℕ) → IsGcd b (a % b) g → IsGcd a b g
IsGcd-mod a b g v d = (
  λ h. (v d).0 (h.1, (dvd-mod_iff d h.1).1 h.0),
  λ h. let p = (v d).1 h in ((dvd-mod_iff d p.0).0 p.1, p.0),
)

euclid-IsGcd : (fuel a b : ℕ) → 0 < b → b ≤ fuel → IsGcd a b (euclid fuel a b)
unfolding euclid
euclid-IsGcd zero a b hb le = absurd (omega arith)
euclid-IsGcd (suc fuel) a b hb le = elim (Bool-cases (a % b == 0)) [
  | inl e ↦
      let divides : b ∣ a = dvd_of_mod-eq-zero b ((==_iff (a % b) 0).0 e) in
      rw e (λ d. (λ h. h.1, λ h. (dvd_trans d h divides, h)))
  | inr e ↦
      let small = mod-lt a hb in
      rw e (
        IsGcd-mod a b (euclid fuel b (a % b))
          (euclid-IsGcd fuel b (a % b) (ground arith) (omega arith)))
]

-- The parts of a ratio, as a pair.
abbrev pub parts : Ratio → ℕ × ℕ
parts r = (r.numerator, r.denominator)

pub zero-Reduced : (d : ℕ) → 0 < d → Reduced 0 d (0, 1)
zero-Reduced d hd = record {
  same = omega arith;
  coprime = λ k h o. eq-one_of_dvd-one o;
  pos = omega arith;
  small = (omega arith, omega arith);
}

-- For a denominator that is not zero, the loop of internal::Reduce ends within as many rounds as
-- its smaller part says, and what is left is the same ratio, in lowest terms, with a denominator
-- that is not zero.
pub reduce_parts-Reduced : (n d : ℕ) → 0 < d → Reduced n d (parts (reduce_parts n d))
unfolding reduce_parts
reduce_parts-Reduced n d hd = elim (Bool-cases (n == 0)) [
  | inl e ↦ let n_zero : n ≡ 0 = (==_iff n 0).0 e in rw (n_zero) (zero-Reduced d hd)
  | inr e ↦
      let hn : 0 < n = ground arith in
      elim (Bool-cases (ltb n d)) [
        | inl f ↦
            let v = IsGcd-comm d n (euclid n d n) (euclid-IsGcd n d n hn (omega arith)) in
            let hg = pos_of_dvd_of_pos ((v (euclid n d n)).1 (dvd_refl (euclid n d n))).0 hn in
            rw (e, f) (divided-Reduced n d (euclid n d n) hd hg v)
        | inr f ↦
            let v = euclid-IsGcd d n d hd (omega arith) in
            let hg = pos_of_dvd_of_pos ((v (euclid d n d)).1 (dvd_refl (euclid d n d))).0 hn in
            rw (e, f) (divided-Reduced n d (euclid d n d) hd hg v)
      ]
]

-- A ratio is made in lowest terms, with a denominator that is not zero, where the one that is given
-- is not.
pub make_ratio-Reduced : (n d : ℕ) → 0 < d → Reduced n d (parts (make_ratio n d))
unfolding make_ratio
make_ratio-Reduced n d h = rw (ne→== d 0 (omega arith)) (reduce_parts-Reduced n d h)

pub make_ratio_positive : (n d : ℕ) → d ≢ 0 → 0 < (make_ratio n d).denominator
make_ratio_positive n d h = (make_ratio-Reduced n d (omega arith)).pos

pub make_transform-ratio :
    (a : ℤ) (n d : ℕ) (b : ℤ) → (make_transform a n d b).ratio ≡ make_ratio n d
unfolding make_transform
make_transform-ratio a n d b = refl

pub made-a_zero : (a : ℤ) (n d : ℕ) (b : ℤ) → (make_transform a n d b).a_zero ≡ a
unfolding make_transform
made-a_zero a n d b = refl

pub made-b_zero : (a : ℤ) (n d : ℕ) (b : ℤ) → (make_transform a n d b).b_zero ≡ b
unfolding make_transform
made-b_zero a n d b = refl
