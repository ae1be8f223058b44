-- ===== src/Timeline/Gcd/Odd.antt =====
-- Odd divisors, and the loop `while ((x & 1) == 0) x >>= 1;` of BinaryGcd.
use native.Mathlib.Nat.{mul-div_cancel', dvd-mul_right, dvd-mul_left_of_dvd}
use motown.Base.{
  ℕ, zero, suc, ◌+◌, ◌*◌, ◌/◌, ◌%◌, ◌≤◌, ◌<◌, ◌∣◌, ◌≡◌, refl, subst, ap, ◌∙◌, sym, ◌↔◌, inl, inr,
  arith, ◌==◌, Bool-cases, ==_iff,
}
use motown.Timeline.Gcd.{strip_twos}

half_product : (e k x : ℕ) → (2 * e + 1) * k ≡ x → x % 2 ≡ 0 → (2 * e + 1) * (k / 2) ≡ x / 2
half_product e k x h even =
    let twice : e * k ≡ e * (2 * (k / 2)) = ap (λ (t : ℕ). e * t) (omega arith) in
    omega (arith, twice)

odd_product : (e k x : ℕ) → (2 * e) * k ≡ x → x % 2 ≡ 0
odd_product e k x h = omega arith

-- A divisor of an odd number is odd.
pub odd_of_dvd : (d a : ℕ) → d ∣ a → a % 2 ≡ 1 → d % 2 ≡ 1
odd_of_dvd d a h odd = elim (Bool-cases (d % 2 == 0)) [
  | inl e ↦
      let half : d ≡ 2 * (d / 2) = omega (arith, (==_iff (d % 2) 0).0 e) in
      absurd (
        omega (
          arith,
          odd_product (d / 2) (a / d) a
              (ap (λ (t : ℕ). t * (a / d)) (sym half) ∙ mul-div_cancel' d h),
        ))
  | inr e ↦ ground arith
]

-- An odd divisor of an even number divides its half.
pub odd_dvd_half : (d x : ℕ) → d % 2 ≡ 1 → x % 2 ≡ 0 → d ∣ x → d ∣ x / 2
odd_dvd_half d x odd even h =
    let form : d ≡ 2 * (d / 2) + 1 = omega arith in
    subst (λ t. d ∣ t)
      (ap (λ (t : ℕ). t * (x / d / 2)) form
        ∙ half_product (d / 2) (x / d) x
            (ap (λ (t : ℕ). t * (x / d)) (sym form) ∙ mul-div_cancel' d h) even)
      (dvd-mul_right d (x / d / 2))

pub dvd_of_half : (d x : ℕ) → x % 2 ≡ 0 → d ∣ x / 2 → d ∣ x
dvd_of_half d x even h =
    let whole : 2 * (x / 2) ≡ x = omega arith in
    subst (λ t. d ∣ t) whole (dvd-mul_left_of_dvd d h 2)

-- What the loop leaves of a positive number.
pub record Stripped (x y : ℕ) : Type 0 where
  pub odd : y % 2 ≡ 1
  pub small : y ≤ x

pub strip_twos-Stripped : (fuel x : ℕ) → 0 < x → x ≤ fuel → Stripped x (strip_twos fuel x)
unfolding strip_twos
strip_twos-Stripped zero x pos le = absurd (omega arith)
strip_twos-Stripped (suc fuel) x pos le = elim (Bool-cases (x % 2 == 0)) [
  | inl even ↦ rw even (
      let rest = strip_twos-Stripped fuel (x / 2) (ground arith) (omega arith) in
      record { odd = rest.odd; small = omega (arith, rest.small) })
  | inr odd ↦ rw odd (record { odd = ground arith; small = omega arith })
]

-- The loop keeps the odd divisors.
pub dvd-strip_twos : (fuel x d : ℕ) → d % 2 ≡ 1 → (d ∣ x) ↔ (d ∣ strip_twos fuel x)
unfolding strip_twos
dvd-strip_twos zero x d odd = (λ h. h, λ h. h)
dvd-strip_twos (suc fuel) x d odd = elim (Bool-cases (x % 2 == 0)) [
  | inl e ↦ rw e (
      let even = (==_iff (x % 2) 0).0 e in
      let rest = dvd-strip_twos fuel (x / 2) d odd in
      (λ h. rest.0 (odd_dvd_half d x odd even h), λ h. dvd_of_half d x even (rest.1 h)))
  | inr e ↦ rw e (λ h. h, λ h. h)
]

pub strip_twos-odd : (fuel x : ℕ) → x % 2 ≡ 1 → strip_twos fuel x ≡ x
unfolding strip_twos
strip_twos-odd zero x odd = refl
strip_twos-odd (suc fuel) x odd = ground arith
