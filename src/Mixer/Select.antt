-- ===== src/Mixer/Select.antt =====
-- Which mixer Mixer::Select takes.
use native.Mathlib.Nat.{eq_of_mul-eq-mul_left, mul-div_cancel', dvd-mul_right, dvd_refl}
use mathlib.Core.Bool.{true≢false}
use motown.Base.{
  ℕ, ◌*◌, ◌/◌, ◌<◌, ◌∣◌, ◌≡◌, ◌↔◌, refl, ap, sym, ◌∙◌, subst, arith, ◌==◌, ==_iff, Option, none,
  some, none-ne-some, some_injective, Bool, true, false, if◌then◌else◌,
}
use motown.LinearTransform.{make_ratio}
use motown.LinearTransform.Euclid.{parts, make_ratio-Reduced}
use motown.Timeline.Gcd.Reduce.{Reduced}
use motown.MediaTypes.{AudioMediaTypeDetails}
use motown.Mixer.{Layout, Chosen, point, linear, select_layout, select_mixer}

one_of_dvd : (n d : ℕ) (r : ℕ × ℕ) → 0 < n → Reduced n d r → n ∣ d → r.0 ≡ 1
one_of_dvd n d r hn v h =
    let whole = mul-div_cancel' n h in
    let same = v.same in
    let turned : n * (r.0 * (d / n)) ≡ r.0 * (n * (d / n)) = omega arith in
    let multiple : n * (r.0 * (d / n)) ≡ n * r.1 = turned ∙ ap (λ t. r.0 * t) whole ∙ same in
    v.coprime r.0 (dvd_refl r.0) (
      rw (sym (eq_of_mul-eq-mul_left n hn (r.0 * (d / n)) r.1 multiple))
        (dvd-mul_right r.0 (d / n)))

dvd_of_one : (n d : ℕ) (r : ℕ × ℕ) → Reduced n d r → r.0 ≡ 1 → n ∣ d
dvd_of_one n d r v e =
    let same : 1 * d ≡ n * r.1 = subst (λ t. t * d ≡ n * r.1) e v.same in
    let whole : d ≡ n * r.1 = omega arith in rw (whole) (dvd-mul_right n r.1)

-- Where the reduced numerator is 1, the first rate divides the second.
pub numerator_one : (n d : ℕ) → 0 < n → 0 < d → ((make_ratio n d).numerator ≡ 1) ↔ (n ∣ d)
numerator_one n d hn hd =
    let v = make_ratio-Reduced n d hd in
    (dvd_of_one n d (parts (make_ratio n d)) v, one_of_dvd n d (parts (make_ratio n d)) hn v)

point_layout : Chosen → Option Layout
point_layout (point l) = some l
point_layout _ = none

chosen-point :
    (o : Option Layout) (b : Bool) (l : Layout)
    → (elim o as (λ o. Option Chosen) [
      | none ↦ none
      | some l ↦ some (if b then point l else linear l)
    ]
        ≡ some (point l))
      ↔ ((o ≡ some l) × (b ≡ true))
unfolding point_layout
chosen-point none b l = (λ e. absurd (none-ne-some e), λ h. absurd (none-ne-some h.0))
chosen-point (some k) true l = (
  λ e. (ap point_layout (some_injective e), refl),
  λ h. ap (λ t. some (point t)) (some_injective h.0),
)
chosen-point (some k) false l = (
  λ e. absurd (none-ne-some (ap point_layout (some_injective e))),
  λ h. absurd (true≢false (sym h.1)),
)

-- For two rates that are not 0, Mixer::Select takes a point sampler just where the rate of the
-- source divides the rate of the destination and the formats have a layout.
pub select_mixer-point :
    (src dst : AudioMediaTypeDetails) (l : Layout)
    → 0 < src.frames_per_second
    → 0 < dst.frames_per_second
    → (select_mixer src (some dst) ≡ some (point l))
      ↔ ((select_layout src dst ≡ some l) × (src.frames_per_second ∣ dst.frames_per_second))
unfolding select_mixer
select_mixer-point src dst l hs hd =
    let r = make_ratio src.frames_per_second dst.frames_per_second in
    let by_test = chosen-point (select_layout src dst) (r.numerator == 1) l in
    let by_ratio = numerator_one src.frames_per_second dst.frames_per_second hs hd in
    let test = ==_iff r.numerator 1 in
    (
      λ e. ((by_test.0 e).0, by_ratio.0 (test.0 (by_test.0 e).1)),
      λ h. by_test.1 (h.0, test.1 (by_ratio.1 h.1)),
    )
