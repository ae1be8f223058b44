-- ===== src/Timeline/Rate.antt =====
-- TimelineRate of mojo/services/media/common/cpp/timeline_rate.{h,cc}.
pub mod Scaled
pub mod Product
mod Tests
use motown.Base.{
  ℕ, zero, suc, ◌+◌, ◌-◌, ◌*◌, ◌/◌, ◌%◌, ◌^◌, Bool, true, false, ◌&&◌, ◌||◌, not, Option, none,
  some, ltb, leb, ◌==◌, if◌then◌else◌,
}
use motown.Base.Int.{ℤ, pos, negsuc, sub_ℕ}
use motown.Timeline.Gcd.{reduce_ratio}

abbrev pub int64_max : ℕ
int64_max = 2 ^ 63 - 1

-- abs_of_min_int64.
abbrev pub abs_of_min_int64 : ℕ
abs_of_min_int64 = 2 ^ 63

abbrev pub uint32_max : ℕ
uint32_max = 2 ^ 32 - 1

-- ScaleUInt64; `none` is the overflow flag. `x & kLow32Bits` is the remainder and `x >> 32u` the
-- quotient by 2 ^ 32; the operands of each `|` have no common bit, so it is a sum.
unfoldable pub scale_uint64 : ℕ → ℕ → ℕ → Bool → Option ℕ
scale_uint64 value subject_delta reference_delta round_up =
    let high = subject_delta * (value / 2 ^ 32) % 2 ^ 64 in
    let low = subject_delta * (value % 2 ^ 32) % 2 ^ 64 in
    let high' = (high + low / 2 ^ 32) % 2 ^ 64 in
    let low' = low % 2 ^ 32 + high' % reference_delta * 2 ^ 32 in
    let up = round_up && not (low' % reference_delta == 0) in
    let top = high' / reference_delta in
    let result = top * 2 ^ 32 + low' / reference_delta in
    if not (top / 2 ^ 32 == 0)
    then none
    else if up
    then (if result == int64_max then none else some ((result + 1) % 2 ^ 64))
    else some result

-- kOverflow.
abbrev pub overflow : ℤ
overflow = pos int64_max

-- The end of Scale: the cast of the absolute result to int64_t, with the sign of the value.
unfoldable pub to_int64 : Bool → Option ℕ → ℤ
to_int64 negative none = overflow
to_int64 negative (some abs_result) =
    if ltb int64_max abs_result
    then (if negative && abs_result == abs_of_min_int64 then negsuc int64_max else overflow)
    else if negative
    then sub_ℕ 0 abs_result
    else pos abs_result

-- TimelineRate::Scale of an int64_t; `negsuc int64_max` is the least one.
unfoldable pub scale : ℤ → ℕ → ℕ → ℤ
scale (pos n) subject_delta reference_delta =
    to_int64 false (scale_uint64 n subject_delta reference_delta false)
scale (negsuc n) subject_delta reference_delta =
    if n == int64_max
    then to_int64 true (scale_uint64 abs_of_min_int64 subject_delta reference_delta true)
    else to_int64 true (scale_uint64 (n + 1) subject_delta reference_delta true)

-- The class TimelineRate.
pub record TimelineRate : Type 0 where
  pub subject_delta : ℕ
  pub reference_delta : ℕ

-- The constructor of two arguments, which reduces the ratio.
unfoldable pub make_rate : ℕ → ℕ → TimelineRate
make_rate subject_delta reference_delta =
    let (s, r) = reduce_ratio 32 subject_delta reference_delta in
    record { subject_delta = s; reference_delta = r }

-- Inverse.
pub inverse : TimelineRate → TimelineRate
inverse rate = make_rate rate.reference_delta rate.subject_delta

-- The loop `do { … >>= 1 } while (… > max)` of Product. The fuel is the first argument.
pub shift_down : ℕ → ℕ → ℕ → ℕ × ℕ
shift_down zero s r = (s, r)
shift_down (suc fuel) s r =
    let rest = shift_down fuel (s / 2) (r / 2) in
    if ltb uint32_max (s / 2) || ltb uint32_max (r / 2) then rest else (s / 2, r / 2)

-- Product on the four parts. `none` is the failed DCHECK of an exact product that loses precision.
unfoldable pub product_parts : ℕ → ℕ → ℕ → ℕ → Bool → Option (ℕ × ℕ)
product_parts a_subject a_reference b_subject b_reference exact =
    let (s, r) = reduce_ratio 64 (a_subject * b_subject) (a_reference * b_reference) in
    if ltb uint32_max s || ltb uint32_max r
    then (if exact
        then none
        else (let (s', r') = shift_down 33 s r in
            if r' == 0 then some (uint32_max, 1) else some (s', r')))
    else some (s, r)

-- Product of two rates.
unfoldable pub product : TimelineRate → TimelineRate → Bool → Option TimelineRate
product a b exact =
    elim (product_parts a.subject_delta a.reference_delta b.subject_delta b.reference_delta exact) [
      | none ↦ none
      | some (s, r) ↦ some (make_rate s r)
    ]
