-- ===== src/LinearTransform.antt =====
-- LinearTransform of mojo/services/media/common/cpp/linear_transform.{h,cc}.
pub mod Int64
pub mod Scaled
pub mod Transform
pub mod AtZero
pub mod Euclid
pub mod Compose
mod Tests
use motown.Base.{
  ℕ, zero, suc, ◌+◌, ◌-◌, ◌*◌, ◌/◌, ◌%◌, ◌^◌, max, Bool, true, false, ◌&&◌, ◌||◌, not, Option, none,
  some, ltb, leb, ◌==◌, if◌then◌else◌,
}
use motown.Base.Int.{ℤ, pos, negsuc, sub_ℕ, ltb_ℤ, ◌+ℤ◌}

-- LinearTransform::Ratio.
pub record Ratio : Type 0 where
  pub numerator : ℕ
  pub denominator : ℕ

pub record LinearTransform : Type 0 where
  pub ratio : Ratio
  pub a_zero : ℤ
  pub b_zero : ℤ

-- The loop of internal::Reduce, on fuel: its value is the divisor at the end. 0 is no divisor, and
-- says that the fuel ran out.
unfoldable pub euclid : ℕ → ℕ → ℕ → ℕ
euclid zero a b = 0
euclid (suc fuel) a b = let rest = euclid fuel b (a % b) in if a % b == 0 then b else rest

-- internal::Reduce. Its callers hold the denominator to be non-zero, and the smaller part is fuel
-- enough.
unfoldable pub reduce_parts : ℕ → ℕ → Ratio
reduce_parts n d =
    if n == 0
    then record { numerator = n; denominator = 1 }
    else (let gcd = if ltb n d then euclid n d n else euclid d n d in
        record { numerator = n / gcd; denominator = d / gcd })

-- Ratio::Reduce, which the constructors call.
unfoldable pub make_ratio : ℕ → ℕ → Ratio
make_ratio n d =
    if d == 0
    then record { numerator = if n == 0 then 0 else 1; denominator = d }
    else reduce_parts n d

-- LinearTransform(az, numerator, denominator, bz).
pub make_transform : ℤ → ℕ → ℕ → ℤ → LinearTransform
make_transform az n d bz = record { ratio = make_ratio n d; a_zero = az; b_zero = bz }

-- The number of bits of `x`: 64 less __builtin_clzl for the 64-bit numbers, which are fuel 64.
pub bit_length : ℕ → ℕ → ℕ
bit_length zero x = 0
bit_length (suc fuel) x = let rest = bit_length fuel (x / 2) in if x == 0 then 0 else rest + 1

-- The end of Ratio::Compose, after the reduction. The bits of an `|` are as many as those of its
-- longer operand; `numerator << 1` loses the top bit.
pub store_composed : Ratio → Bool × Ratio
store_composed r =
    let bits = max (bit_length 64 (r.numerator * 2 % 2 ^ 64)) (bit_length 64 r.denominator) in
    let shift = bits - 32 in
    (
      leb bits 32,
      record {
        numerator = r.numerator / 2 ^ shift % 2 ^ 32;
        denominator = r.denominator / 2 ^ shift % 2 ^ 32;
      },
    )

-- Ratio::Compose: its result and its output.
pub compose_ratio : Ratio → Ratio → Bool × Ratio
compose_ratio a b =
    let n = a.numerator * b.numerator in
    let d = a.denominator * b.denominator in
    if n == 0 || d == 0
    then (
      true,
      record { numerator = if n == 0 then 0 else 1; denominator = if d == 0 then 0 else 1 },
    )
    else store_composed (reduce_parts n d)

-- scale_u64_to_u64; `none` is false. The operands of each `|` have no common bit, so it is a sum.
unfoldable pub scale_u64_to_u64 : ℕ → ℕ → ℕ → Bool → Option ℕ
scale_u64_to_u64 value numerator denominator round_up =
    let high = numerator * (value / 2 ^ 32) % 2 ^ 64 in
    let low = numerator * (value % 2 ^ 32) % 2 ^ 64 in
    let high' = (high + low / 2 ^ 32) % 2 ^ 64 in
    let low' = low % 2 ^ 32 + high' % denominator * 2 ^ 32 in
    let result = high' / denominator * 2 ^ 32 + low' / denominator in
    if leb denominator (high' / 2 ^ 32)
    then none
    else if not (low' % denominator == 0) && round_up
    then (if (result + 1) % 2 ^ 64 == 0 then none else some ((result + 1) % 2 ^ 64))
    else some result

-- The int64_t that a number is read as, by its lower 64 bits.
unfoldable pub int64_of_bits : ℕ → ℤ
int64_of_bits u = if ltb u (2 ^ 63) then pos u else negsuc (2 ^ 64 - 1 - u)

unfoldable pub wrap_int64 : ℤ → ℤ
wrap_int64 (pos n) = int64_of_bits (n % 2 ^ 64)
wrap_int64 (negsuc n) = int64_of_bits (2 ^ 64 - 1 - n % 2 ^ 64)

abbrev pub is_negative : ℤ → Bool
is_negative (pos n) = false
is_negative (negsuc n) = true

-- sum_check_ovfl: the sign bits tell an overflow.
unfoldable pub sum_check_ovfl : ℤ → ℤ → Option ℤ
sum_check_ovfl a b =
    let out = wrap_int64 (a +ℤ b) in
    if is_negative b
    then (if is_negative a && not (is_negative out) then none else some out)
    else (if not (is_negative a) && is_negative out then none else some out)

-- ABS of an int64_t, of which the least has no opposite.
pub abs_int64 : ℤ → ℤ
abs_int64 (pos n) = pos n
abs_int64 (negsuc n) = wrap_int64 (pos (n + 1))

abbrev pub signed : Bool → ℕ → ℤ
signed true n = sub_ℕ 0 n
signed false n = pos n

-- The end of linear_transform_s64_to_s64, from the scaled distance on.
unfoldable pub rebase : Bool → ℕ → ℤ → Option ℤ
rebase is_neg scaled basis2 =
    if leb (2 ^ 63) scaled
    then (if is_neg && is_negative basis2
        then none
        else if not is_neg && not (is_negative basis2)
        then none
        else if not (ltb_ℤ (pos (scaled % 2 ^ 63)) (abs_int64 basis2))
        then none
        else some (wrap_int64 (signed is_neg scaled +ℤ basis2)))
    else sum_check_ovfl (signed is_neg scaled) basis2

-- abs(val - basis1). The difference of two int64_t as a uint64_t is their distance.
unfoldable pub distance : ℤ → ℤ → ℕ
distance (pos a) (pos b) = if ltb a b then b - a else a - b
distance (pos a) (negsuc b) = a + b + 1
distance (negsuc a) (pos b) = a + b + 1
distance (negsuc a) (negsuc b) = if ltb a b then b - a else a - b

-- linear_transform_s64_to_s64; `none` is false.
unfoldable pub linear_transform : ℤ → ℤ → ℕ → ℕ → Bool → ℤ → Option ℤ
linear_transform val basis1 numerator denominator invert_frac basis2 =
    let is_neg = ltb_ℤ val basis1 in
    let n = if invert_frac then denominator else numerator in
    let d = if invert_frac then numerator else denominator in
    elim (scale_u64_to_u64 (distance val basis1) n d is_neg) as (λ o. Option ℤ) [
      | none ↦ none
      | some scaled ↦ rebase is_neg scaled basis2
    ]

-- DoForwardTransform.
unfoldable pub do_forward_transform : LinearTransform → ℤ → Option ℤ
do_forward_transform t a_in =
    if t.ratio.denominator == 0
    then none
    else linear_transform a_in t.a_zero t.ratio.numerator t.ratio.denominator false t.b_zero

-- DoReverseTransform.
unfoldable pub do_reverse_transform : LinearTransform → ℤ → Option ℤ
do_reverse_transform t b_in =
    if t.ratio.numerator == 0
    then none
    else linear_transform b_in t.b_zero t.ratio.numerator t.ratio.denominator true t.a_zero
