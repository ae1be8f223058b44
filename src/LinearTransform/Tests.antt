-- ===== src/LinearTransform/Tests.antt =====
-- The transforms at concrete inputs.
use motown.Base.{◌*◌, ◌-◌, ◌^◌, ◌≡◌, refl, false, some, arith}
use motown.Base.Int.{pos, negsuc, ◌+ℤ◌}
use motown.Timeline.Gcd.Reduce.{Reduced}
use motown.LinearTransform.{
  LinearTransform, euclid, reduce_parts, make_ratio, make_transform, bit_length, compose_ratio,
  store_composed, scale_u64_to_u64, int64_of_bits, wrap_int64, sum_check_ovfl, rebase, distance,
  linear_transform, do_forward_transform, do_reverse_transform,
}
use motown.LinearTransform.Transform.{
  exact, Transformed, do_forward_transform-Transformed, do_reverse_transform-Transformed,
}
use motown.LinearTransform.Euclid.{parts, reduce_parts-Reduced}
use motown.LinearTransform.Compose.{compose_ratio-Reduced}

-- 48000 frames to a second, from the time 10 on.
abbrev frames : LinearTransform
frames = record {
  ratio = record { numerator = 3; denominator = 62500 };
  a_zero = pos 10;
  b_zero = negsuc 4;
}

frames_made : make_transform (pos 10) 48000 1000000000 (negsuc 4) ≡ frames
unfolding make_transform make_ratio reduce_parts euclid
frames_made = refl

a_second : do_forward_transform frames (pos 1000000010) ≡ some (pos 47995)
unfolding do_forward_transform linear_transform scale_u64_to_u64 rebase distance sum_check_ovfl
    wrap_int64 int64_of_bits ◌+ℤ◌
a_second = refl

a_tick_before : do_forward_transform frames (pos 9) ≡ some (negsuc 5)
unfolding do_forward_transform linear_transform scale_u64_to_u64 rebase distance sum_check_ovfl
    wrap_int64 int64_of_bits ◌+ℤ◌
a_tick_before = refl

lossy :
    compose_ratio
      (record { numerator = 2 ^ 32 - 1; denominator = 2 })
      (record { numerator = 2 ^ 32 - 1; denominator = 2 })
    ≡ (false, record { numerator = 2 ^ 32 - 2; denominator = 0 })
unfolding compose_ratio reduce_parts euclid store_composed bit_length
lossy = refl

do_forward_transform-Transformed_example :
    Transformed
      (exact (pos 1000000010) (pos 10) 3 62500 (negsuc 4))
      (negsuc 4)
      (do_forward_transform frames (pos 1000000010))
do_forward_transform-Transformed_example =
    do_forward_transform-Transformed frames (pos 1000000010)
      (record {
        numerator = omega arith;
        denominator = omega arith;
        a_zero = omega arith;
        b_zero = omega arith;
      })
      (omega arith) (omega arith)

do_reverse_transform-Transformed_example :
    Transformed
      (exact (pos 47995) (negsuc 4) 62500 3 (pos 10))
      (pos 10)
      (do_reverse_transform frames (pos 47995))
do_reverse_transform-Transformed_example =
    do_reverse_transform-Transformed frames (pos 47995)
      (record {
        numerator = omega arith;
        denominator = omega arith;
        a_zero = omega arith;
        b_zero = omega arith;
      })
      (omega arith) (omega arith)

reduce_parts-Reduced_example : Reduced 48 36 (parts (reduce_parts 48 36))
reduce_parts-Reduced_example = reduce_parts-Reduced 48 36 (omega arith)

compose_ratio-Reduced_example : Reduced (4 * 3) (9 * 8) (
    parts
      (compose_ratio
        (record { numerator = 4; denominator = 9 })
        (record { numerator = 3; denominator = 8 })).1)
unfolding compose_ratio reduce_parts euclid store_composed bit_length
compose_ratio-Reduced_example =
    compose_ratio-Reduced (record { numerator = 4; denominator = 9 })
      (record { numerator = 3; denominator = 8 }) (omega arith) (omega arith) (omega arith) refl
