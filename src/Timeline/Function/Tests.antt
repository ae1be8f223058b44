-- ===== src/Timeline/Function/Tests.antt =====
-- Runs of TimelineFunction.
use motown.Base.{ℕ, ◌*◌, ◌^◌, ◌<◌, ◌≡◌, refl, true, some, arith}
use motown.Base.Int.{pos, negsuc, ◌+ℤ◌, ◌-ℤ◌}
use motown.Timeline.Gcd.{reduce_ratio, binary_gcd, strip_common, strip_twos, gcd_loop, subtract}
use motown.Timeline.Rate.{make_rate, product_parts, product, scale_uint64, scale, to_int64}
use motown.Timeline.Rate.Product.{IsValid, make_rate-IsValid}
use motown.Timeline.Function.{
  TimelineFunction, apply_parts, apply, apply_inverse, compose, to_range,
}
use motown.Timeline.Function.Laws.{apply_round_trip}

rate : (s r : ℕ) → s < 2 ^ 32 → r < 2 ^ 32 → 0 < r → IsValid (make_rate s r)
rate s r hs hr positive = (make_rate-IsValid s r hs hr positive).0

abbrev forward : TimelineFunction
forward = record { reference_time = pos 1000; subject_time = negsuc 6; rate = make_rate 3 2 }

three_halves : make_rate 3 2 ≡ record { subject_delta = 3; reference_delta = 2 }
unfolding make_rate reduce_ratio binary_gcd strip_common strip_twos gcd_loop subtract
three_halves = refl

apply_round_trip_example :
    (apply forward (pos 1000 +ℤ pos ((make_rate 3 2).reference_delta * 50))
      ≡ some (negsuc 6 +ℤ pos ((make_rate 3 2).subject_delta * 50)))
    × (apply_inverse forward (negsuc 6 +ℤ pos ((make_rate 3 2).subject_delta * 50))
        ≡ some (pos 1000 +ℤ pos ((make_rate 3 2).reference_delta * 50)))
unfolding ◌+ℤ◌
apply_round_trip_example =
    apply_round_trip forward 50 (rate 3 2 (omega arith) (omega arith) (omega arith))
      (rw three_halves (omega arith)) (rw three_halves (omega arith))
      (rw three_halves (omega arith)) (rw three_halves (omega arith, omega arith))
      (rw three_halves (omega arith, omega arith))

abbrev backward : TimelineFunction
backward = record { reference_time = pos 3; subject_time = pos 8; rate = make_rate 5 6 }

abbrev composed : TimelineFunction
composed = record { reference_time = pos 3; subject_time = pos 11; rate = make_rate 5 4 }

abbrev second : TimelineFunction
second = record { reference_time = pos 6; subject_time = pos 8; rate = make_rate 3 2 }

composes : compose second backward true ≡ some composed
unfolding compose apply apply_parts to_range product product_parts make_rate scale scale_uint64
    to_int64 reduce_ratio binary_gcd strip_common strip_twos gcd_loop subtract ◌+ℤ◌ ◌-ℤ◌
composes = refl

abbrev steep : TimelineFunction
steep = record { reference_time = pos 0; subject_time = negsuc 4; rate = make_rate 3 1 }

three : make_rate 3 1 ≡ record { subject_delta = 3; reference_delta = 1 }
unfolding make_rate reduce_ratio binary_gcd strip_common strip_twos gcd_loop subtract
three = refl
