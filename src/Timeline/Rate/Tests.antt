-- ===== src/Timeline/Rate/Tests.antt =====
-- Runs of TimelineRate.
use motown.Base.{◌<◌, ◌≡◌, refl, true, some, arith}
use motown.Timeline.Gcd.{binary_gcd, reduce_ratio}
use motown.Timeline.Gcd.{reduce_ratio, binary_gcd, strip_common, strip_twos, gcd_loop, subtract}
use motown.Timeline.Rate.{make_rate, product_parts, product, scale_uint64}
use motown.Timeline.Rate.Scaled.{scaled, scale_uint64_lem}
use motown.Timeline.Rate.Product.{IsValid, make_rate-IsValid}

scale_uint64_lem_example : scale_uint64 7 10 4 true ≡ scaled 7 10 4 true
scale_uint64_lem_example = scale_uint64_lem 7 10 4 true (omega arith) (omega arith) (omega arith)

three_halves-IsValid : IsValid (make_rate 3 2)
three_halves-IsValid = (make_rate-IsValid 3 2 (omega arith) (omega arith) (omega arith)).0

five_sixths-IsValid : IsValid (make_rate 5 6)
five_sixths-IsValid = (make_rate-IsValid 5 6 (omega arith) (omega arith) (omega arith)).0

pub halves_product : product (make_rate 3 2) (make_rate 5 6) true ≡ some (make_rate 5 4)
unfolding product product_parts make_rate reduce_ratio binary_gcd strip_common strip_twos gcd_loop
    subtract
halves_product = refl

subject_positive : 0 < (make_rate 3 2).subject_delta
unfolding make_rate reduce_ratio binary_gcd strip_common strip_twos gcd_loop subtract
subject_positive = omega arith
