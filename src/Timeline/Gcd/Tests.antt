-- ===== src/Timeline/Gcd/Tests.antt =====
-- Runs of BinaryGcd and ReduceRatio.
use motown.Base.{◌≡◌, refl, arith}
use motown.Timeline.Gcd.{strip_common, strip_twos, subtract, gcd_loop, binary_gcd, reduce_ratio}
use motown.Timeline.Gcd.Correct.{IsGcd, binary_gcd-IsGcd}

binary_gcd-IsGcd_example : IsGcd 12 18 (binary_gcd 8 12 18)
binary_gcd-IsGcd_example = binary_gcd-IsGcd 8 12 18 (omega arith) (omega arith)

three_halves : reduce_ratio 32 6 4 ≡ (3, 2)
unfolding reduce_ratio binary_gcd strip_common strip_twos gcd_loop subtract
three_halves = refl
