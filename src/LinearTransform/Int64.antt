-- ===== src/LinearTransform/Int64.antt =====
-- The range of an int64_t.
use motown.Base.{◌^◌, ◌<◌, ◌≡◌, Option, none, some, arith}
use motown.Base.Int.{ℤ, pos, negsuc, ◌+ℤ◌}
use motown.LinearTransform.{int64_of_bits, wrap_int64, sum_check_ovfl}

abbrev pub IsInt64 : ℤ → Type 0
IsInt64 (pos n) = n < 2 ^ 63
IsInt64 (negsuc n) = n < 2 ^ 63

pub wrap_int64-IsInt64 : (z : ℤ) → IsInt64 z → wrap_int64 z ≡ z
unfolding wrap_int64 int64_of_bits
wrap_int64-IsInt64 (pos n) h = ground arith
wrap_int64-IsInt64 (negsuc n) h = ground arith

-- A sum that is reported is the sum, and one that is not leaves the range.
abbrev pub Summed : ℤ → ℤ → Option ℤ → Type 0
Summed a b none = ¬ IsInt64 (a +ℤ b)
Summed a b (some s) = (s ≡ a +ℤ b) × IsInt64 (a +ℤ b)

-- The sum of two int64_t, read back in the range or with the sign that tells the overflow.
pub sum_check_ovfl-Summed : (a b : ℤ) → IsInt64 a → IsInt64 b → Summed a b (sum_check_ovfl a b)
unfolding sum_check_ovfl wrap_int64 int64_of_bits ◌+ℤ◌
sum_check_ovfl-Summed (pos a) (pos b) ha hb = ground arith
sum_check_ovfl-Summed (pos a) (negsuc b) ha hb = ground arith
sum_check_ovfl-Summed (negsuc a) (pos b) ha hb = ground arith
sum_check_ovfl-Summed (negsuc a) (negsuc b) ha hb = ground arith
