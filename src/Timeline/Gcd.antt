-- ===== src/Timeline/Gcd.antt =====
-- BinaryGcd and ReduceRatio of mojo/services/media/common/cpp/timeline_rate.cc.
pub mod Odd
pub mod Correct
pub mod Reduce
mod Tests
use motown.Base.{ℕ, zero, suc, ◌+◌, ◌-◌, ◌*◌, ◌/◌, ◌%◌, ◌^◌, ◌&&◌, ltb, ◌==◌, if◌then◌else◌}

-- The loop that counts the common factors of two. The low bit of `a | b` is clear exactly when both
-- are even. The fuel is the first argument.
unfoldable pub strip_common : ℕ → ℕ → ℕ → ℕ → ℕ × ℕ × ℕ
strip_common zero twos a b = (twos, a, b)
strip_common (suc fuel) twos a b =
    let rest = strip_common fuel (twos + 1) (a / 2) (b / 2) in
    if a % 2 == 0 && b % 2 == 0 then rest else (twos, a, b)

-- `while ((x & 1) == 0) x >>= 1;`
unfoldable pub strip_twos : ℕ → ℕ → ℕ
strip_twos zero x = x
strip_twos (suc fuel) x = let rest = strip_twos fuel (x / 2) in if x % 2 == 0 then rest else x

-- One round of the subtraction loop, after the twos of `b` are gone: swap if `a > b`, subtract.
unfoldable pub subtract : ℕ → ℕ → ℕ × ℕ
subtract a b = if ltb b a then (b, a - b) else (a, b - a)

-- The subtraction loop; its value is the final `a`.
unfoldable pub gcd_loop : ℕ → ℕ → ℕ → ℕ
gcd_loop zero a b = a
gcd_loop (suc fuel) a b =
    let (a', b') = subtract a (strip_twos b b) in
    let rest = gcd_loop fuel a' b' in if b' == 0 then a' else rest

-- BinaryGcd over a `width`-bit unsigned type.
unfoldable pub binary_gcd : ℕ → ℕ → ℕ → ℕ
binary_gcd width a b =
    if a == 0
    then b
    else if b == 0
    then a
    else (let (twos, a', b') = strip_common a 0 a b in
        let a'' = strip_twos a' a' in gcd_loop (a'' + b') a'' b' * 2 ^ twos % 2 ^ width)

-- ReduceRatio; its caller holds the denominator to be non-zero.
unfoldable pub reduce_ratio : ℕ → ℕ → ℕ → ℕ × ℕ
reduce_ratio width numerator denominator =
    let gcd = binary_gcd width numerator denominator in
    if gcd == 0
    then (numerator, 1)
    else if gcd == 1
    then (numerator, denominator)
    else (numerator / gcd, denominator / gcd)
