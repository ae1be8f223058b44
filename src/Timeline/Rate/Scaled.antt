-- ===== src/Timeline/Rate/Scaled.antt =====
-- What ScaleUInt64 and Scale compute.
use native.Mathlib.Nat.{
  mul-le-mul, mul-add-div, mul-add-mod_self_left, div-add-mod, div-lt_iff_lt-mul, mod-lt,
  mod-eq_of_lt,
}
use motown.Base.{
  ℕ, ◌+◌, ◌-◌, ◌*◌, ◌/◌, ◌%◌, ◌^◌, ◌≤◌, ◌<◌, ◌≡◌, ◌≢◌, ap, ◌∙◌, inl, inr, Bool, true, false, ◌&&◌,
  ◌||◌, not, Option, none, some, arith, leb, ◌==◌, if◌then◌else◌, Bool-cases, ==_iff, ne→==,
}
use motown.Base.Int.{pos, negsuc, sub_ℕ}
use motown.Timeline.Rate.{int64_max, abs_of_min_int64, scale_uint64, overflow, to_int64, scale}

-- The quotient of two numbers, rounded up where that is asked for.
abbrev pub rounded : ℕ → ℕ → Bool → ℕ
rounded p r round_up = if round_up && not (p % r == 0) then p / r + 1 else p / r

-- The rounded quotient where it fits into a uint64_t, but for the two quotients that are not rounded
-- up as they should: 2 ^ 63 - 1 is taken for an overflow, and 2 ^ 64 - 1 becomes 0.
abbrev pub scaled : ℕ → ℕ → ℕ → Bool → Option ℕ
scaled v s r round_up =
    let q = rounded (v * s) r round_up in
    if leb (2 ^ 64) (v * s / r) || (not (q == v * s / r) && v * s / r == int64_max)
    then none
    else if q == 2 ^ 64
    then some 0
    else some q

-- The division by halves: `high` and `low` are the halves of the product.
pub record Halves (n r high low : ℕ) : Type 0 where
  pub quotient : n / r ≡ high / r * 2 ^ 32 + (low + high % r * 2 ^ 32) / r
  pub remainder : n % r ≡ (low + high % r * 2 ^ 32) % r
  pub small : (low + high % r * 2 ^ 32) / r < 2 ^ 32

pub split-Halves :
    (n r high low : ℕ) → 0 < r → low < 2 ^ 32 → n ≡ high * 2 ^ 32 + low → Halves n r high low
split-Halves n r high low hr lt e = record {
  quotient = ap (λ t. t / r) whole ∙ mul-add-div hr (high / r * 2 ^ 32) rest;
  remainder = ap (λ t. t % r) whole ∙ mul-add-mod_self_left r (high / r * 2 ^ 32) rest;
  small = (div-lt_iff_lt-mul hr).1 fits;
}
  where
    rest : ℕ
    rest = low + high % r * 2 ^ 32

    whole : n ≡ r * (high / r * 2 ^ 32) + rest
    whole = omega (arith, div-add-mod high r)

    fits : rest < 2 ^ 32 * r
    fits = omega (arith, mod-lt high hr)

join_halves :
    (top bottom remainder q : ℕ) (up : Bool)
    → bottom < 2 ^ 32
    → q ≡ top * 2 ^ 32 + bottom
    → (if not (top / 2 ^ 32 == 0)
        then none
        else if up && not (remainder == 0)
        then (if top * 2 ^ 32 + bottom == int64_max
            then none
            else some ((top * 2 ^ 32 + bottom + 1) % 2 ^ 64))
        else some (top * 2 ^ 32 + bottom))
      ≡ (let k = if up && not (remainder == 0) then q + 1 else q in
          if leb (2 ^ 64) q || (not (k == q) && q == int64_max)
          then none
          else if k == 2 ^ 64
          then some 0
          else some k)
join_halves top bottom remainder q true h e = rw e (ground arith)
join_halves top bottom remainder q false h e = rw e (ground arith)

pub product_halves : (s v : ℕ) → v * s ≡ s * (v / 2 ^ 32) * 2 ^ 32 + s * (v % 2 ^ 32)
product_halves s v =
    let whole : v ≡ v / 2 ^ 32 * 2 ^ 32 + v % 2 ^ 32 = omega arith in
    ap (λ (t : ℕ). t * s) whole ∙ omega arith

small_product : (s h : ℕ) → s < 2 ^ 32 → h < 2 ^ 32 → s * h ≤ (2 ^ 32 - 1) * (2 ^ 32 - 1)
small_product s h p q = mul-le-mul {n₂ = 2 ^ 32 - 1} {m₂ = 2 ^ 32 - 1} (omega arith) (omega arith)

-- No 64-bit product or sum of the function wraps.
pub record NoWrap (s v : ℕ) : Type 0 where
  pub high : s * (v / 2 ^ 32) % 2 ^ 64 ≡ s * (v / 2 ^ 32)
  pub low : s * (v % 2 ^ 32) % 2 ^ 64 ≡ s * (v % 2 ^ 32)
  pub carry :
      (s * (v / 2 ^ 32) + s * (v % 2 ^ 32) / 2 ^ 32) % 2 ^ 64
      ≡ s * (v / 2 ^ 32) + s * (v % 2 ^ 32) / 2 ^ 32

pub product-NoWrap : (s v : ℕ) → s < 2 ^ 32 → v < 2 ^ 64 → NoWrap s v
product-NoWrap s v hs hv =
    let a = small_product s (v / 2 ^ 32) hs (omega arith) in
    let b = small_product s (v % 2 ^ 32) hs (omega arith) in
    record {
      high = mod-eq_of_lt (omega (arith, a));
      low = mod-eq_of_lt (omega (arith, b));
      carry = mod-eq_of_lt (omega (arith, a, b));
    }

-- For a 64-bit value, a 32-bit subject delta and a non-zero reference delta, ScaleUInt64, which
-- works on 32-bit halves, computes value * subject delta / reference delta exactly, rounded down,
-- or up where that is asked for, but in these cases: it reports an overflow where the quotient is
-- at least 2 ^ 64, and where it would round up a quotient of 2 ^ 63 - 1; and where it would round
-- up a quotient of 2 ^ 64 - 1, it gives 0 and reports no overflow.
pub scale_uint64_lem :
    (v s r : ℕ) (up : Bool)
    → v < 2 ^ 64
    → s < 2 ^ 32
    → 0 < r
    → scale_uint64 v s r up ≡ scaled v s r up
unfolding scale_uint64
scale_uint64_lem v s r up hv hs hr =
    let w : NoWrap s v = product-NoWrap s v hs hv in
    let low = s * (v % 2 ^ 32) in
    let high = s * (v / 2 ^ 32) + low / 2 ^ 32 in
    let h : Halves (v * s) r high (low % 2 ^ 32) =
      split-Halves (v * s) r high (low % 2 ^ 32) hr (omega arith)
        (omega (arith, product_halves s v)) in
    rw (w.high, w.low, w.carry, h.remainder)
      (join_halves (high / r) ((low % 2 ^ 32 + high % r * 2 ^ 32) / r)
        ((low % 2 ^ 32 + high % r * 2 ^ 32) % r) (v * s / r) up h.small h.quotient)

-- For a non-negative 64-bit value, a 32-bit subject delta and a non-zero reference delta, Scale is
-- the quotient rounded down, or kOverflow where that exceeds the greatest int64_t.
pub scale-pos :
    (n s r : ℕ)
    → n < 2 ^ 63
    → s < 2 ^ 32
    → 0 < r
    → scale (pos n) s r ≡ (if leb (n * s / r) int64_max then pos (n * s / r) else overflow)
unfolding scale to_int64
scale-pos n s r hn hs hr = rw (scale_uint64_lem n s r false (omega arith) hs hr) (ground arith)

-- The quotient rounded up.
abbrev pub div_up : ℕ → ℕ → ℕ
div_up p r = if p % r == 0 then p / r else p / r + 1

scale-negsuc_scaled :
    (n s r : ℕ)
    → n < 2 ^ 63
    → s < 2 ^ 32
    → 0 < r
    → scale (negsuc n) s r ≡ to_int64 true (scaled (n + 1) s r true)
unfolding scale
scale-negsuc_scaled n s r hn hs hr = elim (Bool-cases (n == int64_max)) [
  | inl e ↦
      let least : abs_of_min_int64 ≡ n + 1 = omega (arith, (==_iff n int64_max).0 e) in
      rw (e, least) (ap (to_int64 true) (scale_uint64_lem (n + 1) s r true (omega arith) hs hr))
  | inr e ↦ rw e (ap (to_int64 true) (scale_uint64_lem (n + 1) s r true (omega arith) hs hr))
]

-- For a 64-bit value -(n + 1), a 32-bit subject delta and a non-zero reference delta, Scale is the
-- product divided and rounded towards minus infinity, where the rounded magnitude is at most the
-- greatest int64_t.
pub scale-negsuc :
    (n s r : ℕ)
    → n < 2 ^ 63
    → s < 2 ^ 32
    → 0 < r
    → div_up ((n + 1) * s) r ≤ int64_max
    → scale (negsuc n) s r ≡ sub_ℕ 0 (div_up ((n + 1) * s) r)
unfolding to_int64
scale-negsuc n s r hn hs hr h = rw (scale-negsuc_scaled n s r hn hs hr) (ground arith)

-- For a 64-bit value -(n + 1), a 32-bit subject delta and a non-zero reference delta, where the
-- magnitude's quotient is 2 ^ 64 - 1 with a remainder, Scale returns 0.
pub scale_wraps :
    (n s r : ℕ)
    → n < 2 ^ 63
    → s < 2 ^ 32
    → 0 < r
    → (n + 1) * s / r ≡ 2 ^ 64 - 1
    → (n + 1) * s % r ≢ 0
    → scale (negsuc n) s r ≡ pos 0
unfolding to_int64
scale_wraps n s r hn hs hr q rem =
    rw (scale-negsuc_scaled n s r hn hs hr, q, ne→== ((n + 1) * s % r) 0 rem)
