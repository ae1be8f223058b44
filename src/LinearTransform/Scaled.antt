-- ===== src/LinearTransform/Scaled.antt =====
-- What scale_u64_to_u64 computes.
use native.Mathlib.Nat.{le-div_iff_mul-le}
use motown.Base.{
  ℕ, ◌+◌, ◌*◌, ◌/◌, ◌%◌, ◌^◌, ◌≤◌, ◌<◌, ◌≡◌, inl, inr, Bool, true, false, ◌&&◌, not, none, some,
  arith, leb, ltb, ◌==◌, if◌then◌else◌, Bool-cases,
}
use motown.Timeline.Rate.Scaled.{Halves, split-Halves, product_halves, NoWrap, product-NoWrap}
use motown.LinearTransform.{scale_u64_to_u64}

-- value * n / d, rounded up or down.
abbrev pub rounded : ℕ → ℕ → ℕ → Bool → ℕ
rounded v n d up = if up && not (v * n % d == 0) then v * n / d + 1 else v * n / d

-- The overflow test on the upper halves is the test on the quotient.
test_swap : (d h : ℕ) → 0 < d → leb d (h / 2 ^ 32) ≡ leb (2 ^ 32) (h / d)
test_swap d h hd =
    let to = le-div_iff_mul-le {k = d} {x = 2 ^ 32} {y = h} hd in
    elim (Bool-cases (leb d (h / 2 ^ 32))) [
      | inl e ↦ let le : 2 ^ 32 ≤ h / d = to.1 (ground arith) in rw e (ground arith)
      | inr e ↦ elim (Bool-cases (leb (2 ^ 32) (h / d))) [
        | inl f ↦ let le : 2 ^ 32 * d ≤ h = to.0 (ground arith) in absurd (ground arith)
        | inr f ↦ rw (e, f)
      ]
    ]

join_halves :
    (top bottom remainder q : ℕ) (up : Bool)
    → bottom < 2 ^ 32
    → q ≡ top * 2 ^ 32 + bottom
    → (if leb (2 ^ 32) top
        then none
        else if not (remainder == 0) && up
        then (if (top * 2 ^ 32 + bottom + 1) % 2 ^ 64 == 0
            then none
            else some ((top * 2 ^ 32 + bottom + 1) % 2 ^ 64))
        else some (top * 2 ^ 32 + bottom))
      ≡ (if ltb (if up && not (remainder == 0) then q + 1 else q) (2 ^ 64)
          then some (if up && not (remainder == 0) then q + 1 else q)
          else none)
join_halves top bottom remainder q true h e = rw e (ground arith)
join_halves top bottom remainder q false h e = rw e (ground arith)

-- For a 64-bit value, a 32-bit numerator and a denominator that is not zero, scale_u64_to_u64,
-- which works on 32-bit halves, computes value * numerator / denominator exactly, rounded as
-- asked; and it fails exactly where the rounded quotient does not fit in 64 bits.
pub scale_u64_to_u64_lem :
    (v n d : ℕ) (up : Bool)
    → v < 2 ^ 64
    → n < 2 ^ 32
    → 0 < d
    → scale_u64_to_u64 v n d up
      ≡ (if ltb (rounded v n d up) (2 ^ 64) then some (rounded v n d up) else none)
unfolding scale_u64_to_u64
scale_u64_to_u64_lem v n d up hv hn hd =
    let w : NoWrap n v = product-NoWrap n v hn hv in
    let low = n * (v % 2 ^ 32) in
    let high = n * (v / 2 ^ 32) + low / 2 ^ 32 in
    let h : Halves (v * n) d high (low % 2 ^ 32) =
      split-Halves (v * n) d high (low % 2 ^ 32) hd (omega arith)
        (omega (arith, product_halves n v)) in
    rw (w.high, w.low, w.carry, test_swap d high hd, h.remainder)
      (join_halves (high / d) ((low % 2 ^ 32 + high % d * 2 ^ 32) / d)
        ((low % 2 ^ 32 + high % d * 2 ^ 32) % d) (v * n / d) up h.small h.quotient)
