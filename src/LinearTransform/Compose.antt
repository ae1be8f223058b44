-- ===== src/LinearTransform/Compose.antt =====
-- What Ratio::Compose stores.
use native.Mathlib.Nat.{pow-suc, mod-eq_of_lt, mod-one, div-one}
use motown.Base.{
  ℕ, zero, suc, ◌+◌, ◌-◌, ◌*◌, ◌/◌, ◌%◌, ◌^◌, ◌≤◌, ◌<◌, ◌≡◌, subst, sym, ap, inl, inr, true, arith,
  leb, ltb, ◌==◌, max, Bool-cases, ==_iff, ne→==,
}
use motown.Timeline.Gcd.Reduce.{Reduced}
use motown.LinearTransform.{Ratio, reduce_parts, euclid, bit_length, store_composed, compose_ratio}
use motown.LinearTransform.Euclid.{parts, zero-Reduced, reduce_parts-Reduced}

pow_pos : (k : ℕ) → 0 < 2 ^ k
pow_pos zero = omega arith
pow_pos (suc k) = omega (arith, pow_pos k, pow-suc 2 k)

-- A number of at most `k` bits is below 2 ^ k,
lt_of_bit_length : (fuel x k : ℕ) → x < 2 ^ fuel → bit_length fuel x ≤ k → x < 2 ^ k
unfolding bit_length
lt_of_bit_length zero x k h le = omega (arith, pow_pos k)
lt_of_bit_length (suc fuel) x zero h le = elim (Bool-cases (x == 0)) [
  | inl e ↦ ground arith
  | inr e ↦ absurd (ground arith)
]
lt_of_bit_length (suc fuel) x (suc k) h le = elim (Bool-cases (x == 0)) [
  | inl e ↦ omega (arith, pow_pos (suc k), (==_iff x 0).0 e)
  | inr e ↦
      let le' : bit_length fuel (x / 2) + 1 ≤ suc k = (rw (e, bit_length) at le) in
      let ih = lt_of_bit_length fuel (x / 2) k (omega (arith, pow-suc 2 fuel)) (omega arith) in
      omega (arith, pow-suc 2 k)
]

-- and a number below it has at most as many.
bit_length-le : (fuel x k : ℕ) → x < 2 ^ k → bit_length fuel x ≤ k
unfolding bit_length
bit_length-le zero x k h = omega arith
bit_length-le (suc fuel) x zero h = ground arith
bit_length-le (suc fuel) x (suc k) h =
    ground (arith, bit_length-le fuel (x / 2) k (omega (arith, pow-suc 2 k)))

unshifted :
    (r : Ratio) (shift : ℕ)
    → shift ≡ 0
    → r.numerator < 2 ^ 32
    → r.denominator < 2 ^ 32
    → (let s : Ratio = record {
      numerator = r.numerator / 2 ^ shift % 2 ^ 32;
      denominator = r.denominator / 2 ^ shift % 2 ^ 32;
    } in
        s)
      ≡ r
unshifted r shift e hn hd = rw e (ground arith)

-- A reduced ratio of parts of at most 32 bits is stored whole.
store_small :
    (r : Ratio)
    → r.numerator * 2 < 2 ^ 64
    → r.denominator < 2 ^ 64
    → (store_composed r).0 ≡ true
    → (store_composed r).1 ≡ r
unfolding store_composed
store_small r hn hd h =
    let e = mod-eq_of_lt hn in
    let bits = max (bit_length 64 (r.numerator * 2)) (bit_length 64 r.denominator) in
    let le : bits ≤ 32 = ground arith in
    let n_small = lt_of_bit_length 64 (r.numerator * 2) 32 hn (omega arith) in
    let d_small = lt_of_bit_length 64 r.denominator 32 hd (omega arith) in
    let none : bits - 32 ≡ 0 = omega arith in
    rw e (unshifted r (bits - 32) none (omega arith) (omega arith))

-- Where Ratio::Compose returns true, for ratios whose numerators have a product below 2 ^ 63, and
-- whose denominators have one below 2 ^ 64 that is not zero, what it stores is the product of the
-- ratios, in lowest terms, with a denominator that is not zero.
pub compose_ratio-Reduced :
    (a b : Ratio)
    → a.numerator * b.numerator < 2 ^ 63
    → 0 < a.denominator * b.denominator
    → a.denominator * b.denominator < 2 ^ 64
    → (compose_ratio a b).0 ≡ true
    → Reduced
        (a.numerator * b.numerator)
        (a.denominator * b.denominator)
        (parts (compose_ratio a b).1)
unfolding compose_ratio
compose_ratio-Reduced a b hn pos hd done =
    let n = a.numerator * b.numerator in
    let d = a.denominator * b.denominator in
    elim (Bool-cases (n == 0)) [
      | inl e ↦
          rw (e, ne→== d 0 (omega arith))
            (subst (λ t. Reduced t d (0, 1)) (sym ((==_iff n 0).0 e)) (zero-Reduced d pos))
      | inr e ↦
          let v = reduce_parts-Reduced n d pos in
          let h : (store_composed (reduce_parts n d)).0 ≡ true =
            (rw (e, ne→== d 0 (omega arith), compose_ratio) at done) in
          rw
            (
              e,
              ne→== d 0 (omega arith),
              store_small (reduce_parts n d) (omega (arith, v.small)) (omega (arith, v.small)) h,
            )
            v
    ]

abbrev whole : ℕ → Ratio
whole n = record { numerator = n; denominator = 1 }

reduce_parts-whole : (n : ℕ) → 0 < n → reduce_parts n 1 ≡ whole n
unfolding reduce_parts euclid
reduce_parts-whole n h = elim (Bool-cases (ltb n 1)) [
  | inl e ↦ absurd (ground arith)
  | inr e ↦ rw (ne→== n 0 (omega arith), e, mod-one n) (ap (λ t. whole t) (div-one n))
]

store_top : (n k : ℕ) → n ≡ 2 ^ 63 + k → k < 2 ^ 31 → store_composed (whole n) ≡ (true, whole k)
unfolding store_composed
store_top n k e h =
    let bits = bit_length-le 64 (k * 2) 32 (omega arith) in
    let one = bit_length-le 64 1 32 (omega arith) in
    let low : n * 2 % 2 ^ 64 ≡ k * 2 = omega arith in
    let none : max (bit_length 64 (k * 2)) (bit_length 64 1) - 32 ≡ 0 = omega arith in
    let fits : leb (max (bit_length 64 (k * 2)) (bit_length 64 1)) 32 ≡ true = ground arith in
    let stored : n / 2 ^ 0 % 2 ^ 32 ≡ k = omega arith in rw (low, fits, none, stored)

-- Where the numerators of two whole numbers have a product of 2 ^ 63 + k, with k below 2 ^ 31,
-- Ratio::Compose returns true, for no loss of precision, and stores k in place of the product.
pub compose_ratio_drops :
    (a b k : ℕ)
    → a * b ≡ 2 ^ 63 + k
    → k < 2 ^ 31
    → compose_ratio
        (record { numerator = a; denominator = 1 })
        (record { numerator = b; denominator = 1 })
      ≡ (true, record { numerator = k; denominator = 1 })
unfolding compose_ratio
compose_ratio_drops a b k e h =
    rw (ne→== (a * b) 0 (omega arith), reduce_parts-whole (a * b) (omega arith))
      (store_top (a * b) k e h)
