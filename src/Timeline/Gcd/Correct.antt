-- ===== src/Timeline/Gcd/Correct.antt =====
-- BinaryGcd computes the greatest common divisor; ReduceRatio reduces to lowest terms.
use native.Mathlib.Nat.{
  dvd-zero, dvd-add, dvd-sub, dvd_refl, dvd_trans, mul-dvd-mul_right, dvd_of_mul-dvd-mul_right,
  le_of_dvd, mod-eq_of_lt,
}
use motown.Base.{
  ℕ, zero, suc, ◌+◌, ◌-◌, ◌*◌, ◌/◌, ◌%◌, ◌^◌, ◌≤◌, ◌<◌, ◌∣◌, ◌≡◌, subst, ap, sym, ◌↔◌, ◌⊎◌, inl,
  inr, ◌&&◌, arith, ltb, ◌==◌, if◌then◌else◌, Bool-cases, ==_iff, ne→==,
}
use motown.Timeline.Gcd.{strip_common, strip_twos, subtract, gcd_loop, binary_gcd}
use native.Mathlib.Nat.{pow-suc, mul-one, dvd-mul_right_of_dvd}
use native.Mathlib.Numerals.{add-one}
use motown.Timeline.Gcd.Odd.{
  strip_twos-odd, odd_of_dvd, Stripped, strip_twos-Stripped, dvd-strip_twos, odd_dvd_half,
}

-- `g` is the greatest common divisor of `a` and `b`: its divisors are their common divisors.
abbrev pub IsGcd : ℕ → ℕ → ℕ → Type 0
IsGcd a b g = (d : ℕ) → ((d ∣ a) × (d ∣ b)) ↔ (d ∣ g)

IsGcd-zero : (a : ℕ) → IsGcd a 0 a
IsGcd-zero a d = (λ h. h.0, λ h. (h, dvd-zero d))

pub IsGcd-comm : (a b g : ℕ) → IsGcd a b g → IsGcd b a g
IsGcd-comm a b g v d = (λ h. (v d).0 (h.1, h.0), λ h. let p = (v d).1 h in (p.1, p.0))

IsGcd-sub : (a b g : ℕ) → a ≤ b → IsGcd a (b - a) g → IsGcd a b g
IsGcd-sub a b g le v d = (
  λ h. (v d).0 (h.0, dvd-sub d h.1 h.0),
  λ h.
      let p = (v d).1 h in
      let whole : b - a + a ≡ b = omega arith in
      (p.0, subst (λ t. d ∣ t) whole (dvd-add d p.1 p.0)),
)

IsGcd-strip : (fuel a b g : ℕ) → a % 2 ≡ 1 → IsGcd a (strip_twos fuel b) g → IsGcd a b g
IsGcd-strip fuel a b g odd v d = (
  λ h. (v d).0 (h.0, (dvd-strip_twos fuel b d (odd_of_dvd d a h.0 odd)).0 h.1),
  λ h. let p = (v d).1 h in (p.0, (dvd-strip_twos fuel b d (odd_of_dvd d a p.0 odd)).1 p.1),
)

IsGcd-subtract : (a b g : ℕ) → IsGcd (subtract a b).0 (subtract a b).1 g → IsGcd a b g
unfolding subtract
IsGcd-subtract a b g v = elim (Bool-cases (ltb b a)) [
  | inl lt ↦ IsGcd-comm b a g (IsGcd-sub b a g (ground arith) (rw lt at v))
  | inr ge ↦ IsGcd-sub a b g (ground arith) (rw ge at v)
]

record Round (a b : ℕ) (r : ℕ × ℕ) : Type 0 where
  odd : r.0 % 2 ≡ 1
  small : r.0 + r.1 < a + b

subtract-Round : (a b : ℕ) → a % 2 ≡ 1 → b % 2 ≡ 1 → Round a b (subtract a b)
unfolding subtract
subtract-Round a b p q = ground arith

test-IsGcd : (a b rest : ℕ) → (0 < b → IsGcd a b rest) → IsGcd a b (if b == 0 then a else rest)
test-IsGcd a zero rest h = IsGcd-zero a
test-IsGcd a (suc b) rest h = rw (ne→== (suc b) 0 (omega arith)) (h (omega arith))

gcd_loop-IsGcd : (fuel a b : ℕ) → a % 2 ≡ 1 → 0 < b → a + b ≤ fuel → IsGcd a b (gcd_loop fuel a b)
unfolding gcd_loop
gcd_loop-IsGcd zero a b odd pos le = absurd (omega arith)
gcd_loop-IsGcd (suc fuel) a b odd pos le =
    let b' = strip_twos b b in
    let s : Stripped b b' = strip_twos-Stripped b b pos (omega arith) in
    let r : Round a b' (subtract a b') = subtract-Round a b' odd s.odd in
    IsGcd-strip b a b _ odd (
      IsGcd-subtract a b' _ (
        test-IsGcd (subtract a b').0 (subtract a b').1 _ λ pos'.
          gcd_loop-IsGcd fuel (subtract a b').0 (subtract a b').1 r.odd pos'
            (omega (arith, r.small, s.small))))

double-IsGcd : (a b g : ℕ) → IsGcd a b g → IsGcd (a * 2) (b * 2) (g * 2)
double-IsGcd a b g v d = (
  to,
  λ h.
      let gs = (v g).1 (dvd_refl g) in
      (dvd_trans d h (mul-dvd-mul_right g gs.0 2), dvd_trans d h (mul-dvd-mul_right g gs.1 2)),
)
  where
    half : (x : ℕ) → d % 2 ≡ 1 → d ∣ x * 2 → d ∣ x
    half x odd h =
        let e : x * 2 / 2 ≡ x = omega arith in
        subst (λ t. d ∣ t) e (odd_dvd_half d (x * 2) odd (omega arith) h)

    to : (d ∣ a * 2) × (d ∣ b * 2) → d ∣ g * 2
    to h = elim (Bool-cases (d % 2 == 0)) [
      | inl e ↦
          let twice : d ≡ d / 2 * 2 = omega (arith, (==_iff (d % 2) 0).0 e) in
          let ha : d / 2 * 2 ∣ a * 2 = subst (λ t. t ∣ a * 2) twice h.0 in
          let hb : d / 2 * 2 ∣ b * 2 = subst (λ t. t ∣ b * 2) twice h.1 in
          subst (λ t. t ∣ g * 2) (sym twice)
            (mul-dvd-mul_right (d / 2)
              ((v (d / 2)).0 (
                dvd_of_mul-dvd-mul_right {k = 2} (d / 2) (omega arith) ha,
                dvd_of_mul-dvd-mul_right {k = 2} (d / 2) (omega arith) hb,
              ))
              2)
      | inr e ↦
          let odd : d % 2 ≡ 1 = ground arith in
          dvd-mul_right_of_dvd d ((v d).0 (half a odd h.0, half b odd h.1)) 2
    ]

pow_shift : (t a : ℕ) → a * 2 ^ suc t ≡ a * 2 ^ t * 2
pow_shift t a = rw (pow-suc 2 t) (omega arith)

scale-IsGcd : (t a b g : ℕ) → IsGcd a b g → IsGcd (a * 2 ^ t) (b * 2 ^ t) (g * 2 ^ t)
scale-IsGcd zero a b g v = rw (mul-one a, mul-one b, mul-one g) v
scale-IsGcd (suc t) a b g v =
    rw (pow_shift t a, pow_shift t b, pow_shift t g)
      (double-IsGcd (a * 2 ^ t) (b * 2 ^ t) (g * 2 ^ t) (scale-IsGcd t a b g v))

halve_pow : (t a : ℕ) → a % 2 ≡ 0 → a / 2 * 2 ^ (t + 1) ≡ a * 2 ^ t
halve_pow t a even =
    let whole : a ≡ 2 * (a / 2) = omega arith in
    rw (add-one t, pow-suc 2 t) (omega (arith, ap (λ (x : ℕ). x * 2 ^ t) whole))

record Common (fuel twos a b : ℕ) (r : ℕ × ℕ × ℕ) : Type 0 where
  keeps : (g : ℕ) → IsGcd r.1 r.2 g → IsGcd (a * 2 ^ twos) (b * 2 ^ twos) (g * 2 ^ r.0)
  left_pos : 0 < a → 0 < r.1
  right_pos : 0 < b → 0 < r.2
  one_odd : 0 < a → a ≤ fuel → (r.1 % 2 ≡ 1) ⊎ (r.2 % 2 ≡ 1)

strip_common-Common : (fuel twos a b : ℕ) → Common fuel twos a b (strip_common fuel twos a b)
unfolding strip_common
strip_common-Common zero twos a b = record {
  keeps = scale-IsGcd twos a b;
  left_pos = λ h. h;
  right_pos = λ h. h;
  one_odd = λ p h. absurd (omega arith);
}
strip_common-Common (suc fuel) twos a b = elim (Bool-cases (a % 2 == 0 && b % 2 == 0)) [
  | inl e ↦ rw e (
      let c = strip_common-Common fuel (twos + 1) (a / 2) (b / 2) in
      let ea : a % 2 ≡ 0 = ground arith in
      let eb : b % 2 ≡ 0 = ground arith in
      record {
        keeps = λ g v. rw (← halve_pow twos a ea, ← halve_pow twos b eb) (c.keeps g v);
        left_pos = λ p. c.left_pos (omega arith);
        right_pos = λ p. c.right_pos (omega arith);
        one_odd = λ p h. c.one_odd (omega arith) (omega arith);
      })
  | inr e ↦ rw e (record {
    keeps = scale-IsGcd twos a b;
    left_pos = λ h. h;
    right_pos = λ h. h;
    one_odd = λ p h. ground arith;
  })
]

-- Once one of the two is odd, the other may lose its twos.
IsGcd-strip_left :
    (a b g : ℕ) → 0 < a → (a % 2 ≡ 1) ⊎ (b % 2 ≡ 1) → IsGcd (strip_twos a a) b g → IsGcd a b g
IsGcd-strip_left a b g pos (inl odd) v = rw (strip_twos-odd a a odd) at v
IsGcd-strip_left a b g pos (inr odd) v =
    IsGcd-comm b a g (IsGcd-strip a b a g odd (IsGcd-comm _ b g v))

-- The shift at the end does not overflow.
IsGcd-lt : (a b g n : ℕ) → 0 < a → a < n → IsGcd a b g → g % n ≡ g
IsGcd-lt a b g n pos lt v =
    let le : g ≤ a = le_of_dvd pos ((v g).1 (dvd_refl g)).0 in mod-eq_of_lt (omega arith)

core-IsGcd :
    (width a b : ℕ)
    → 0 < a
    → 0 < b
    → a < 2 ^ width
    → IsGcd a b (
        let (twos, a', b') = strip_common a 0 a b in
        let a'' = strip_twos a' a' in gcd_loop (a'' + b') a'' b' * 2 ^ twos % 2 ^ width)
core-IsGcd width a b pa pb lt =
    let (twos, a', b') = strip_common a 0 a b in
    let c : Common a 0 a b (twos, a', b') = strip_common-Common a 0 a b in
    let a'' = strip_twos a' a' in
    let g = gcd_loop (a'' + b') a'' b' in
    let s : Stripped a' a'' = strip_twos-Stripped a' a' (c.left_pos pa) (omega arith) in
    let looped : IsGcd a'' b' g =
      gcd_loop-IsGcd (a'' + b') a'' b' s.odd (c.right_pos pb) (omega arith) in
    let unstripped : IsGcd a' b' g =
      IsGcd-strip_left a' b' g (c.left_pos pa) (c.one_odd pa (omega arith)) looped in
    let whole : IsGcd a b (g * 2 ^ twos) = rw (mul-one a, mul-one b) at (c.keeps g unstripped) in
    rw (IsGcd-lt a b (g * 2 ^ twos) (2 ^ width) pa lt whole) whole

-- For arguments of a type of the given width, the divisors of BinaryGcd's result are exactly the
-- common divisors of the arguments.
pub binary_gcd-IsGcd :
    (width a b : ℕ) → a < 2 ^ width → b < 2 ^ width → IsGcd a b (binary_gcd width a b)
unfolding binary_gcd
binary_gcd-IsGcd width a b la lb = elim (Bool-cases (a == 0)) [
  | inl e ↦
      let zero_a : a ≡ 0 = (==_iff a 0).0 e in
      rw e (subst (λ t. IsGcd t b b) (sym zero_a) (IsGcd-comm b 0 b (IsGcd-zero b)))
  | inr na ↦ elim (Bool-cases (b == 0)) [
    | inl e ↦
        let zero_b : b ≡ 0 = (==_iff b 0).0 e in
        rw (na, e) (subst (λ t. IsGcd a t a) (sym zero_b) (IsGcd-zero a))
    | inr nb ↦ rw (na, nb) (core-IsGcd width a b (ground arith) (ground arith) la)
  ]
]
