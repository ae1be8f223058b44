-- ===== src/Timeline/Function/Laws.antt =====
-- What a timeline function and its inverse give, and where a scaled time overflows.
use native.Mathlib.Nat.{mul-div_cancel_left}
use motown.Base.{ℕ, suc, ◌-◌, ◌*◌, ◌/◌, ◌^◌, ◌≤◌, ◌<◌, ◌≡◌, ◌≢◌, ap, ◌∙◌, Bool, some, arith}
use motown.Base.Int.{ℤ, pos, negsuc, pos_part, neg_part, ◌+ℤ◌, ◌-ℤ◌}
use motown.Timeline.Rate.{TimelineRate, scale, product, int64_max, abs_of_min_int64, overflow}
use motown.Timeline.Rate.Scaled.{scale-pos}
use motown.Timeline.Rate.Product.{IsValid, inverse-reduced}
use motown.Timeline.Function.{
  TimelineFunction, to_range, apply_parts, apply, apply_inverse_parts, apply_inverse, compose,
}

-- An int64_t value.
abbrev pub IsInt64 : ℤ → Type 0
IsInt64 z = (pos_part z ≤ int64_max) × (neg_part z ≤ abs_of_min_int64)

to_range_lem : (z : ℤ) → IsInt64 z → to_range z ≡ some z
unfolding to_range
to_range_lem z h = ground arith

sub_of_add : (a : ℤ) (n : ℕ) → (a +ℤ pos n) -ℤ a ≡ pos n
unfolding ◌+ℤ◌ ◌-ℤ◌
sub_of_add a n = ground arith

add_comm_pos : (a : ℤ) (n : ℕ) → pos n +ℤ a ≡ a +ℤ pos n
unfolding ◌+ℤ◌
add_comm_pos a n = ground arith

scale_multiple :
    (s r k : ℕ)
    → s < 2 ^ 32
    → 0 < r
    → r * k ≤ int64_max
    → s * k ≤ int64_max
    → scale (pos (r * k)) s r ≡ pos (s * k)
scale_multiple s r k hs hr bound result =
    let regrouped : r * k * s ≡ r * (s * k) = omega arith in
    let quotient : r * k * s / r ≡ s * k =
      ap (λ t. t / r) regrouped ∙ mul-div_cancel_left (s * k) hr in
    rw (scale-pos (r * k) s r (omega arith) hs hr, quotient) (ground arith)

apply_parts_step :
    (rt st : ℤ) (rate : TimelineRate) (x d : ℤ)
    → to_range (x -ℤ rt) ≡ some d
    → apply_parts rt st rate x ≡ to_range (scale d rate.subject_delta rate.reference_delta +ℤ st)
unfolding apply_parts
apply_parts_step rt st rate x d e = rw (e, apply_parts)

-- A step by a multiple of the reference delta moves the subject by that multiple of its delta.
apply_parts_multiple :
    (rt st : ℤ) (rate : TimelineRate) (k : ℕ)
    → rate.subject_delta < 2 ^ 32
    → 0 < rate.reference_delta
    → rate.reference_delta * k ≤ int64_max
    → rate.subject_delta * k ≤ int64_max
    → IsInt64 (st +ℤ pos (rate.subject_delta * k))
    → apply_parts rt st rate (rt +ℤ pos (rate.reference_delta * k))
      ≡ some (st +ℤ pos (rate.subject_delta * k))
apply_parts_multiple rt st rate k hs hr bound result range =
    let n = rate.reference_delta * k in
    let delta : to_range ((rt +ℤ pos n) -ℤ rt) ≡ some (pos n) =
      rw (sub_of_add rt n) (to_range_lem (pos n) (bound, omega arith)) in
    rw
      (
        apply_parts_step rt st rate (rt +ℤ pos n) (pos n) delta,
        scale_multiple rate.subject_delta rate.reference_delta k hs hr bound result,
        add_comm_pos st (rate.subject_delta * k),
      )
      (to_range_lem _ range)

-- For a valid rate with a non-zero subject delta, at a reference time a multiple of the reference
-- delta after the basis, Apply gives the exact subject time, and ApplyInverse leads back, where
-- all the times are in range.
pub apply_round_trip :
    (f : TimelineFunction) (k : ℕ)
    → IsValid f.rate
    → 0 < f.rate.subject_delta
    → f.rate.reference_delta * k ≤ int64_max
    → f.rate.subject_delta * k ≤ int64_max
    → IsInt64 (f.subject_time +ℤ pos (f.rate.subject_delta * k))
    → IsInt64 (f.reference_time +ℤ pos (f.rate.reference_delta * k))
    → (apply f (f.reference_time +ℤ pos (f.rate.reference_delta * k))
        ≡ some (f.subject_time +ℤ pos (f.rate.subject_delta * k)))
      × (apply_inverse f (f.subject_time +ℤ pos (f.rate.subject_delta * k))
          ≡ some (f.reference_time +ℤ pos (f.rate.reference_delta * k)))
unfolding apply apply_inverse apply_inverse_parts
apply_round_trip f k v moving bound result subject_range reference_range =
    let rate = f.rate in
    (
      apply_parts_multiple f.reference_time f.subject_time rate k v.subject_bound v.positive bound
          result subject_range,
      rw (inverse-reduced rate v) (
          apply_parts_multiple f.subject_time f.reference_time
            (record { subject_delta = rate.reference_delta; reference_delta = rate.subject_delta })
            k v.reference_bound moving result bound reference_range),
    )

-- Where Compose returns a function, it starts at the first function's reference time and agrees
-- there with the composition of the two; its rate is their product.
pub compose-basis :
    (bc ab ac : TimelineFunction) (exact : Bool)
    → compose bc ab exact ≡ some ac
    → (ac.reference_time ≡ ab.reference_time)
      × (apply bc ab.subject_time ≡ some ac.subject_time)
      × (product ab.rate bc.rate exact ≡ some ac.rate)
unfolding compose
compose-basis bc ab ac exact e = (ground arith, ground arith, ground arith)

scale-overflow :
    (s r n : ℕ)
    → n < 2 ^ 63
    → s < 2 ^ 32
    → 0 < r
    → int64_max < n * s / r
    → scale (pos n) s r ≡ overflow
scale-overflow s r n hn hs hr over = rw (scale-pos n s r hn hs hr) (ground arith)

below_overflow :
    (k : ℕ) → k < int64_max → to_range (overflow +ℤ negsuc k) ≡ some (pos (int64_max - suc k))
unfolding ◌+ℤ◌ to_range
below_overflow k hk = ground arith

-- With a valid rate and a negative subject time that is not below the type's range, where the
-- scaling of a non-negative distance from the basis overflows, Apply returns a time that is less
-- than kOverflow by the size of the subject time.
pub apply_hides_overflow :
    (f : TimelineFunction) (n k : ℕ)
    → IsValid f.rate
    → f.subject_time ≡ negsuc k
    → n < 2 ^ 63
    → k < int64_max
    → int64_max < n * f.rate.subject_delta / f.rate.reference_delta
    → (apply f (f.reference_time +ℤ pos n) ≡ some (pos (int64_max - suc k)))
      × (pos (int64_max - suc k) ≢ overflow)
unfolding apply
apply_hides_overflow f n k v negative hn hk over =
    let delta : to_range ((f.reference_time +ℤ pos n) -ℤ f.reference_time) ≡ some (pos n) =
      rw (sub_of_add f.reference_time n) (to_range_lem (pos n) (omega arith, omega arith)) in
    (
      rw
          (
            apply_parts_step f.reference_time f.subject_time f.rate (f.reference_time +ℤ pos n)
                (pos n) delta,
            negative,
            scale-overflow f.rate.subject_delta f.rate.reference_delta n hn v.subject_bound
                v.positive over,
          )
          (below_overflow k hk),
      λ e. ground arith,
    )
