-- ===== src/RateControl/Continuity.antt =====
-- What becomes of the reference time where a rate change takes over.
use motown.Base.{ℕ, ◌^◌, ◌<◌, ◌≡◌, ◌≢◌, refl, some, arith, ne→==}
use motown.Base.Int.{ℤ, pos}
use motown.LinearTransform.{LinearTransform, do_forward_transform}
use motown.LinearTransform.Int64.{IsInt64}
use motown.LinearTransform.AtZero.{do_forward_transform_at_zero}
use motown.RateControl.{
  RateControl, rate, reference_due, spliced, change_at_target, apply_reference, apply_pending,
  set_rate_now, set_rate, advance_generation,
}
use motown.RateControl.Pending.{HasRate, IsValid}
use motown.RateControl.Rounds.{reference_due-IsReferenceChange}

set_rate_now_at :
    (n d : ℕ) (now reference_now : ℤ) (s : RateControl)
    → n < 2 ^ 32
    → 0 < d
    → IsInt64 reference_now
    → do_forward_transform s.current now ≡ some reference_now
    → ((set_rate_now n d now s).current.ratio ≡ rate n d)
      × (do_forward_transform (set_rate_now n d now s).current now ≡ some reference_now)
unfolding set_rate_now advance_generation
set_rate_now_at n d now reference_now s hn hd hr e =
    rw (e, set_rate_now)
      ((
        refl,
        do_forward_transform_at_zero
            (record { ratio = rate n d; a_zero = now; b_zero = reference_now }) hn hd hr,
      ))

-- SetRate with 32-bit deltas, the target delta not zero, at a time that the current transform,
-- with the changes that are due, takes to an int64_t: the new rate is the one that is given, and
-- the new transform takes that time to the same reference time.
pub set_rate_continuous :
    (n d : ℕ) (now reference_now : ℤ) (s : RateControl)
    → n < 2 ^ 32
    → d ≢ 0
    → IsInt64 reference_now
    → do_forward_transform (apply_pending now s).current now ≡ some reference_now
    → ((set_rate n d now s).current.ratio ≡ rate n d)
      × (do_forward_transform (set_rate n d now s).current now ≡ some reference_now)
unfolding set_rate
set_rate_continuous n d now reference_now s hn hd hr e =
    rw (ne→== d 0 hd)
      (set_rate_now_at n d now reference_now (apply_pending now s) hn (omega arith) hr e)

-- A change by the target timeline, with a 32-bit numerator and a denominator that is not zero, takes
-- over its rate, and takes its time to the reference time that the old transform takes it to, where
-- that is an int64_t.
pub change_at_target_continuous :
    (current t : LinearTransform) (reference : ℤ)
    → t.ratio.numerator < 2 ^ 32
    → HasRate t
    → IsInt64 reference
    → do_forward_transform current t.a_zero ≡ some reference
    → ((change_at_target current t).ratio ≡ t.ratio)
      × (do_forward_transform (change_at_target current t) t.a_zero ≡ some reference)
unfolding change_at_target
change_at_target_continuous current t reference hn hd hr e =
    rw (e, change_at_target)
      ((refl, do_forward_transform_at_zero (spliced t t.a_zero reference) hn hd hr))

-- In a valid state, a change by the reference timeline that is due, with a 32-bit numerator,
-- restarts that timeline: the new transform takes the time of the change to the reference time 0,
-- whichever reference time the change was scheduled for.
pub apply_reference_restarts :
    (now time : ℤ) (r : LinearTransform) (s : RateControl)
    → IsValid s
    → reference_due now s.current s.reference_pending ≡ some (r, time)
    → r.ratio.numerator < 2 ^ 32
    → do_forward_transform (apply_reference r time s).current time ≡ some (pos 0)
unfolding apply_reference
apply_reference_restarts now time r s v due hn =
    let (hd, zero) =
      reference_due-IsReferenceChange now s.current s.reference_pending (r, time) due
        v.reference_rates in
    rw zero (do_forward_transform_at_zero (spliced r time (pos 0)) hn hd (omega arith))
