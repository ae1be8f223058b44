-- ===== src/RateControl/Tests.antt =====
-- The rate control at concrete inputs.
use motown.Base.{ℕ, ◌<◌, ◌≡◌, ◌⊎◌, refl, true, some, [], ◌∷◌, arith}
use motown.Base.Int.{ℤ, pos, ◌+ℤ◌, ◌-ℤ◌}
use motown.LinearTransform.{
  LinearTransform, do_forward_transform, do_reverse_transform, linear_transform, scale_u64_to_u64,
  rebase, distance, sum_check_ovfl, wrap_int64, int64_of_bits,
}
use motown.RateControl.{
  RateControl, new_rate_control, rate, set_rate, set_rate_at_reference_time, apply_pending,
  apply_rounds, apply_round, choose, target_due, reference_due, apply_target, change_at_target,
  apply_reference, pending, advance_generation, next_generation,
}
use motown.RateControl.Pending.{IsValid}
use motown.RateControl.Apply.{IsSettled, apply_pending-IsSettled}
use motown.RateControl.Continuity.{
  set_rate_continuous, change_at_target_continuous, apply_reference_restarts,
}
use motown.RateControl.History.{Reach, created, next, sets_rate, sets_reference, Reach-IsValid}

abbrev transform_of : ℤ → ℕ → ℕ → ℤ → LinearTransform
transform_of a n d b = record {
  ratio = record { numerator = n; denominator = d };
  a_zero = a;
  b_zero = b;
}

-- It runs at the rate 1 from the local time 100 on, with a change to the rate 2 at the reference time
-- 50, and one to the rate 3 at the local time 200.
abbrev scheduled : RateControl
scheduled = record {
  bound = true;
  current = transform_of (pos 100) 1 1 (pos 0);
  reference_pending = transform_of (pos 0) 2 1 (pos 50) ∷ [];
  target_pending = transform_of (pos 200) 3 1 (pos 0) ∷ [];
  generation = 4;
}

scheduled-IsValid : IsValid scheduled
scheduled-IsValid = record {
  rate = omega arith;
  target_rates = (omega arith, tt);
  reference_rates = ((omega arith, refl), tt);
  target_order = tt;
  reference_order = tt;
  generation = (omega arith, omega arith);
}

-- Both changes are made by the time 210. The first one restarts the reference timeline at the local
-- time 150.
both_applied : apply_pending (pos 210) scheduled ≡ record {
  bound = true;
  current = transform_of (pos 200) 3 1 (pos 100);
  reference_pending = [];
  target_pending = [];
  generation = 5;
}
unfolding apply_pending apply_rounds apply_round choose target_due reference_due apply_target
    change_at_target apply_reference do_forward_transform do_reverse_transform linear_transform
    scale_u64_to_u64 rebase distance sum_check_ovfl wrap_int64 int64_of_bits advance_generation
    next_generation ◌+ℤ◌ ◌-ℤ◌
both_applied = refl

apply_pending-IsSettled_example :
    IsValid (apply_pending (pos 210) scheduled)
    × IsSettled (pos 210) (apply_pending (pos 210) scheduled)
    × ((apply_pending (pos 210) scheduled ≡ scheduled)
        ⊎ ((pending (apply_pending (pos 210) scheduled) < pending scheduled)
            × ((apply_pending (pos 210) scheduled).generation
                ≡ next_generation scheduled.generation)))
apply_pending-IsSettled_example = apply_pending-IsSettled (pos 210) scheduled scheduled-IsValid

set_rate_continuous_example :
    ((set_rate 5 2 (pos 210) scheduled).current.ratio ≡ rate 5 2)
    × (do_forward_transform (set_rate 5 2 (pos 210) scheduled).current (pos 210) ≡ some (pos 130))
unfolding apply_pending apply_rounds apply_round choose target_due reference_due apply_target
    change_at_target apply_reference do_forward_transform do_reverse_transform linear_transform
    scale_u64_to_u64 rebase distance sum_check_ovfl wrap_int64 int64_of_bits advance_generation
    next_generation ◌+ℤ◌ ◌-ℤ◌
set_rate_continuous_example =
    set_rate_continuous 5 2 (pos 210) (pos 130) scheduled (omega arith) (omega arith) (omega arith)
      refl

change_at_target_continuous_example :
    ((change_at_target scheduled.current (transform_of (pos 200) 3 1 (pos 0))).ratio ≡ rate 3 1)
    × (do_forward_transform
          (change_at_target scheduled.current (transform_of (pos 200) 3 1 (pos 0)))
          (pos 200)
        ≡ some (pos 100))
unfolding do_forward_transform linear_transform scale_u64_to_u64 rebase distance sum_check_ovfl
    wrap_int64 int64_of_bits ◌+ℤ◌
change_at_target_continuous_example =
    change_at_target_continuous scheduled.current (transform_of (pos 200) 3 1 (pos 0)) (pos 100)
      (omega arith) (omega arith) (omega arith) refl

apply_reference_restarts_example :
    do_forward_transform
      (apply_reference (transform_of (pos 0) 2 1 (pos 50)) (pos 150) scheduled).current
      (pos 150)
    ≡ some (pos 0)
unfolding reference_due do_reverse_transform linear_transform scale_u64_to_u64 rebase distance
    sum_check_ovfl wrap_int64 int64_of_bits ◌+ℤ◌
apply_reference_restarts_example =
    apply_reference_restarts (pos 160) (pos 150) (transform_of (pos 0) 2 1 (pos 50)) scheduled
      scheduled-IsValid refl (omega arith)

called :
    Reach (set_rate_at_reference_time 2 1 (pos 50) (pos 0) (set_rate 1 1 (pos 9) new_rate_control))
called = next (next created (sets_rate 1 1 (pos 9))) (sets_reference 2 1 (pos 50) (pos 0))

Reach-IsValid_example :
    IsValid
      (set_rate_at_reference_time 2 1 (pos 50) (pos 0) (set_rate 1 1 (pos 9) new_rate_control))
Reach-IsValid_example = Reach-IsValid called
