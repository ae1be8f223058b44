-- ===== src/Timeline/Function.antt =====
-- TimelineFunction of mojo/services/media/common/cpp/timeline_function.{h,cc}.
pub mod Laws
mod Tests
use motown.Base.{ℕ, ◌+◌, ◌≤◌, Bool, ◌&&◌, Option, none, some, leb, if◌then◌else◌}
use motown.Base.Int.{ℤ, pos, negsuc, pos_part, neg_part, ◌+ℤ◌, ◌-ℤ◌}
use motown.Timeline.Rate.{
  TimelineRate, make_rate, inverse, scale, product, int64_max, abs_of_min_int64,
}

-- A sum of int64_t values; `none` is the undefined behaviour of a sum that leaves the type.
pub to_range : ℤ → Option ℤ
to_range z =
    if leb (pos_part z) int64_max && leb (neg_part z) abs_of_min_int64 then some z else none

-- Apply on the parts of a function.
pub apply_parts : ℤ → ℤ → TimelineRate → ℤ → Option ℤ
apply_parts reference_time subject_time rate reference_input =
    elim (to_range (reference_input -ℤ reference_time)) as (λ d. Option ℤ) [
      | none ↦ none
      | some delta ↦ to_range (scale delta rate.subject_delta rate.reference_delta +ℤ subject_time)
    ]

-- The class TimelineFunction.
pub record TimelineFunction : Type 0 where
  pub reference_time : ℤ
  pub subject_time : ℤ
  pub rate : TimelineRate

-- The constructor of four numbers.
pub make_function : ℤ → ℤ → ℕ → ℕ → TimelineFunction
make_function reference_time subject_time reference_delta subject_delta = record {
  reference_time = reference_time;
  subject_time = subject_time;
  rate = make_rate subject_delta reference_delta;
}

pub apply : TimelineFunction → ℤ → Option ℤ
apply f reference_input = apply_parts f.reference_time f.subject_time f.rate reference_input

-- ApplyInverse on the parts of a function.
pub apply_inverse_parts : ℤ → ℤ → TimelineRate → ℤ → Option ℤ
apply_inverse_parts reference_time subject_time rate subject_input =
    apply_parts subject_time reference_time (inverse rate) subject_input

pub apply_inverse : TimelineFunction → ℤ → Option ℤ
apply_inverse f subject_input =
    apply_inverse_parts f.reference_time f.subject_time f.rate subject_input

pub inverse_function : TimelineFunction → TimelineFunction
inverse_function f = record {
  reference_time = f.subject_time;
  subject_time = f.reference_time;
  rate = inverse f.rate;
}

-- Compose.
pub compose : TimelineFunction → TimelineFunction → Bool → Option TimelineFunction
compose bc ab exact = elim (apply bc ab.subject_time) as (λ t. Option TimelineFunction) [
  | none ↦ none
  | some subject ↦ elim (product ab.rate bc.rate exact) as (λ r. Option TimelineFunction) [
    | none ↦ none
    | some rate ↦
        some (record { reference_time = ab.reference_time; subject_time = subject; rate = rate })
  ]
]
