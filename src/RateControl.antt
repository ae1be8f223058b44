-- ===== src/RateControl.antt =====
-- RateControlBase of services/media/common/rate_control_base.{h,cc}.
pub mod Pending
pub mod Rounds
pub mod Apply
pub mod Continuity
pub mod History
mod Tests
use motown.Base.{
  ℕ, zero, suc, ◌+◌, ◌%◌, ◌^◌, Bool, true, false, ◌&&◌, not, Option, none, some, List, [], ◌∷◌,
  ◌++◌, length, ◌==◌, if◌then◌else◌,
}
use motown.Base.Int.{ℤ, pos, ltb_ℤ, ◌-ℤ◌}
use motown.LinearTransform.{
  Ratio, LinearTransform, make_ratio, make_transform, do_forward_transform, do_reverse_transform,
}

-- The state. The lock is held through each operation, so an operation is one step.
pub record RateControl : Type 0 where
  pub bound : Bool
  pub current : LinearTransform
  pub reference_pending : List LinearTransform
  pub target_pending : List LinearTransform
  pub generation : ℕ

-- TimelineQuad.
pub record TimelineQuad : Type 0 where
  pub reference_offset : ℤ
  pub target_offset : ℤ
  pub reference_delta : ℕ
  pub target_delta : ℕ

-- The constructor.
pub new_rate_control : RateControl
new_rate_control = record {
  bound = false;
  current = make_transform (pos 0) 0 1 (pos 0);
  reference_pending = [];
  target_pending = [];
  generation = 1;
}

-- AdvanceGenerationLocked: the loop steps over 0, and no further.
pub next_generation : ℕ → ℕ
next_generation g =
    if (g + 1) % 2 ^ 32 == 0 then ((g + 1) % 2 ^ 32 + 1) % 2 ^ 32 else (g + 1) % 2 ^ 32

pub advance_generation : RateControl → RateControl
advance_generation s = record s { generation = next_generation s.generation }

-- CancelPendingChanges.
pub cancel_pending_changes : RateControl → RateControl
cancel_pending_changes s = record s { reference_pending = []; target_pending = [] }

abbrev pub leb_ℤ : ℤ → ℤ → Bool
leb_ℤ a b = not (ltb_ℤ b a)

-- The next pending change by the target timeline that is not in the future, if any.
pub target_due : ℤ → List LinearTransform → Option LinearTransform
target_due now [] = none
target_due now (t ∷ rest) = if leb_ℤ t.a_zero now then some t else none

-- The same by the reference timeline, with its time on the target timeline.
pub reference_due : ℤ → LinearTransform → List LinearTransform → Option (LinearTransform × ℤ)
reference_due now current [] = none
reference_due now current (r ∷ rest) =
    elim (do_reverse_transform current r.b_zero) as (λ o. Option (LinearTransform × ℤ)) [
      | none ↦ none
      | some time ↦ if leb_ℤ time now then some (r, time) else none
    ]

abbrev pub rest_of : List LinearTransform → List LinearTransform
rest_of [] = []
rest_of (t ∷ rest) = rest

-- The rate of a change, with the point at which it takes over.
abbrev pub spliced : LinearTransform → ℤ → ℤ → LinearTransform
spliced change a b = record { ratio = change.ratio; a_zero = a; b_zero = b }

-- The change of the current transform at a target time; an overflow leaves it as it is.
pub change_at_target : LinearTransform → LinearTransform → LinearTransform
change_at_target current t =
    elim (do_forward_transform current t.a_zero) as (λ o. LinearTransform) [
      | none ↦ current
      | some reference ↦ spliced t t.a_zero reference
    ]

pub apply_target : LinearTransform → RateControl → RateControl
apply_target t s = record s {
  current = change_at_target s.current t;
  target_pending = rest_of s.target_pending;
}

pub apply_reference : LinearTransform → ℤ → RateControl → RateControl
apply_reference r time s = record s {
  current = spliced r time r.a_zero;
  reference_pending = rest_of s.reference_pending;
}

-- One round of the loop of ApplyPendingChangesLocked; `none` is its break. The differences of times
-- are exact: in C++ one that leaves the range of int64_t is undefined.
pub choose :
    ℤ → Option LinearTransform → Option (LinearTransform × ℤ) → RateControl → Option RateControl
choose now none none s = none
choose now none (some (r, time)) s = some (apply_reference r time s)
choose now (some t) none s = some (apply_target t s)
choose now (some t) (some (r, time)) s =
    if leb_ℤ (now -ℤ time) (now -ℤ t.a_zero)
    then some (apply_target t s)
    else some (apply_reference r time s)

pub apply_round : ℤ → RateControl → Option RateControl
apply_round now s =
    choose now (target_due now s.target_pending) (reference_due now s.current s.reference_pending) s

-- The loop, with whether a change was made. The fuel is the number of the pending changes.
pub apply_rounds : ℕ → ℤ → Bool → RateControl → Bool × RateControl
apply_rounds zero now advance s = (advance, s)
apply_rounds (suc fuel) now advance s = elim (apply_round now s) as (λ o. Bool × RateControl) [
  | none ↦ (advance, s)
  | some s' ↦ apply_rounds fuel now true s'
]

abbrev pub pending : RateControl → ℕ
pending s = length s.reference_pending + length s.target_pending

-- ApplyPendingChangesLocked.
pub apply_pending : ℤ → RateControl → RateControl
apply_pending now s =
    let (advance, s') = apply_rounds (pending s) now false s in
    if advance then advance_generation s' else s'

abbrev pub rate : ℕ → ℕ → Ratio
rate reference_delta target_delta = record {
  numerator = reference_delta;
  denominator = target_delta;
}

-- SetRate, with a target delta that is not zero, at the local time `now`, once the changes that are
-- due are applied. Where the current time cannot be transformed, nothing changes.
pub set_rate_now : ℕ → ℕ → ℤ → RateControl → RateControl
set_rate_now n d now s = elim (do_forward_transform s.current now) as (λ o. RateControl) [
  | none ↦ s
  | some reference_now ↦
      advance_generation
        (record s { current = record { ratio = rate n d; a_zero = now; b_zero = reference_now } })
]

-- Reset. `now` is LocalTimeNow.
pub reset_rate : ℤ → RateControl → RateControl
reset_rate now s =
    let s' = set_rate_now 0 1 now (apply_pending now (cancel_pending_changes s)) in
    record s' { bound = false }

-- Bind.
pub bind : ℤ → RateControl → RateControl
bind now s = record (reset_rate now s) { bound = true }

-- SetRate. An illegal rate resets the control, by OnIllegalRateChange.
pub set_rate : ℕ → ℕ → ℤ → RateControl → RateControl
set_rate n d now s = if d == 0 then reset_rate now s else set_rate_now n d now (apply_pending now s)

-- SetCurrentQuad.
pub set_current_quad : TimelineQuad → ℤ → RateControl → RateControl
set_current_quad quad now s =
    if quad.target_delta == 0
    then reset_rate now s
    else advance_generation (record s {
      current = record {
        ratio =
            if quad.reference_delta == 0
            then rate 0 1
            else make_ratio quad.reference_delta quad.target_delta;
        a_zero = quad.target_offset;
        b_zero = quad.reference_offset;
      };
      reference_pending = [];
      target_pending = [];
    })

pub last_of : List LinearTransform → Option LinearTransform
last_of [] = none
last_of (t ∷ []) = some t
last_of (t ∷ u ∷ rest) = last_of (u ∷ rest)

-- Whether a time is not after that of the last change that is pending.
pub is_stale : (LinearTransform → ℤ) → List LinearTransform → ℤ → Bool
is_stale time changes t = elim (last_of changes) as (λ o. Bool) [
  | none ↦ false
  | some last ↦ leb_ℤ t (time last)
]

-- SetRateAtReferenceTime.
pub set_rate_at_reference_time : ℕ → ℕ → ℤ → ℤ → RateControl → RateControl
set_rate_at_reference_time n d reference_time now s =
    if d == 0
    then reset_rate now s
    else if is_stale (λ t. t.b_zero) s.reference_pending reference_time
    then s
    else record s {
      reference_pending = s.reference_pending ++ (make_transform (pos 0) n d reference_time ∷ []);
    }

-- SetRateAtTargetTime.
pub set_rate_at_target_time : ℕ → ℕ → ℤ → ℤ → RateControl → RateControl
set_rate_at_target_time n d target_time now s =
    if d == 0
    then reset_rate now s
    else if is_stale (λ t. t.a_zero) s.target_pending target_time
    then s
    else record s {
      target_pending = s.target_pending ++ (make_transform target_time n d (pos 0) ∷ []);
    }

-- SnapshotCurrentTransform: the next state, the transform and the generation.
pub snapshot : ℤ → RateControl → RateControl × LinearTransform × ℕ
snapshot now s = let s' = apply_pending now s in (s', s'.current, s'.generation)

-- GetCurrentTransform: the next state, and the quad that the callback is given.
pub get_current_transform : ℤ → RateControl → RateControl × TimelineQuad
get_current_transform now s =
    let (s', t, generation) = snapshot now s in
    (
      s',
      record {
        reference_offset = t.b_zero;
        target_offset = t.a_zero;
        reference_delta = t.ratio.numerator;
        target_delta = t.ratio.denominator;
      },
    )

-- TimelineTransform::kLocalTimeID.
abbrev pub local_time_id : ℕ
local_time_id = 0xffffffff

-- SetTargetTimelineID.
pub set_target_timeline_id : ℕ → ℤ → RateControl → RateControl
set_target_timeline_id id now s = if id == local_time_id then s else reset_rate now s
