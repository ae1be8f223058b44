-- ===== src/RateControl/History.antt =====
-- The rate control over a history of calls.
use motown.Base.{
  ℕ, ◌<◌, Bool, true, false, [], ◌∷◌, arith, ◌==◌, Bool-cases, Option-cases, inl, inr,
}
use motown.Base.Int.{ℤ, pos}
use motown.LinearTransform.{LinearTransform, make_transform, do_forward_transform}
use motown.LinearTransform.Euclid.{make_ratio_positive, made-a_zero, made-b_zero}
use motown.RateControl.{
  RateControl, TimelineQuad, new_rate_control, bind, reset_rate, set_rate, set_rate_now,
  set_current_quad, set_rate_at_reference_time, set_rate_at_target_time, is_stale,
  cancel_pending_changes, set_target_timeline_id, snapshot, apply_pending, advance_generation,
  local_time_id,
}
use motown.RateControl.Pending.{
  HasRate, IsReferenceChange, IsValid, made_positive, made-HasRate, All-append, Ascending-append,
}
use motown.RateControl.Apply.{advance_generation-IsValid, apply_pending-IsSettled}

-- One call. `now` is the local time, which the clock gives.
pub data Step (s : RateControl) : RateControl → Type 0 where
  binds : (now : ℤ) → Step s (bind now s)
  resets : (now : ℤ) → Step s (reset_rate now s)
  snapshots : (now : ℤ) → Step s (snapshot now s).0
  sets_timeline : (id : ℕ) (now : ℤ) → Step s (set_target_timeline_id id now s)
  sets_quad : (quad : TimelineQuad) (now : ℤ) → Step s (set_current_quad quad now s)
  sets_rate : (n d : ℕ) (now : ℤ) → Step s (set_rate n d now s)
  sets_reference : (n d : ℕ) (time now : ℤ) → Step s (set_rate_at_reference_time n d time now s)
  sets_target : (n d : ℕ) (time now : ℤ) → Step s (set_rate_at_target_time n d time now s)
  cancels : Step s (cancel_pending_changes s)

-- The states from the constructor on.
pub data Reach : RateControl → Type 0 where
  created : Reach new_rate_control
  next : {s t : RateControl} → Reach s → Step s t → Reach t

cancel_pending_changes-IsValid : (s : RateControl) → IsValid s → IsValid (cancel_pending_changes s)
unfolding cancel_pending_changes
cancel_pending_changes-IsValid s v = record {
  rate = v.rate;
  target_rates = tt;
  reference_rates = tt;
  target_order = tt;
  reference_order = tt;
  generation = v.generation;
}

-- A new current transform, in place of the old one.
replaced-IsValid :
    (s : RateControl) (t : LinearTransform)
    → IsValid s
    → HasRate t
    → IsValid (advance_generation (record s { current = t }))
replaced-IsValid s t v h =
    advance_generation-IsValid (record s { current = t })
      (record {
        rate = h;
        target_rates = v.target_rates;
        reference_rates = v.reference_rates;
        target_order = v.target_order;
        reference_order = v.reference_order;
        generation = v.generation;
      })

set_rate_now-IsValid :
    (n d : ℕ) (now : ℤ) (s : RateControl) → 0 < d → IsValid s → IsValid (set_rate_now n d now s)
unfolding set_rate_now
set_rate_now-IsValid n d now s hd v = elim (Option-cases (do_forward_transform s.current now)) [
  | inl e ↦ rw (e, set_rate_now) v
  | inr (reference, e) ↦ rw (e, set_rate_now) (replaced-IsValid s _ v hd)
]

rebound-IsValid :
    (bound : Bool) (s : RateControl) → IsValid s → IsValid (record s { bound = bound })
rebound-IsValid bound s v = record {
  rate = v.rate;
  target_rates = v.target_rates;
  reference_rates = v.reference_rates;
  target_order = v.target_order;
  reference_order = v.reference_order;
  generation = v.generation;
}

reset_rate-IsValid : (now : ℤ) (s : RateControl) → IsValid s → IsValid (reset_rate now s)
unfolding reset_rate
reset_rate-IsValid now s v =
    let applied =
      apply_pending-IsSettled now (cancel_pending_changes s) (cancel_pending_changes-IsValid s v) in
    rebound-IsValid false _ (
      set_rate_now-IsValid 0 1 now (apply_pending now (cancel_pending_changes s)) (omega arith)
        applied.0)

set_current_quad-IsValid :
    (quad : TimelineQuad) (now : ℤ) (s : RateControl)
    → IsValid s
    → IsValid (set_current_quad quad now s)
unfolding set_current_quad cancel_pending_changes
set_current_quad-IsValid quad now s v = elim (Bool-cases (quad.target_delta == 0)) [
  | inl e ↦ rw e (reset_rate-IsValid now s v)
  | inr e ↦ elim (Bool-cases (quad.reference_delta == 0)) [
    | inl f ↦
        rw (e, f)
          (replaced-IsValid (cancel_pending_changes s) _ (cancel_pending_changes-IsValid s v)
            (omega arith))
    | inr f ↦
        rw (e, f)
          (replaced-IsValid (cancel_pending_changes s) _ (cancel_pending_changes-IsValid s v)
            (make_ratio_positive quad.reference_delta quad.target_delta (ground arith)))
  ]
]

set_rate-IsValid : (n d : ℕ) (now : ℤ) (s : RateControl) → IsValid s → IsValid (set_rate n d now s)
unfolding set_rate
set_rate-IsValid n d now s v = elim (Bool-cases (d == 0)) [
  | inl e ↦ rw e (reset_rate-IsValid now s v)
  | inr e ↦ rw e (
      set_rate_now-IsValid n d now (apply_pending now s) (ground arith)
        (apply_pending-IsSettled now s v).0)
]

set_rate_at_reference_time-IsValid :
    (n d : ℕ) (time now : ℤ) (s : RateControl)
    → IsValid s
    → IsValid (set_rate_at_reference_time n d time now s)
unfolding set_rate_at_reference_time
set_rate_at_reference_time-IsValid n d time now s v = elim (Bool-cases (d == 0)) [
  | inl e ↦ rw e (reset_rate-IsValid now s v)
  | inr e ↦ elim (Bool-cases (is_stale (λ t. t.b_zero) s.reference_pending time)) [
    | inl f ↦ rw (e, f) v
    | inr f ↦
        rw (e, f)
          (record {
            rate = v.rate;
            target_rates = v.target_rates;
            reference_rates =
                All-append IsReferenceChange s.reference_pending
                  (make_transform (pos 0) n d time ∷ []) v.reference_rates
                  (((made-HasRate (pos 0) n d time e, made-a_zero (pos 0) n d time), tt));
            target_order = v.target_order;
            reference_order =
                Ascending-append (λ t. t.b_zero) s.reference_pending
                  (make_transform (pos 0) n d time) (rw (made-b_zero (pos 0) n d time) f)
                  v.reference_order;
            generation = v.generation;
          })
  ]
]

set_rate_at_target_time-IsValid :
    (n d : ℕ) (time now : ℤ) (s : RateControl)
    → IsValid s
    → IsValid (set_rate_at_target_time n d time now s)
unfolding set_rate_at_target_time
set_rate_at_target_time-IsValid n d time now s v = elim (Bool-cases (d == 0)) [
  | inl e ↦ rw e (reset_rate-IsValid now s v)
  | inr e ↦ elim (Bool-cases (is_stale (λ t. t.a_zero) s.target_pending time)) [
    | inl f ↦ rw (e, f) v
    | inr f ↦
        rw (e, f)
          (record {
            rate = v.rate;
            target_rates =
                All-append HasRate s.target_pending (make_transform time n d (pos 0) ∷ [])
                  v.target_rates ((made-HasRate time n d (pos 0) e, tt));
            reference_rates = v.reference_rates;
            target_order =
                Ascending-append (λ t. t.a_zero) s.target_pending (make_transform time n d (pos 0))
                  (rw (made-a_zero time n d (pos 0)) f) v.target_order;
            reference_order = v.reference_order;
            generation = v.generation;
          })
  ]
]

set_target_timeline_id-IsValid :
    (id : ℕ) (now : ℤ) (s : RateControl) → IsValid s → IsValid (set_target_timeline_id id now s)
unfolding set_target_timeline_id
set_target_timeline_id-IsValid id now s v = elim (Bool-cases (id == local_time_id)) [
  | inl e ↦ rw e v
  | inr e ↦ rw e (reset_rate-IsValid now s v)
]

new_rate_control-IsValid : IsValid new_rate_control
unfolding new_rate_control
new_rate_control-IsValid = record {
  rate = made_positive (pos 0) 0 1 (pos 0) (omega arith);
  target_rates = tt;
  reference_rates = tt;
  target_order = tt;
  reference_order = tt;
  generation = (omega arith, omega arith);
}

Step-IsValid : {s t : RateControl} → Step s t → IsValid s → IsValid t
unfolding bind snapshot
Step-IsValid {s} (binds now) v =
    rebound-IsValid true (reset_rate now s) (reset_rate-IsValid now s v)
Step-IsValid {s} (resets now) v = reset_rate-IsValid now s v
Step-IsValid {s} (snapshots now) v = (apply_pending-IsSettled now s v).0
Step-IsValid {s} (sets_timeline id now) v = set_target_timeline_id-IsValid id now s v
Step-IsValid {s} (sets_quad quad now) v = set_current_quad-IsValid quad now s v
Step-IsValid {s} (sets_rate n d now) v = set_rate-IsValid n d now s v
Step-IsValid {s} (sets_reference n d time now) v =
    set_rate_at_reference_time-IsValid n d time now s v
Step-IsValid {s} (sets_target n d time now) v = set_rate_at_target_time-IsValid n d time now s v
Step-IsValid {s} cancels v = cancel_pending_changes-IsValid s v

-- From the constructor on, after any calls at any local times: the current transform and the
-- pending changes have denominators that are not zero, each queue of pending changes is in
-- strictly ascending order of the times, a change that waits for a reference time has the target
-- time 0, and the generation is a positive 32-bit number.
pub Reach-IsValid : {s : RateControl} → Reach s → IsValid s
Reach-IsValid created = new_rate_control-IsValid
Reach-IsValid (next r step) = Step-IsValid step (Reach-IsValid r)
