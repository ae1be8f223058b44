-- ===== src/RateControl/Rounds.antt =====
-- One round of the loop of ApplyPendingChangesLocked.
use motown.Base.{
  ◌<◌, ◌≡◌, refl, ◌⊎◌, Option, none, some, List, [], ◌∷◌, arith, Bool-cases, Option-cases, inl, inr,
  length,
}
use motown.Base.Int.{ℤ, ◌-ℤ◌}
use motown.LinearTransform.{LinearTransform, do_forward_transform, do_reverse_transform}
use motown.RateControl.{
  RateControl, leb_ℤ, target_due, reference_due, rest_of, change_at_target, apply_target,
  apply_reference, choose, apply_round, pending,
}
use motown.RateControl.Pending.{
  All, HasRate, IsReferenceChange, IsValid, All-rest_of, Ascending-rest_of,
}

-- What a round does: nothing is due, or the change by the target timeline is made, or that by the
-- reference timeline.
abbrev pub Round : ℤ → RateControl → Option RateControl → Type 0
Round now s o =
    ((o ≡ none)
      × (target_due now s.target_pending ≡ none)
      × (reference_due now s.current s.reference_pending ≡ none))
    ⊎ ((t : LinearTransform) × (target_due now s.target_pending ≡ some t)
        × (o ≡ some (apply_target t s)))
    ⊎ ((c : LinearTransform × ℤ) × (reference_due now s.current s.reference_pending ≡ some c)
        × (o ≡ some (apply_reference c.0 c.1 s)))

pub apply_round-Round : (now : ℤ) (s : RateControl) → Round now s (apply_round now s)
unfolding apply_round choose
apply_round-Round now s = elim (Option-cases (target_due now s.target_pending)) [
  | inl e ↦ elim (Option-cases (reference_due now s.current s.reference_pending)) [
    | inl f ↦ inl (rw (e, f), e, f)
    | inr ((r, time), f) ↦ inr (inr ((r, time), f, rw (e, f)))
  ]
  | inr (t, e) ↦ elim (Option-cases (reference_due now s.current s.reference_pending)) [
    | inl f ↦ inr (inl (t, e, rw (e, f)))
    | inr ((r, time), f) ↦ elim (Bool-cases (leb_ℤ (now -ℤ time) (now -ℤ t.a_zero))) [
      | inl g ↦ inr (inl (t, e, rw (e, f, g)))
      | inr g ↦ inr (inr ((r, time), f, rw (e, f, g)))
    ]
  ]
]

target_due-HasRate :
    (now : ℤ) (ts : List LinearTransform) (t : LinearTransform)
    → target_due now ts ≡ some t
    → All HasRate ts
    → HasRate t
unfolding target_due
target_due-HasRate now [] t e h = absurd (cc)
target_due-HasRate now (u ∷ rest) t e h = elim (Bool-cases (leb_ℤ u.a_zero now)) [
  | inl f ↦ (let e' : some u ≡ some t = (rw (f, target_due) at e) in ground (arith, h.0))
  | inr f ↦ (let e' : none ≡ some t = (rw (f, target_due) at e) in absurd (cc))
]

pub reference_due-IsReferenceChange :
    (now : ℤ) (current : LinearTransform) (rs : List LinearTransform) (c : LinearTransform × ℤ)
    → reference_due now current rs ≡ some c
    → All IsReferenceChange rs
    → IsReferenceChange c.0
unfolding reference_due
reference_due-IsReferenceChange now current [] c e h = absurd (cc)
reference_due-IsReferenceChange now current (r ∷ rest) c e h =
    elim (Option-cases (do_reverse_transform current r.b_zero)) [
      | inl f ↦ (let e' : none ≡ some c = (rw (f, reference_due) at e) in absurd (cc))
      | inr (time, f) ↦ elim (Bool-cases (leb_ℤ time now)) [
        | inl g ↦
            let e' : some (r, time) ≡ some c = (rw (f, reference_due, g) at e) in
            let same : c.0 ≡ r = cc in rw same h.0
        | inr g ↦ (let e' : none ≡ some c = (rw (f, reference_due, g) at e) in absurd (cc))
      ]
    ]

change_at_target-HasRate :
    (current t : LinearTransform)
    → HasRate current
    → HasRate t
    → HasRate (change_at_target current t)
unfolding change_at_target
change_at_target-HasRate current t h k =
    elim (Option-cases (do_forward_transform current t.a_zero)) [
      | inl e ↦ rw (e, change_at_target) h
      | inr (r, e) ↦ rw (e, change_at_target) k
    ]

-- A state of the loop, before or after a round.
pub record Kept (s s' : RateControl) : Type 0 where
  pub valid : IsValid s'
  pub fewer : pending s' < pending s
  pub generation : s'.generation ≡ s.generation

rest_of-length_target :
    (now : ℤ) (ts : List LinearTransform) (t : LinearTransform)
    → target_due now ts ≡ some t
    → length (rest_of ts) < length ts
unfolding target_due
rest_of-length_target now [] t e = absurd (cc)
rest_of-length_target now (u ∷ rest) t e = omega arith

rest_of-length_reference :
    (now : ℤ) (current : LinearTransform) (rs : List LinearTransform) (c : LinearTransform × ℤ)
    → reference_due now current rs ≡ some c
    → length (rest_of rs) < length rs
unfolding reference_due
rest_of-length_reference now current [] c e = absurd (cc)
rest_of-length_reference now current (r ∷ rest) c e = omega arith

apply_target-Kept :
    (now : ℤ) (s : RateControl) (t : LinearTransform)
    → IsValid s
    → target_due now s.target_pending ≡ some t
    → Kept s (apply_target t s)
unfolding apply_target
apply_target-Kept now s t v due = record {
  valid = record {
    rate =
        change_at_target-HasRate s.current t v.rate
          (target_due-HasRate now s.target_pending t due v.target_rates);
    target_rates = All-rest_of HasRate s.target_pending v.target_rates;
    reference_rates = v.reference_rates;
    target_order = Ascending-rest_of (λ t. t.a_zero) s.target_pending v.target_order;
    reference_order = v.reference_order;
    generation = v.generation;
  };
  fewer = omega (arith, rest_of-length_target now s.target_pending t due);
  generation = refl;
}

apply_reference-Kept :
    (now : ℤ) (s : RateControl) (c : LinearTransform × ℤ)
    → IsValid s
    → reference_due now s.current s.reference_pending ≡ some c
    → Kept s (apply_reference c.0 c.1 s)
unfolding apply_reference
apply_reference-Kept now s c v due = record {
  valid = record {
    rate =
        (reference_due-IsReferenceChange now s.current s.reference_pending c due
          v.reference_rates).0;
    target_rates = v.target_rates;
    reference_rates = All-rest_of IsReferenceChange s.reference_pending v.reference_rates;
    target_order = v.target_order;
    reference_order = Ascending-rest_of (λ t. t.b_zero) s.reference_pending v.reference_order;
    generation = v.generation;
  };
  fewer = omega (arith, rest_of-length_reference now s.current s.reference_pending c due);
  generation = refl;
}

pub apply_round-Kept :
    (now : ℤ) (s : RateControl)
    → IsValid s
    → (apply_round now s ≡ none) ⊎ ((s' : RateControl) × (apply_round now s ≡ some s') × Kept s s')
apply_round-Kept now s v = elim (apply_round-Round now s) [
  | inl (e, _, _) ↦ inl e
  | inr (inl (t, due, e)) ↦ inr (apply_target t s, e, apply_target-Kept now s t v due)
  | inr (inr (c, due, e)) ↦ inr (apply_reference c.0 c.1 s, e, apply_reference-Kept now s c v due)
]
