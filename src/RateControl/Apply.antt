-- ===== src/RateControl/Apply.antt =====
-- ApplyPendingChangesLocked ends, with no change left that is due.
use motown.Base.{
  ℕ, zero, suc, ◌≤◌, ◌<◌, ◌≡◌, refl, ap, ◌∙◌, ◌⊎◌, Bool, true, false, none, some, List, [], ◌∷◌,
  arith, if◌then◌else◌, Bool-cases, inl, inr,
}
use motown.Base.Int.{ℤ}
use motown.LinearTransform.{LinearTransform}
use motown.RateControl.{
  RateControl, leb_ℤ, target_due, reference_due, apply_round, apply_rounds, apply_pending, pending,
  advance_generation, next_generation,
}
use motown.RateControl.Pending.{◌<ℤ◌, Ascending, IsValid, next_generation_range}
use motown.RateControl.Rounds.{apply_round-Round, apply_round-Kept}

-- The loop comes to its break: no change is due then. It makes no change at all, or tells so and
-- leaves fewer of them.
record Applied (now : ℤ) (advance : Bool) (s : RateControl) (r : Bool × RateControl) : Type 0 where
  valid : IsValid r.1
  settled : apply_round now r.1 ≡ none
  generation : r.1.generation ≡ s.generation
  changed : (r ≡ (advance, s)) ⊎ ((r.0 ≡ true) × (pending r.1 < pending s))

still_changed :
    (s s' : RateControl) (r : Bool × RateControl)
    → (r ≡ (true, s')) ⊎ ((r.0 ≡ true) × (pending r.1 < pending s'))
    → pending s' < pending s
    → (r.0 ≡ true) × (pending r.1 < pending s)
still_changed s s' r (inl e) h = rw e (refl, h)
still_changed s s' r (inr (e, f)) h = (e, omega arith)

apply_rounds-Applied :
    (fuel : ℕ) (now : ℤ) (advance : Bool) (s : RateControl)
    → pending s ≤ fuel
    → IsValid s
    → Applied now advance s (apply_rounds fuel now advance s)
unfolding apply_rounds
apply_rounds-Applied zero now advance s le v = elim (apply_round-Kept now s v) [
  | inl e ↦ record { valid = v; settled = e; generation = refl; changed = inl refl }
  | inr (s', e, k) ↦ absurd (omega (arith, k.fewer))
]
apply_rounds-Applied (suc fuel) now advance s le v = elim (apply_round-Kept now s v) [
  | inl e ↦
      rw (e, apply_rounds)
        (record { valid = v; settled = e; generation = refl; changed = inl refl })
  | inr (s', e, k) ↦
      let a = apply_rounds-Applied fuel now true s' (omega (arith, k.fewer)) k.valid in
      rw (e, apply_rounds)
        (record {
          valid = a.valid;
          settled = a.settled;
          generation = a.generation ∙ k.generation;
          changed = inr (still_changed s s' (apply_rounds fuel now true s') a.changed k.fewer);
        })
]

-- No change of the list is due at the time.
abbrev pub AllAfter : ℤ → List LinearTransform → Type 0
AllAfter now [] = Unit
AllAfter now (t ∷ rest) = (now <ℤ t.a_zero) × AllAfter now rest

Ascending-AllAfter :
    (now : ℤ) (t : LinearTransform) (rest : List LinearTransform)
    → Ascending (λ t. t.a_zero) (t ∷ rest)
    → now <ℤ t.a_zero
    → AllAfter now (t ∷ rest)
Ascending-AllAfter now t [] a h = (h, tt)
Ascending-AllAfter now t (u ∷ rest) a h = (h, Ascending-AllAfter now u rest a.1 (omega arith))

target_due-AllAfter :
    (now : ℤ) (ts : List LinearTransform)
    → Ascending (λ t. t.a_zero) ts
    → target_due now ts ≡ none
    → AllAfter now ts
unfolding target_due
target_due-AllAfter now [] a e = tt
target_due-AllAfter now (t ∷ rest) a e = elim (Bool-cases (leb_ℤ t.a_zero now)) [
  | inl f ↦ (let e' : some t ≡ none = (rw (f, target_due) at e) in absurd (cc))
  | inr f ↦ Ascending-AllAfter now t rest a (ground arith)
]

-- Nothing is due, by either timeline.
abbrev pub IsSettled : ℤ → RateControl → Type 0
IsSettled now s =
    AllAfter now s.target_pending × (reference_due now s.current s.reference_pending ≡ none)

none-IsSettled :
    (now : ℤ) (s : RateControl) → IsValid s → apply_round now s ≡ none → IsSettled now s
none-IsSettled now s v e = elim (apply_round-Round now s) [
  | inl (_, target, reference) ↦
      (target_due-AllAfter now s.target_pending v.target_order target, reference)
  | inr (inl (t, due, f)) ↦ absurd (cc)
  | inr (inr (c, due, f)) ↦ absurd (cc)
]

pub advance_generation-IsValid : (s : RateControl) → IsValid s → IsValid (advance_generation s)
unfolding advance_generation
advance_generation-IsValid s v = record {
  rate = v.rate;
  target_rates = v.target_rates;
  reference_rates = v.reference_rates;
  target_order = v.target_order;
  reference_order = v.reference_order;
  generation = next_generation_range s.generation;
}

-- The two ends of ApplyPendingChangesLocked.
Ended : ℤ → RateControl → RateControl → Type 0
Ended now s t =
    IsValid t
    × IsSettled now t
    × ((t ≡ s) ⊎ ((pending t < pending s) × (t.generation ≡ next_generation s.generation)))

Applied-Ended :
    (now : ℤ) (s : RateControl) (r : Bool × RateControl)
    → Applied now false s r
    → Ended now s (if r.0 then advance_generation r.1 else r.1)
unfolding Ended advance_generation
Applied-Ended now s (true, t) a = (
  advance_generation-IsValid t a.valid,
  none-IsSettled now t a.valid a.settled,
  elim a.changed [
    | inl e ↦ absurd (cc)
    | inr (_, fewer) ↦ inr (fewer, ap next_generation a.generation)
  ],
)
Applied-Ended now s (false, t) a = (
  a.valid,
  none-IsSettled now t a.valid a.settled,
  elim a.changed [
    | inl e ↦ inl (ap (λ (r : Bool × RateControl). r.1) e)
    | inr (e, _) ↦ absurd (cc)
  ],
)

-- On a valid state, the loop of ApplyPendingChangesLocked ends within one round for each pending
-- change: the state stays valid, no pending change is due at the given time, by the target
-- timeline, and the first one by the reference timeline is not due; and either nothing has
-- changed, or fewer changes are pending and the generation is advanced by one step.
pub apply_pending-IsSettled :
    (now : ℤ) (s : RateControl)
    → IsValid s
    → IsValid (apply_pending now s)
      × IsSettled now (apply_pending now s)
      × ((apply_pending now s ≡ s)
          ⊎ ((pending (apply_pending now s) < pending s)
              × ((apply_pending now s).generation ≡ next_generation s.generation)))
unfolding apply_pending Ended
apply_pending-IsSettled now s v =
    Applied-Ended now s (apply_rounds (pending s) now false s)
      (apply_rounds-Applied (pending s) now false s (omega arith) v)
