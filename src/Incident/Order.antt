-- ===== src/Incident/Order.antt =====
-- Consequences are executed once, in the order in which they were added.
use mathlib.Core.List.{append_assoc, append-nil}
use motown.Base.{ℕ, ◌≡◌, refl, sym, ap, ◌∙◌, true, Bool-cases, inl, inr, List, [], ◌∷◌, ◌++◌, arith}
use motown.Incident.{Incident, new_incident, when, occur, reset_incident}

-- The calls of a client since the constructor or the last Reset, with the consequences given to When
-- and the consequences executed, both in order.
pub data History : List ℕ → List ℕ → Incident → Type 0 where
  created : History [] [] new_incident
  resets :
      {given done : List ℕ} {i : Incident}
      → History given done i
      → History [] [] (reset_incident i).0
  adds :
      {given done : List ℕ} {i : Incident} (c : ℕ)
      → History given done i
      → History (given ++ (c ∷ [])) (done ++ (when c i).1) (when c i).0
  occurs :
      {given done : List ℕ} {i : Incident}
      → History given done i
      → History given (done ++ (occur i).1) (occur i).0

-- What was executed and what waits is what was given; and where the incident has occurred, nothing
-- waits.
pub record InOrder (given done : List ℕ) (i : Incident) : Type 0 where
  pub together : done ++ i.consequences ≡ given
  pub all_done : i.occurred ≡ true → i.consequences ≡ []

when-InOrder :
    (given done : List ℕ) (i : Incident) (c : ℕ)
    → InOrder given done i
    → InOrder (given ++ (c ∷ [])) (done ++ (when c i).1) (when c i).0
unfolding when
when-InOrder given done i c v = elim (Bool-cases i.occurred) [
  | inl e ↦
      let empty = v.all_done e in
      let whole : done ≡ given =
        sym (append-nil done) ∙ ap (λ t. done ++ t) (sym empty) ∙ v.together in
      rw e (record {
        together =
            ap (λ t. done ++ (c ∷ []) ++ t) empty
            ∙ append-nil (done ++ (c ∷ []))
            ∙ ap (λ t. t ++ (c ∷ [])) whole;
        all_done = λ h. empty;
      })
  | inr e ↦ rw e (record {
    together =
        ap (λ t. t ++ (i.consequences ++ (c ∷ []))) (append-nil done)
        ∙ sym (append_assoc done i.consequences (c ∷ []))
        ∙ ap (λ t. t ++ (c ∷ [])) v.together;
    all_done = λ h. ground arith;
  })
]

occur-InOrder :
    (given done : List ℕ) (i : Incident)
    → InOrder given done i
    → InOrder given (done ++ (occur i).1) (occur i).0
unfolding occur
occur-InOrder given done i v = elim (Bool-cases i.occurred) [
  | inl e ↦ rw e (record {
    together = ap (λ t. t ++ i.consequences) (append-nil done) ∙ v.together;
    all_done = λ h. v.all_done e;
  })
  | inr e ↦
      rw e (record {
        together = append-nil (done ++ i.consequences) ∙ v.together;
        all_done = λ h. refl;
      })
]

-- For the calls of When and Occur since the constructor or the last Reset, the consequences that
-- were executed, in order, and those that wait are together the ones given to When, in order; and
-- where the incident has occurred, none waits.
pub History-InOrder :
    {given done : List ℕ} {i : Incident} → History given done i → InOrder given done i
unfolding new_incident reset_incident
History-InOrder History.created = record { together = refl; all_done = λ h. refl }
History-InOrder (History.resets h) = record { together = refl; all_done = λ h. refl }
History-InOrder (History.adds {given} {done} {i} c h) =
    when-InOrder given done i c (History-InOrder h)
History-InOrder (History.occurs {given} {done} {i} h) =
    occur-InOrder given done i (History-InOrder h)
