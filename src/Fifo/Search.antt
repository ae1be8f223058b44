-- ===== src/Fifo/Search.antt =====
-- The search for a free region, and the move of the active region to it.
use motown.Base.{
  ℕ, ◌+◌, ◌≤◌, ◌≡◌, refl, sym, ap, subst, ◌∙◌, inl, inr, Bool, true, false, ◌&&◌, not, Option, none,
  some, List, [], ◌∷◌, ◌++◌, arith, leb, ◌==◌, Bool-cases, ==_iff,
}
use motown.Fifo.{Region, Fifo, find_fit, retire}
use motown.Fifo.Layout.{
  is_free, Tiles, last_free, last_free-append, Tiles-append, Tiles-split, Tiles-weaken, IsValid,
}

-- A region that can hold the size.
abbrev pub Fits : ℕ → Region → Type 0
Fits size r = (r.allocated ≡ false) × (size ≤ r.size)

abbrev pub NoneFits : ℕ → List Region → Type 0
NoneFits size [] = Unit {0}
NoneFits size (r ∷ rest) = (¬ Fits size r) × NoneFits size rest

-- What the loop finds.
abbrev pub Found : ℕ → List Region → Option (List Region × Region × List Region) → Type 0
Found size rs none = NoneFits size rs
Found size rs (some (xs, fit, ys)) = (rs ≡ xs ++ (fit ∷ ys)) × Fits size fit × NoneFits size xs

extend-Found :
    (size : ℕ) (r : Region) (rest : List Region) (o : Option (List Region × Region × List Region))
    → ¬ Fits size r
    → Found size rest o
    → Found size (r ∷ rest) (elim o as (λ o. Option (List Region × Region × List Region)) [
      | none ↦ none
      | some (xs, fit, ys) ↦ some (r ∷ xs, fit, ys)
    ])
extend-Found size r rest none misfit h = (misfit, h)
extend-Found size r rest (some (xs, fit, ys)) misfit (e, f, h) = (ap (λ t. r ∷ t) e, f, (misfit, h))

pub find_fit-Found : (size : ℕ) (rs : List Region) → Found size rs (find_fit size rs)
unfolding find_fit
find_fit-Found size [] = tt
find_fit-Found size (r ∷ rest) = elim (Bool-cases (not r.allocated && leb size r.size)) [
  | inl e ↦ rw e (refl, (ground arith, ground arith), tt)
  | inr e ↦
      rw e (
        extend-Found size r rest (find_fit size rest) (λ f. ground arith)
          (find_fit-Found size rest))
]

retire-Tiles :
    (active : Region) (ys : List Region) (stop : ℕ)
    → active.allocated ≡ false
    → Tiles (active.offset + active.size) true ys stop
    → Tiles active.offset false (retire active ++ ys) stop
unfolding retire
retire-Tiles active ys stop free h = elim (Bool-cases (active.size == 0)) [
  | inl e ↦
      let zero_end : active.offset + active.size ≡ active.offset =
        omega (arith, (==_iff active.size 0).0 e) in
      rw e (Tiles-weaken active.offset ys stop (subst (λ t. Tiles t true ys stop) zero_end h))
  | inr e ↦ rw e (refl, ground arith, refl, rw free h)
]

last_free_any :
    (free : Bool) (xs : List Region) → last_free true xs ≡ false → last_free free xs ≡ false
last_free_any free [] h = cc
last_free_any free (r ∷ xs) h = h

retire-used :
    (active : Region) (xs : List Region)
    → last_free true xs ≡ false
    → last_free false (retire active ++ xs) ≡ false
unfolding retire
retire-used active xs h = elim (Bool-cases (active.size == 0)) [
  | inl e ↦ rw e (last_free_any false xs h)
  | inr e ↦ rw e (last_free_any (is_free active) xs h)
]

-- In front of a free region stands no other.
pub used_in_front :
    (free : Bool) (r : Region) → (free && is_free r) ≡ false → r.allocated ≡ false → free ≡ false
used_in_front free r h k = ground arith

module _ (f : Fifo) (v : IsValid f) where
  -- The active region moves to a free region behind it.
  pub move_after :
      (xs : List Region) (fit : Region) (ys : List Region)
      → f.after ≡ xs ++ (fit ∷ ys)
      → fit.allocated ≡ false
      → IsValid
          (record f { before = f.before ++ (retire f.active ++ xs); active = fit; after = ys })
  move_after xs fit ys e free =
      let (left, right) =
        Tiles-split (f.active.offset + f.active.size) true xs fit ys f.total
          (subst (λ t. Tiles (f.active.offset + f.active.size) true t f.total) e v.back) in
      let used = used_in_front (last_free true xs) fit right.2 free in
      record {
        free = free;
        front =
            Tiles-append 0 false f.before f.active.offset (retire f.active ++ xs) fit.offset v.front
              (rw v.front_used (retire-Tiles f.active xs fit.offset v.free left));
        front_used =
            rw (last_free-append false f.before (retire f.active ++ xs), v.front_used)
              (retire-used f.active xs used);
        back = subst (λ t. Tiles (fit.offset + fit.size) t ys f.total) (ap not free) right.3;
      }

  -- The active region moves to a free region in front of it.
  pub move_before :
      (xs : List Region) (fit : Region) (ys : List Region)
      → f.before ≡ xs ++ (fit ∷ ys)
      → fit.allocated ≡ false
      → IsValid (record f { before = xs; active = fit; after = ys ++ (retire f.active ++ f.after) })
  move_before xs fit ys e free =
      let (left, right) =
        Tiles-split 0 false xs fit ys f.active.offset
          (subst (λ t. Tiles 0 false t f.active.offset) e v.front) in
      let used = used_in_front (last_free false xs) fit right.2 free in
      let last : last_free true ys ≡ false =
        ap (λ t. last_free t ys) (sym (ap not free))
        ∙ sym (last_free-append false xs (fit ∷ ys))
        ∙ ap (last_free false) (sym e)
        ∙ v.front_used in
      record {
        free = free;
        front = left;
        front_used = used;
        back =
            Tiles-append (fit.offset + fit.size) true ys f.active.offset
              (retire f.active ++ f.after) f.total
              (subst (λ t. Tiles (fit.offset + fit.size) t ys f.active.offset) (ap not free)
                right.3)
              (rw last (retire-Tiles f.active f.after f.total v.free v.back));
      }
