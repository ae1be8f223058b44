-- ===== src/Fifo/Advance.antt =====
-- AdvanceActive keeps the layout and the allocated regions.
use mathlib.Core.List.{append_assoc}
use motown.Base.{ℕ, ◌≤◌, ◌≡◌, refl, ◌∙◌, false, Option, none, some, List, ◌∷◌, ◌++◌}
use motown.Fifo.{Region, Fifo, regions, find_fit, retire, advance_active}
use motown.Fifo.Layout.{IsValid}
use motown.Fifo.Entries.{entries, entries-append, entries-retire}
use motown.Fifo.Search.{Fits, NoneFits, Found, find_fit-Found, move_after, move_before}

-- The move keeps the invariant and what is allocated, and the new active region is large enough.
pub record Advanced (size : ℕ) (f g : Fifo) : Type 0 where
  pub valid : IsValid g
  pub fits : size ≤ g.active.size
  pub total : g.total ≡ f.total
  pub same : entries (regions g) ≡ entries (regions f)

pub entries-regions :
    (xs : List Region) (r : Region) (ys : List Region)
    → r.allocated ≡ false
    → entries (xs ++ (r ∷ ys)) ≡ entries xs ++ entries ys
entries-regions xs r ys free = entries-append xs (r ∷ ys) ∙ rw free

advance_after-Advanced :
    (size : ℕ) (f : Fifo) (xs : List Region) (fit : Region) (ys : List Region)
    → IsValid f
    → f.after ≡ xs ++ (fit ∷ ys)
    → Fits size fit
    → Advanced size f
        (record f { before = f.before ++ (retire f.active ++ xs); active = fit; after = ys })
advance_after-Advanced size f xs fit ys v e fits = record {
  valid = move_after f v xs fit ys e fits.0;
  fits = fits.1;
  total = refl;
  same =
      entries-regions (f.before ++ (retire f.active ++ xs)) fit ys fits.0
      ∙ rw (
        entries-append f.before (retire f.active ++ xs),
        entries-retire f.active xs v.free,
        append_assoc (entries f.before) (entries xs) (entries ys),
        entries-regions f.before f.active f.after v.free,
        e,
        entries-regions xs fit ys fits.0,
      );
}

advance_before-Advanced :
    (size : ℕ) (f : Fifo) (xs : List Region) (fit : Region) (ys : List Region)
    → IsValid f
    → f.before ≡ xs ++ (fit ∷ ys)
    → Fits size fit
    → Advanced size f
        (record f { before = xs; active = fit; after = ys ++ (retire f.active ++ f.after) })
advance_before-Advanced size f xs fit ys v e fits = record {
  valid = move_before f v xs fit ys e fits.0;
  fits = fits.1;
  total = refl;
  same =
      entries-regions xs fit (ys ++ (retire f.active ++ f.after)) fits.0
      ∙ rw (
        entries-append ys (retire f.active ++ f.after),
        entries-retire f.active f.after v.free,
        entries-regions f.before f.active f.after v.free,
        e,
        entries-regions xs fit ys fits.0,
        append_assoc (entries xs) (entries ys) (entries f.after),
      );
}

-- What the two searches come to: a move, or no free region outside the active one that is large
-- enough.
abbrev pub Advance : ℕ → Fifo → Option Fifo → Type 0
Advance size f none = NoneFits size f.before × NoneFits size f.after
Advance size f (some g) = Advanced size f g

search_before :
    (size : ℕ) (f : Fifo) (o : Option (List Region × Region × List Region))
    → IsValid f
    → NoneFits size f.after
    → Found size f.before o
    → Advance size f (elim o as (λ o. Option Fifo) [
      | some (xs, fit, ys) ↦
          some (record f { before = xs; active = fit; after = ys ++ (retire f.active ++ f.after) })
      | none ↦ none
    ])
search_before size f none v misfit h = (h, misfit)
search_before size f (some (xs, fit, ys)) v misfit (e, fits, _) =
    advance_before-Advanced size f xs fit ys v e fits

search_after :
    (size : ℕ) (f : Fifo) (o : Option (List Region × Region × List Region)) (second : Option Fifo)
    → IsValid f
    → Found size f.after o
    → (NoneFits size f.after → Advance size f second)
    → Advance size f (elim o as (λ o. Option Fifo) [
      | some (xs, fit, ys) ↦
          some (record f { before = f.before ++ (retire f.active ++ xs); active = fit; after = ys })
      | none ↦ second
    ])
search_after size f none second v h k = k h
search_after size f (some (xs, fit, ys)) second v (e, fits, _) k =
    advance_after-Advanced size f xs fit ys v e fits

pub advance_active-Advance :
    (size : ℕ) (f : Fifo) → IsValid f → Advance size f (advance_active size f)
unfolding advance_active
advance_active-Advance size f v =
    search_after size f (find_fit size f.after) _ v (find_fit-Found size f.after)
      λ h. search_before size f (find_fit size f.before) v h (find_fit-Found size f.before)
