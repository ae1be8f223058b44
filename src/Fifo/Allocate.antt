-- ===== src/Fifo/Allocate.antt =====
-- AllocateRegion.
use mathlib.Core.List.{append_assoc}
use native.Mathlib.Nat.{add-zero}
use motown.Base.{
  ℕ, ◌+◌, ◌-◌, ◌≤◌, ◌<◌, ◌≡◌, refl, sym, subst, ◌∙◌, inl, inr, Bool, true, false, not, Option, none,
  some, List, [], ◌∷◌, ◌++◌, arith, ltb, ◌==◌, Bool-cases, ==_iff,
}
use motown.Fifo.{
  Region, Fifo, regions, advance_active, next_active, take_active, allocate_region, free_region,
}
use motown.Fifo.Layout.{is_free, Tiles, last_free, last_free-append, Tiles-append, IsValid}
use motown.Fifo.Entries.{Tiles-le, entries, entries-append}
use motown.Fifo.Advance.{Advanced, Advance, advance_active-Advance, entries-regions}
use motown.Fifo.Search.{NoneFits}

-- What taking a region from the active one does.
record Taken (before : List Region) (offset size : ℕ) (after : List Region) (total : ℕ) (g : Fifo)
    : Type 0 where
  valid : IsValid g
  total_same : g.total ≡ total
  entry : entries (regions g) ≡ entries before ++ ((offset, size) ∷ entries after)

module _ (f : Fifo) (used : Region) (alloc : used.allocated ≡ true) (pos : 0 < used.size) where
  used-Tiles :
      (free : Bool) (stop : ℕ)
      → used.offset + used.size ≡ stop
      → Tiles used.offset free (used ∷ []) stop
  used-Tiles free stop e = (refl, pos, ground arith, e)

  next_active-Taken :
      (before after : List Region)
      → Tiles 0 false before used.offset
      → last_free false before ≡ false
      → Tiles (used.offset + used.size) true after f.total
      → Taken before used.offset used.size after f.total (next_active f used before after)
  unfolding next_active
  next_active-Taken [] [] t l h = record {
    valid = record {
      free = refl;
      front = refl;
      front_used = refl;
      back = (sym t, pos, ground arith, omega arith);
    };
    total_same = refl;
    entry = rw alloc;
  }
  next_active-Taken (front ∷ rest) [] t l h = elim (Bool-cases (not front.allocated)) [
    | inl free ↦ rw free (record {
      valid = record { free = ground arith; front = sym t.0; front_used = refl; back = tail free };
      total_same = refl;
      entry = order;
    })
    | inr fixed ↦ rw fixed (record {
      valid = record {
        free = refl;
        front = refl;
        front_used = refl;
        back = (t.0, t.1, ground arith, whole);
      };
      total_same = refl;
      entry = order;
    })
  ]
    where
      whole : Tiles (0 + front.size) (is_free front) (rest ++ (used ∷ [])) f.total
      whole =
          Tiles-append (0 + front.size) (is_free front) rest used.offset (used ∷ []) f.total t.3
            (used-Tiles (last_free (is_free front) rest) f.total h)

      tail :
          not front.allocated ≡ true
          → Tiles (front.offset + front.size) true (rest ++ (used ∷ [])) f.total
      tail free = rw t.0 (rw free at whole)

      order :
          entries (front ∷ (rest ++ (used ∷ [])))
          ≡ entries (front ∷ rest) ++ ((used.offset, used.size) ∷ [])
      order = entries-append (front ∷ rest) (used ∷ []) ∙ rw alloc
  next_active-Taken before (next ∷ rest) t l h = record {
    valid = record {
      free = refl;
      front =
          Tiles-append 0 false before used.offset (used ∷ []) (used.offset + used.size) t
            (used-Tiles (last_free false before) (used.offset + used.size) refl);
      front_used = rw (last_free-append false before (used ∷ []), alloc);
      back =
          subst (λ x. Tiles x true (next ∷ rest) f.total) (sym (add-zero (used.offset + used.size)))
            h;
    };
    total_same = refl;
    entry =
        entries-append (before ++ (used ∷ []))
          (free_region 0 (used.offset + used.size) ∷ (next ∷ rest))
        ∙ rw (entries-append before (used ∷ []), alloc, append_assoc (entries before));
  }

part-Taken :
    (size : ℕ) (f : Fifo)
    → IsValid f
    → 0 < size
    → size < f.active.size
    → Taken f.before f.active.offset size f.after f.total (record f {
      before =
          f.before ++ (record { allocated = true; size = size; offset = f.active.offset } ∷ []);
      active = record f.active { size = f.active.size - size; offset = f.active.offset + size };
    })
part-Taken size f v pos lt = record {
  valid = record {
    free = v.free;
    front =
        Tiles-append 0 false f.before f.active.offset (used ∷ []) (f.active.offset + size) v.front
          (refl, pos, ground arith, refl);
    front_used = last_free-append false f.before (used ∷ []);
    back =
        let same : f.active.offset + f.active.size
            ≡ f.active.offset + size + (f.active.size - size) =
          omega arith in
        subst (λ x. Tiles x true f.after f.total) same v.back;
  };
  total_same = refl;
  entry =
      entries-append (f.before ++ (used ∷ [])) (_ ∷ f.after)
      ∙ rw (v.free, entries-append f.before (used ∷ []), append_assoc (entries f.before));
}
  where
    used : Region
    used = record { allocated = true; size = size; offset = f.active.offset }

take_active-Taken :
    (size : ℕ) (f : Fifo)
    → IsValid f
    → 0 < size
    → size ≤ f.active.size
    → (Taken f.before f.active.offset size f.after f.total (take_active size f).1)
      × ((take_active size f).0 ≡ f.active.offset)
unfolding take_active
take_active-Taken size f v pos le = elim (Bool-cases (f.active.size == size)) [
  | inl e ↦
      let exact : f.active.size ≡ size = (==_iff f.active.size size).0 e in
      rw e (
        subst
            (λ n.
              Taken f.before f.active.offset n f.after f.total
                (next_active f (record f.active { allocated = true }) f.before f.after))
            exact
            (next_active-Taken f (record f.active { allocated = true }) refl (omega arith) f.before
              f.after v.front v.front_used v.back),
        refl,
      )
  | inr e ↦ rw e (part-Taken size f v pos (ground arith), refl)
]

-- What an allocation means to the client: the new region, inside the buffer, is added to the allocated
-- ones in address order; or no free region is large enough, and nothing changes.
abbrev pub Allocated : ℕ → Fifo → Option ℕ × Fifo → Type 0
Allocated size f (some offset, g) =
    IsValid g
    × (g.total ≡ f.total)
    × (offset + size ≤ f.total)
    × ((xs : List (ℕ × ℕ)) × (ys : List (ℕ × ℕ)) × (entries (regions f) ≡ xs ++ ys)
        × (entries (regions g) ≡ xs ++ ((offset, size) ∷ ys)))
Allocated size f (none, g) = (g ≡ f) × NoneFits size (regions f)

taken-Allocated :
    (size : ℕ) (f g : Fifo)
    → Advanced size f g
    → 0 < size
    → Allocated size f (let (offset, h) = take_active size g in (some offset, h))
taken-Allocated size f g a pos =
    let (t, at) = take_active-Taken size g a.valid pos a.fits in
    (
      t.valid,
      t.total_same ∙ a.total,
      omega (
        arith,
        a.total,
        at,
        a.fits,
        Tiles-le (g.active.offset + g.active.size) true g.after g.total a.valid.back,
      ),
      (
        entries g.before,
        entries g.after,
        sym a.same ∙ entries-regions g.before g.active g.after a.valid.free,
        rw at t.entry,
      ),
    )

NoneFits-append :
    (size : ℕ) (xs ys : List Region)
    → NoneFits size xs
    → NoneFits size ys
    → NoneFits size (xs ++ ys)
NoneFits-append size [] ys h k = k
NoneFits-append size (r ∷ xs) ys h k = (h.0, NoneFits-append size xs ys h.1 k)

advanced-Allocated :
    (size : ℕ) (f : Fifo) (o : Option Fifo)
    → f.active.size < size
    → 0 < size
    → Advance size f o
    → Allocated size f (elim o as (λ o. Option ℕ × Fifo) [
      | none ↦ (none, f)
      | some g ↦ (let (offset, h) = take_active size g in (some offset, h))
    ])
advanced-Allocated size f none small pos (h, k) =
    (refl, NoneFits-append size f.before (f.active ∷ f.after) h ((λ fits. omega arith), k))
advanced-Allocated size f (some g) small pos a = taken-Allocated size f g a pos

-- On a valid state and a positive size, AllocateRegion keeps the layout valid and adds one region
-- of that size, inside the buffer, in address order; or no free region is large enough, it fails,
-- and nothing changes.
pub allocate_region-Allocated :
    (size : ℕ) (f : Fifo) → IsValid f → 0 < size → Allocated size f (allocate_region size f)
unfolding allocate_region
allocate_region-Allocated size f v pos = elim (Bool-cases (ltb f.active.size size)) [
  | inl small ↦ rw small (
      advanced-Allocated size f (advance_active size f) (ground arith) pos
        (advance_active-Advance size f v))
  | inr large ↦ rw large (
      taken-Allocated size f f
        (record { valid = v; fits = ground arith; total = refl; same = refl }) pos)
]
