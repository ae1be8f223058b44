-- ===== src/Fifo/Entries.antt =====
-- The allocator as its clients see it: the allocated regions, in address order.
use motown.Base.{
  ℕ, ◌+◌, ◌≤◌, ◌<◌, ◌≡◌, refl, Bool, true, false, ◌||◌, List, [], ◌∷◌, ◌++◌, arith, ◌==◌,
  if◌then◌else◌, Bool-cases, inl, inr,
}
use motown.Fifo.{Region, retire}
use motown.Fifo.Layout.{is_free, Tiles}

-- The offset and size of each allocated region.
abbrev pub entries : List Region → List (ℕ × ℕ)
entries [] = []
entries (r ∷ rest) = if r.allocated then (r.offset, r.size) ∷ entries rest else entries rest

-- Whether a region is allocated at an offset, and the regions without it.
abbrev pub holds : ℕ → List (ℕ × ℕ) → Bool
holds offset [] = false
holds offset ((o, n) ∷ rest) = o == offset || holds offset rest

abbrev pub without : ℕ → List (ℕ × ℕ) → List (ℕ × ℕ)
without offset [] = []
without offset ((o, n) ∷ rest) = if o == offset then rest else (o, n) ∷ without offset rest

pub entries-append : (xs ys : List Region) → entries (xs ++ ys) ≡ entries xs ++ entries ys
entries-append [] ys = refl
entries-append (r ∷ xs) ys = ground (arith, entries-append xs ys)

pub entries-retire :
    (r : Region) (rest : List Region)
    → r.allocated ≡ false
    → entries (retire r ++ rest) ≡ entries rest
unfolding retire
entries-retire r rest free = elim (Bool-cases (r.size == 0)) [ inl e ↦ rw e | inr e ↦ rw (e, free) ]

-- A tiled list holds nothing below its start.
pub holds_below :
    (offset start : ℕ) (free : Bool) (rs : List Region) (stop : ℕ)
    → Tiles start free rs stop
    → offset < start
    → holds offset (entries rs) ≡ false
holds_below offset start free [] stop t lt = refl
holds_below offset start free (r ∷ rest) stop (o, s, n, t) lt =
    let below = holds_below offset (start + r.size) (is_free r) rest stop t (omega arith) in
    ground arith

pub Tiles-le :
    (start : ℕ) (free : Bool) (rs : List Region) (stop : ℕ)
    → Tiles start free rs stop
    → start ≤ stop
Tiles-le start free [] stop t = omega arith
Tiles-le start free (r ∷ rest) stop (o, s, n, t) =
    omega (arith, Tiles-le (start + r.size) (is_free r) rest stop t)

-- Nor anything from its end on.
pub holds_above :
    (offset start : ℕ) (free : Bool) (rs : List Region) (stop : ℕ)
    → Tiles start free rs stop
    → stop ≤ offset
    → holds offset (entries rs) ≡ false
holds_above offset start free [] stop t le = refl
holds_above offset start free (r ∷ rest) stop (o, s, n, t) le =
    let above = holds_above offset (start + r.size) (is_free r) rest stop t le in
    let bound = Tiles-le (start + r.size) (is_free r) rest stop t in ground arith

-- How a region at the head of the list meets a look-up.
module _ (offset : ℕ) (r : Region) (rest : List Region) where
  pub head_allocated :
      (free : Bool) (stop : ℕ)
      → Tiles (r.offset + r.size) free rest stop
      → 0 < r.size
      → (r.offset == offset) ≡ true
      → holds offset (entries (r ∷ rest)) ≡ true
      → r.allocated ≡ true
  head_allocated free stop t s e h =
      ground (arith, holds_below offset (r.offset + r.size) free rest stop t (ground arith))

  pub head_skipped :
      (r.offset == offset) ≡ false
      → holds offset (entries (r ∷ rest)) ≡ true
      → holds offset (entries rest) ≡ true
  head_skipped e h = ground arith

  pub without_head :
      r.allocated ≡ true
      → (r.offset == offset) ≡ true
      → without offset (entries (r ∷ rest)) ≡ entries rest
  without_head a e = ground arith

  pub without_tail :
      (r.offset == offset) ≡ false
      → without offset (entries (r ∷ rest)) ≡ entries (r ∷ []) ++ without offset (entries rest)
  without_tail e = ground arith

-- Look-up and removal on two parts.
module _ (offset : ℕ) where
  pub holds-append :
      (xs ys : List (ℕ × ℕ)) → holds offset (xs ++ ys) ≡ (holds offset xs || holds offset ys)
  holds-append [] ys = refl
  holds-append ((o, n) ∷ xs) ys = ground (arith, holds-append xs ys)

  pub without-append_left :
      (xs ys : List (ℕ × ℕ))
      → holds offset xs ≡ true
      → without offset (xs ++ ys) ≡ without offset xs ++ ys
  without-append_left [] ys h = cc
  without-append_left ((o, n) ∷ xs) ys h = ground (arith, without-append_left xs ys)

  pub without-append_right :
      (xs ys : List (ℕ × ℕ))
      → holds offset xs ≡ false
      → without offset (xs ++ ys) ≡ xs ++ without offset ys
  without-append_right [] ys h = refl
  without-append_right ((o, n) ∷ xs) ys h = ground (arith, without-append_right xs ys)
