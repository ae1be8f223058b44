-- ===== src/Fifo/Layout.antt =====
-- How the regions of the allocator tile its buffer.
use motown.Base.{
  ℕ, ◌+◌, ◌<◌, ◌≡◌, refl, sym, subst, Bool, true, false, ◌&&◌, not, List, [], ◌∷◌, ◌++◌,
}
use motown.Fifo.{Region, Fifo}

abbrev pub is_free : Region → Bool
is_free r = not r.allocated

-- The regions lie end to end from `start` to `stop`, none is empty, and no two neighbours are free;
-- `free` says whether the region in front of the list is.
abbrev pub Tiles : ℕ → Bool → List Region → ℕ → Type 0
Tiles start free [] stop = start ≡ stop
Tiles start free (r ∷ rest) stop =
    (r.offset ≡ start)
    × (0 < r.size)
    × ((free && is_free r) ≡ false)
    × Tiles (start + r.size) (is_free r) rest stop

-- Whether the last region is free, if `free` says it of the region in front.
abbrev pub last_free : Bool → List Region → Bool
last_free free [] = free
last_free free (r ∷ rest) = last_free (is_free r) rest

pub last_free-append :
    (free : Bool) (xs ys : List Region)
    → last_free free (xs ++ ys) ≡ last_free (last_free free xs) ys
last_free-append free [] ys = refl
last_free-append free (r ∷ xs) ys = last_free-append (is_free r) xs ys

pub Tiles-append :
    (start : ℕ) (free : Bool) (xs : List Region) (middle : ℕ) (ys : List Region) (stop : ℕ)
    → Tiles start free xs middle
    → Tiles middle (last_free free xs) ys stop
    → Tiles start free (xs ++ ys) stop
Tiles-append start free [] middle ys stop h k = subst (λ t. Tiles t free ys stop) (sym h) k
Tiles-append start free (r ∷ xs) middle ys stop (o, s, n, h) k =
    (o, s, n, Tiles-append (start + r.size) (is_free r) xs middle ys stop h k)

-- A part of a tiled list, and what stands around it.
pub Tiles-split :
    (start : ℕ) (free : Bool) (xs : List Region) (r : Region) (ys : List Region) (stop : ℕ)
    → Tiles start free (xs ++ (r ∷ ys)) stop
    → Tiles start free xs r.offset × Tiles r.offset (last_free free xs) (r ∷ ys) stop
Tiles-split start free [] r ys stop h = (sym h.0, (refl, h.1, h.2, rw h.0 h.3))
Tiles-split start free (x ∷ xs) r ys stop (o, s, n, h) =
    let p = Tiles-split (start + x.size) (is_free x) xs r ys stop h in ((o, s, n, p.0), p.1)

-- Behind an allocated region anything may stand that may stand behind a free one.
pub Tiles-weaken :
    (start : ℕ) (xs : List Region) (stop : ℕ) → Tiles start true xs stop → Tiles start false xs stop
Tiles-weaken start [] stop h = h
Tiles-weaken start (r ∷ xs) stop (o, s, n, h) = (o, s, refl, h)

-- The allocator's state: the active region is free, it alone may be empty, and the three parts of the
-- list tile the buffer with no two free neighbours.
pub record IsValid (f : Fifo) : Type 0 where
  pub free : f.active.allocated ≡ false
  pub front : Tiles 0 false f.before f.active.offset
  pub front_used : last_free false f.before ≡ false
  pub back : Tiles (f.active.offset + f.active.size) true f.after f.total
