-- ===== src/Fifo.antt =====
-- FifoAllocator of mojo/services/media/common/cpp/fifo_allocator.{h,cc}.
pub mod Layout
pub mod Entries
pub mod Search
pub mod Advance
pub mod Allocate
pub mod Release
pub mod ReleaseFront
pub mod ReleaseRegion
pub mod History
mod Tests
use motown.Base.{
  ℕ, ◌+◌, ◌-◌, Bool, true, false, ◌&&◌, not, Option, none, some, List, [], ◌∷◌, ◌++◌, ltb, leb,
  ◌==◌, if◌then◌else◌,
}

-- FifoAllocator::Region, without the list pointers.
pub record Region : Type 0 where
  pub allocated : Bool
  pub size : ℕ
  pub offset : ℕ

-- The region list, split at the active region: `before` runs from front_ up to active_, `after` from
-- active_->next to back_. The lookaside free_ only recycles storage and is left out.
pub record Fifo : Type 0 where
  pub total : ℕ
  pub before : List Region
  pub active : Region
  pub after : List Region

abbrev pub regions : Fifo → List Region
regions f = f.before ++ (f.active ∷ f.after)

-- Reset, and the constructor.
pub reset : ℕ → Fifo
reset size = record {
  total = size;
  before = [];
  active = record { allocated = false; size = size; offset = 0 };
  after = [];
}

-- The loop of the ranged AdvanceActive: the first free region of at least the size, with the regions
-- on its two sides.
pub find_fit : ℕ → List Region → Option (List Region × Region × List Region)
find_fit size [] = none
find_fit size (r ∷ rest) =
    if not r.allocated && leb size r.size
    then some ([], r, rest)
    else elim (find_fit size rest) as (λ o. Option (List Region × Region × List Region)) [
      | none ↦ none
      | some (xs, fit, ys) ↦ some (r ∷ xs, fit, ys)
    ]

-- What becomes of the old active region: a zero-sized one is removed.
pub retire : Region → List Region
retire r = if r.size == 0 then [] else r ∷ []

-- The two calls of the ranged AdvanceActive: after the active region, then before it.
pub advance_active : ℕ → Fifo → Option Fifo
advance_active size f = elim (find_fit size f.after) as (λ o. Option Fifo) [
  | some (xs, fit, ys) ↦
      some (record f { before = f.before ++ (retire f.active ++ xs); active = fit; after = ys })
  | none ↦ elim (find_fit size f.before) as (λ o. Option Fifo) [
    | some (xs, fit, ys) ↦
        some (record f { before = xs; active = fit; after = ys ++ (retire f.active ++ f.after) })
    | none ↦ none
  ]
]

abbrev pub free_region : ℕ → ℕ → Region
free_region size offset = record { allocated = false; size = size; offset = offset }

-- The exact fit: the active region is allocated whole. With `after` empty it is back_, and a free
-- front region becomes active; else MakeActivePlaceholder inserts a zero-sized region, at the front
-- where the old active region was at the back.
pub next_active : Fifo → Region → List Region → List Region → Fifo
next_active f used [] [] = record f { before = []; active = free_region 0 0; after = used ∷ [] }
next_active f used (front ∷ rest) [] =
    if not front.allocated
    then record f { before = []; active = front; after = rest ++ (used ∷ []) }
    else record f { before = []; active = free_region 0 0; after = front ∷ (rest ++ (used ∷ [])) }
next_active f used before (next ∷ rest) = record f {
  before = before ++ (used ∷ []);
  active = free_region 0 (used.offset + used.size);
  after = next ∷ rest;
}

-- AllocateRegion, once the active region is large enough.
pub take_active : ℕ → Fifo → ℕ × Fifo
take_active size f =
    if f.active.size == size
    then (f.active.offset, next_active f (record f.active { allocated = true }) f.before f.after)
    else (
      f.active.offset,
      record f {
        before =
            f.before ++ (record { allocated = true; size = size; offset = f.active.offset } ∷ []);
        active = record f.active { size = f.active.size - size; offset = f.active.offset + size };
      },
    )

-- AllocateRegion; `none` is kNullOffset.
pub allocate_region : ℕ → Fifo → Option ℕ × Fifo
allocate_region size f =
    if ltb f.active.size size
    then elim (advance_active size f) as (λ o. Option ℕ × Fifo) [
      | none ↦ (none, f)
      | some g ↦ (let (offset, h) = take_active size g in (some offset, h))
    ]
    else (let (offset, h) = take_active size f in (some offset, h))

-- A released region that absorbs, or is absorbed by, the next one when that is free. Where the two
-- coalesce, the region structure that stays is the next one.
pub join_next : Region → Region → List Region → Region × List Region
join_next r next rest =
    if not next.allocated
    then (record next { offset = r.offset; size = next.size + r.size }, rest)
    else (r, next ∷ rest)

pub join_list : Region → List Region → Region × List Region
join_list r [] = (r, [])
join_list r (next ∷ rest) = join_next r next rest

-- Release of `r`, which has `previous` in front of it and `rest` behind it.
pub coalesce : Region → Region → List Region → Region × List Region
coalesce previous r rest =
    if not previous.allocated
    then join_list (record previous { size = previous.size + r.size }) rest
    else (let (r', rest') = join_list (record r { allocated = false }) rest in
        (previous, r' ∷ rest'))

-- The loop of Release over the regions that follow `previous`; at first `previous` is active_.
pub release_after : ℕ → Region → List Region → Option (Region × List Region)
release_after offset previous [] = none
release_after offset previous (r ∷ rest) =
    if r.offset == offset
    then some (coalesce previous r rest)
    else elim (release_after offset r rest) as (λ o. Option (Region × List Region)) [
      | none ↦ none
      | some (r', rest') ↦ some (previous, r' ∷ rest')
    ]

-- Release of `r` before the active region: `previous` holds the region in front of it, if any.
pub release_found : List Region → Region → List Region → Region → List Region × Region
release_found previous r [] active =
    if not active.allocated
    then (previous, record active { offset = r.offset; size = active.size + r.size })
    else (previous ++ (r ∷ []), active)
release_found previous r (next ∷ rest) active =
    let (r', rest') = join_next r next rest in (previous ++ (r' ∷ rest'), active)

-- The loop of Release from front_ up to active_.
pub release_before : ℕ → Option Region → List Region → Region → Option (List Region × Region)
release_before offset previous [] active = none
release_before offset none (r ∷ rest) active =
    if r.offset == offset
    then some (release_found [] (record r { allocated = false }) rest active)
    else release_before offset (some r) rest active
release_before offset (some p) (r ∷ rest) active =
    if r.offset == offset
    then (if not p.allocated
        then some (release_found [] (record p { size = p.size + r.size }) rest active)
        else some (release_found (p ∷ []) (record r { allocated = false }) rest active))
    else elim (release_before offset (some r) rest active) as (λ o. Option (List Region × Region)) [
      | none ↦ none
      | some (rest', active') ↦ some (p ∷ rest', active')
    ]

-- ReleaseRegion: after the active region first, then before it; `none` is the failed DCHECK. The size
-- is used by that check alone.
pub release_region : ℕ → Fifo → Option Fifo
release_region offset f = elim (release_after offset f.active f.after) as (λ o. Option Fifo) [
  | some (active, after) ↦ some (record f { active = active; after = after })
  | none ↦ elim (release_before offset none f.before f.active) as (λ o. Option Fifo) [
    | some (before, active) ↦ some (record f { before = before; active = active })
    | none ↦ none
  ]
]
