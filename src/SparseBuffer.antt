-- ===== src/SparseBuffer.antt =====
-- SparseByteBuffer of services/media/framework/parts/sparse_byte_buffer.{h,cc}.
pub mod Spans
pub mod Search
pub mod Fill
pub mod Emplace
pub mod Laws
pub mod Create
pub mod Regions
pub mod Missing
pub mod History
mod Tests
use motown.Base.{
  ℕ, zero, suc, ◌+◌, ◌-◌, Bool, true, false, ◌&&◌, ◌||◌, not, Option, none, some, List, [], ◌∷◌,
  ◌++◌, ltb, leb, ◌==◌, length, if◌then◌else◌,
}

-- The two std::maps, as lists in the order of their keys. An iterator is the key of its entry, and
-- `none` is end().
pub record SparseBuffer : Type 0 where
  pub size : ℕ
  pub holes : List (ℕ × ℕ)
  pub regions : List (ℕ × List ℕ)

-- Initialize.
pub initialize : ℕ → SparseBuffer
initialize size = record { size = size; holes = (0, size) ∷ []; regions = [] }

-- The search of FindHoleContaining: lower_bound, and the step back to the entry in front of it,
-- which is the second argument.
pub find_hole_from : ℕ → Option (ℕ × ℕ) → List (ℕ × ℕ) → Option ℕ
find_hole_from position none [] = none
find_hole_from position (some (q, m)) [] = if ltb (q + m) position then none else some q
find_hole_from position none ((p, s) ∷ rest) =
    let later = find_hole_from position (some (p, s)) rest in
    if leb position p then some p else later
find_hole_from position (some (q, m)) ((p, s) ∷ rest) =
    let later = find_hole_from position (some (p, s)) rest in
    if ltb p position
    then later
    else if p == position
    then some p
    else if ltb (q + m) position
    then none
    else some q

pub find_hole_containing : ℕ → SparseBuffer → Option ℕ
find_hole_containing position b = find_hole_from position none b.holes

-- The search of FindRegionContaining, without its hint.
pub find_region_from : ℕ → Option (ℕ × List ℕ) → List (ℕ × List ℕ) → Option ℕ
find_region_from position none [] = none
find_region_from position (some (q, m)) [] = if leb (q + length m) position then none else some q
find_region_from position none ((p, s) ∷ rest) =
    let later = find_region_from position (some (p, s)) rest in
    if leb position p then some p else later
find_region_from position (some (q, m)) ((p, s) ∷ rest) =
    let later = find_region_from position (some (p, s)) rest in
    if ltb p position
    then later
    else if p == position
    then some p
    else if leb (q + length m) position
    then none
    else some q

-- The entries from an iterator on.
pub seek {ℓ} : {A : Type ℓ} → ℕ → List (ℕ × A) → List (ℕ × A)
seek k [] = []
seek k ((p, a) ∷ rest) = let later = seek k rest in if p == k then (p, a) ∷ rest else later

-- The use of the hint: its region, or the next one.
pub hinted_next : ℕ → List (ℕ × List ℕ) → Option ℕ
hinted_next position [] = none
hinted_next position ((p, s) ∷ rest) =
    if leb p position && ltb position (p + length s) then some p else none

pub hinted : ℕ → List (ℕ × List ℕ) → Option ℕ
hinted position [] = none
hinted position ((p, s) ∷ rest) =
    if leb p position
    then (if leb (p + length s) position then hinted_next position rest else some p)
    else none

pub from_hint : ℕ → Option ℕ → List (ℕ × List ℕ) → Option ℕ
from_hint position none regions = none
from_hint position (some k) regions = hinted position (seek k regions)

-- FindRegionContaining.
pub find_region_containing : ℕ → Option ℕ → SparseBuffer → Option ℕ
find_region_containing position hint b =
    elim (from_hint position hint b.regions) as (λ o. Option ℕ) [
      | some p ↦ some p
      | none ↦ find_region_from position none b.regions
    ]

-- The loop of Fill from the filled hole on; `none` is a failed DCHECK.
pub fill_holes : ℕ → ℕ → List (ℕ × ℕ) → Option (List (ℕ × ℕ))
fill_holes position n [] = if n == 0 then some [] else none
fill_holes position n ((p, s) ∷ rest) =
    let later = fill_holes (position + s) (n - s) rest in
    if n == 0
    then some ((p, s) ∷ rest)
    else if p == position
    then (if ltb n s then some ((p + n, s - n) ∷ rest) else later)
    else none

-- The map of holes around the filled one, which has room for the bytes, with the holes that are left
-- from it on.
pub fill_at : ℕ → ℕ → List (ℕ × ℕ) → Option (List (ℕ × ℕ) × List (ℕ × ℕ))
fill_at k n [] = none
fill_at k n ((p, s) ∷ rest) =
    let here = fill_holes p n ((p, s) ∷ rest) in
    let later = fill_at k n rest in
    if p == k
    then (if leb n s
        then elim here as (λ o. Option (List (ℕ × ℕ) × List (ℕ × ℕ))) [
          | none ↦ none
          | some left ↦ some ([], left)
        ]
        else none)
    else elim later as (λ o. Option (List (ℕ × ℕ) × List (ℕ × ℕ))) [
      | none ↦ none
      | some (front, left) ↦ some ((p, s) ∷ front, left)
    ]

-- std::map::emplace: an entry that is there stays.
pub emplace : ℕ → List ℕ → List (ℕ × List ℕ) → List (ℕ × List ℕ)
emplace k bytes [] = (k, bytes) ∷ []
emplace k bytes ((p, s) ∷ rest) =
    let later = emplace k bytes rest in
    if ltb p k
    then (p, s) ∷ later
    else if p == k
    then (p, s) ∷ rest
    else (k, bytes) ∷ ((p, s) ∷ rest)

pub first_key {ℓ} : {A : Type ℓ} → List (ℕ × A) → Option ℕ
first_key [] = none
first_key ((p, a) ∷ rest) = some p

-- Fill, with the hole that follows in the wraparound sense. `none` is a failed DCHECK.
pub fill : ℕ → List ℕ → SparseBuffer → Option (SparseBuffer × Option ℕ)
fill k bytes b =
    if ltb 0 b.size && ltb 0 (length bytes)
    then elim (fill_at k (length bytes) b.holes) as (λ o. Option (SparseBuffer × Option ℕ)) [
      | none ↦ none
      | some (front, left) ↦ some (
        record b { holes = front ++ left; regions = emplace k bytes b.regions },
        elim (first_key left) as (λ o. Option ℕ) [
          | some p ↦ some p
          | none ↦ first_key (front ++ left)
        ],
      )
    ]
    else none

-- The split of the hole at `q`, whose front keeps the positions below `position`.
pub split_at : ℕ → ℕ → List (ℕ × ℕ) → List (ℕ × ℕ)
split_at q position [] = []
split_at q position ((p, s) ∷ rest) =
    let later = split_at q position rest in
    if p == q then (p, position - p) ∷ ((position, s - (position - p)) ∷ rest) else (p, s) ∷ later

-- FindOrCreateHole from the hole that it found; `none` is a failed DCHECK.
pub split_found : ℕ → SparseBuffer → List (ℕ × ℕ) → Option SparseBuffer
split_found position b [] = none
split_found position b ((q, m) ∷ rest) =
    if q == position
    then some b
    else if ltb q position && ltb (position - q) m
    then some (record b { holes = split_at q position b.holes })
    else none

-- FindOrCreateHole from the hint, or from the first hole; it returns the hole at the position.
pub create_from : ℕ → SparseBuffer → List (ℕ × ℕ) → Option SparseBuffer
create_from position b [] = none
create_from position b ((q, m) ∷ rest) =
    if not (q == position) && (ltb position q || leb (q + m) position)
    then elim (find_hole_containing position b) as (λ o. Option SparseBuffer) [
      | none ↦ none
      | some k ↦ split_found position b (seek k b.holes)
    ]
    else split_found position b ((q, m) ∷ rest)

-- FindOrCreateHole.
pub find_or_create_hole : ℕ → Option ℕ → SparseBuffer → Option SparseBuffer
find_or_create_hole position none b = create_from position b b.holes
find_or_create_hole position (some hint) b = create_from position b (seek hint b.holes)
