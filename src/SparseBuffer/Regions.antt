-- ===== src/SparseBuffer/Regions.antt =====
-- FindRegionContaining.
use motown.Base.{
  ℕ, ◌+◌, ◌≤◌, ◌<◌, ◌≡◌, refl, true, false, ◌&&◌, Bool-cases, Option-cases, inl, inr, Option, none,
  some, List, [], ◌∷◌, arith, ltb, leb, ◌==◌, ne→==, length,
}
use motown.SparseBuffer.{
  SparseBuffer, find_region_from, seek, hinted_next, hinted, from_hint, find_region_containing,
}
use motown.SparseBuffer.Spans.{Spans, within, extents, within_below, size_at_start}
use motown.SparseBuffer.Search.{Holds}

find_region_after :
    (x q : ℕ) (m : List ℕ) (xs : List (ℕ × List ℕ)) (hi : ℕ)
    → 0 < length m
    → Spans (q + length m) (extents xs) hi
    → q ≤ x
    → within x (extents ((q, m) ∷ xs)) ≡ true
    → (k : ℕ) × (find_region_from x (some (q, m)) xs ≡ some k)
      × (q ≤ k)
      × Holds x (extents ((q, m) ∷ xs)) k
unfolding find_region_from
find_region_after x q m [] hi pos h le inside =
    (q, ground arith, omega arith, (length m, ground arith, ground arith, ground arith))
find_region_after x q m ((p, s) ∷ rest) hi pos (a, b, h) le inside = elim (Bool-cases (ltb p x)) [
  | inl lt ↦
      let (k, found, ge, (n, held, low, up)) =
        find_region_after x p s rest hi b h (ground arith) (ground arith) in
      (k, rw lt found, omega arith, (n, rw (ne→== q k (omega arith)) held, low, up))
  | inr nlt ↦ elim (Bool-cases (p == x)) [
    | inl e ↦ (p, ground arith, ground arith, (length s, ground arith, ground arith, ground arith))
    | inr ne ↦
        let below = within_below x (p + length s) (extents rest) hi h (ground arith) in
        (q, ground arith, omega arith, (length m, ground arith, ground arith, ground arith))
  ]
]

find_region_first :
    (x : ℕ) (xs : List (ℕ × List ℕ)) (hi : ℕ)
    → Spans 0 (extents xs) hi
    → within x (extents xs) ≡ true
    → (k : ℕ) × (find_region_from x none xs ≡ some k) × Holds x (extents xs) k
unfolding find_region_from
find_region_first x [] hi h inside = ground arith
find_region_first x ((p, s) ∷ rest) hi (a, b, h) inside = elim (Bool-cases (leb x p)) [
  | inl le ↦
      let below = within_below x (p + length s) (extents rest) hi h (ground arith) in
      (p, rw le refl, (length s, ground arith, ground arith, ground arith))
  | inr gt ↦
      let (k, found, ge, held) = find_region_after x p s rest hi b h (ground arith) inside in
      (k, rw gt found, held)
]

-- A span of the tail is a span of the whole.
Holds-cons :
    (x p m lo : ℕ) (xs : List (ℕ × ℕ)) (hi k : ℕ)
    → 0 < m
    → Spans (p + m) xs hi
    → Holds x xs k
    → Holds x ((p, m) ∷ xs) k
Holds-cons x p m lo xs hi k pos h (n, held, low, up) =
    let start = size_at_start k n (p + m) xs hi h held in
    (n, rw (ne→== p k (omega arith)) held, low, up)

hinted_next-Holds :
    (x lo : ℕ) (xs : List (ℕ × List ℕ)) (hi r : ℕ)
    → Spans lo (extents xs) hi
    → hinted_next x xs ≡ some r
    → Holds x (extents xs) r
unfolding hinted_next
hinted_next-Holds x lo [] hi r h found = ground arith
hinted_next-Holds x lo ((p, s) ∷ rest) hi r h found =
    elim (Bool-cases (leb p x && ltb x (p + length s))) [
      | inl e ↦
          let same : p ≡ r = ground arith in (length s, ground arith, ground arith, ground arith)
      | inr ne ↦ ground arith
    ]

hinted_here-Holds :
    (x lo : ℕ) (xs : List (ℕ × List ℕ)) (hi r : ℕ)
    → Spans lo (extents xs) hi
    → hinted x xs ≡ some r
    → Holds x (extents xs) r
unfolding hinted
hinted_here-Holds x lo [] hi r h found = ground arith
hinted_here-Holds x lo ((p, s) ∷ rest) hi r (a, b, h) found = elim (Bool-cases (leb p x)) [
  | inr gt ↦ let no_region = rw gt at found in ground arith
  | inl le ↦ elim (Bool-cases (leb (p + length s) x)) [
    | inl past ↦
        Holds-cons x p (length s) lo (extents rest) hi r b h
          (hinted_next-Holds x (p + length s) rest hi r h (rw (le, past) at found))
    | inr here ↦
        let found' : some p ≡ some r = rw (le, here) at found in
        let same : p ≡ r = cc in (length s, ground arith, ground arith, ground arith)
  ]
]

hinted-Holds :
    (x k lo : ℕ) (xs : List (ℕ × List ℕ)) (hi r : ℕ)
    → Spans lo (extents xs) hi
    → hinted x (seek k xs) ≡ some r
    → Holds x (extents xs) r
unfolding seek
hinted-Holds x k lo [] hi r h found = hinted_here-Holds x lo [] hi r h found
hinted-Holds x k lo ((p, s) ∷ rest) hi r (a, b, h) found = elim (Bool-cases (p == k)) [
  | inl e ↦ hinted_here-Holds x lo ((p, s) ∷ rest) hi r (a, b, h) (rw e at found)
  | inr ne ↦
      Holds-cons x p (length s) lo (extents rest) hi r b h
        (hinted-Holds x k (p + length s) rest hi r h (rw ne at found))
]

pub from_hint-Holds :
    (x : ℕ) (hint : Option ℕ) (xs : List (ℕ × List ℕ)) (hi r : ℕ)
    → Spans 0 (extents xs) hi
    → from_hint x hint xs ≡ some r
    → Holds x (extents xs) r
unfolding from_hint
from_hint-Holds x none xs hi r h found = ground arith
from_hint-Holds x (some k) xs hi r h found = hinted-Holds x k 0 xs hi r h found

-- In ordered regions, FindRegionContaining finds, with any hint, the region that a position lies
-- in.
pub find_region_containing-Holds :
    (x : ℕ) (hint : Option ℕ) (b : SparseBuffer)
    → Spans 0 (extents b.regions) b.size
    → within x (extents b.regions) ≡ true
    → (k : ℕ) × (find_region_containing x hint b ≡ some k) × Holds x (extents b.regions) k
unfolding find_region_containing
find_region_containing-Holds x hint b h inside = elim (Option-cases (from_hint x hint b.regions)) [
  | inl e ↦ rw (e, find_region_containing) (find_region_first x b.regions b.size h inside)
  | inr (k, e) ↦
      rw (e, find_region_containing) (k, refl, from_hint-Holds x hint b.regions b.size k h e)
]

hinted_first :
    (x k lo : ℕ) (xs : List (ℕ × List ℕ)) (hi : ℕ)
    → Spans lo (extents xs) hi
    → x < lo
    → hinted x (seek k xs) ≡ none
unfolding seek hinted
hinted_first x k lo [] hi h lt = refl
hinted_first x k lo ((p, s) ∷ rest) hi (a, b, h) lt =
    let later = hinted_first x k (p + length s) rest hi h (omega arith) in
    elim (Bool-cases (p == k)) [ inl e ↦ ground arith | inr ne ↦ rw ne later ]

from_hint_first :
    (x lo : ℕ) (hint : Option ℕ) (xs : List (ℕ × List ℕ)) (hi : ℕ)
    → Spans lo (extents xs) hi
    → x < lo
    → from_hint x hint xs ≡ none
unfolding from_hint
from_hint_first x lo none xs hi h lt = refl
from_hint_first x lo (some k) xs hi h lt = hinted_first x k lo xs hi h lt

-- In ordered regions, at a position in front of the first region and with any hint,
-- FindRegionContaining returns that first region, although the position lies in no region.
pub find_region_containing_first :
    (x p : ℕ) (s : List ℕ) (rest : List (ℕ × List ℕ)) (hint : Option ℕ) (b : SparseBuffer)
    → Spans 0 (extents b.regions) b.size
    → b.regions ≡ (p, s) ∷ rest
    → x < p
    → (find_region_containing x hint b ≡ some p) × (within x (extents b.regions) ≡ false)
unfolding find_region_containing find_region_from
find_region_containing_first x p s rest hint b h e lt =
    let ordered : Spans p (extents ((p, s) ∷ rest)) b.size =
      let (a, pos, t) = rw e at h in (omega arith, pos, t) in
    let no_hint = from_hint_first x p hint ((p, s) ∷ rest) b.size ordered lt in
    rw (e, no_hint, find_region_containing)
      (ground arith, within_below x p (extents ((p, s) ∷ rest)) b.size ordered lt)
