-- ===== src/SparseBuffer/Missing.antt =====
-- FindRegionContaining at a position that no region holds.
use motown.Base.{
  ℕ, ◌+◌, ◌≤◌, ◌≡◌, refl, false, Bool-cases, Option-cases, inl, inr, Option, none, some, List, [],
  ◌∷◌, arith, ltb, leb, length,
}
use motown.SparseBuffer.{SparseBuffer, find_region_from, from_hint, find_region_containing}
use motown.SparseBuffer.Spans.{Spans, within, extents, size_at-within}
use motown.SparseBuffer.Regions.{from_hint-Holds}

-- The first region starts at `x` or in front of it, where there is one.
abbrev pub StartsBy : ℕ → List (ℕ × List ℕ) → Type 0
StartsBy x [] = Unit
StartsBy x ((p, s) ∷ rest) = p ≤ x

find_region_missing_after :
    (x q : ℕ) (m : List ℕ) (xs : List (ℕ × List ℕ)) (hi : ℕ)
    → Spans (q + length m) (extents xs) hi
    → q ≤ x
    → within x (extents ((q, m) ∷ xs)) ≡ false
    → find_region_from x (some (q, m)) xs ≡ none
unfolding find_region_from
find_region_missing_after x q m [] hi h le outside = ground arith
find_region_missing_after x q m ((p, s) ∷ rest) hi (a, b, h) le outside =
    elim (Bool-cases (ltb p x)) [
      | inl lt ↦
          let found = find_region_missing_after x p s rest hi h (ground arith) (ground arith) in
          rw lt found
      | inr nlt ↦ ground arith
    ]

find_region_missing_first :
    (x : ℕ) (xs : List (ℕ × List ℕ)) (hi : ℕ)
    → Spans 0 (extents xs) hi
    → StartsBy x xs
    → within x (extents xs) ≡ false
    → find_region_from x none xs ≡ none
unfolding find_region_from
find_region_missing_first x [] hi h le outside = refl
find_region_missing_first x ((p, s) ∷ rest) hi (a, b, h) le outside = elim (Bool-cases (leb x p)) [
  | inl ge ↦ ground arith
  | inr gt ↦ rw gt (find_region_missing_after x p s rest hi h le outside)
]

-- In ordered regions, at a position in no region that the first one does not lie behind,
-- FindRegionContaining finds none.
pub find_region_containing_missing :
    (x : ℕ) (hint : Option ℕ) (b : SparseBuffer)
    → Spans 0 (extents b.regions) b.size
    → StartsBy x b.regions
    → within x (extents b.regions) ≡ false
    → find_region_containing x hint b ≡ none
unfolding find_region_containing
find_region_containing_missing x hint b h le outside =
    elim (Option-cases (from_hint x hint b.regions)) [
      | inl e ↦
          rw (e, find_region_containing) (find_region_missing_first x b.regions b.size h le outside)
      | inr (k, e) ↦
          let (n, held, low, up) = from_hint-Holds x hint b.regions b.size k h e in
          let (end, all) = size_at-within k n 0 (extents b.regions) b.size h held in
          let inside = all x low up in ground arith
    ]
