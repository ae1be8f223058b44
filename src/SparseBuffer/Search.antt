-- ===== src/SparseBuffer/Search.antt =====
-- FindHoleContaining.
use motown.Base.{
  ℕ, ◌+◌, ◌≤◌, ◌<◌, ◌≡◌, refl, inl, inr, true, Bool-cases, none, some, List, [], ◌∷◌, arith, ltb,
  leb, ◌==◌, ne→==,
}
use motown.SparseBuffer.{SparseBuffer, find_hole_from, find_hole_containing}
use motown.SparseBuffer.Spans.{Spans, within, size_at, within_below}

-- The span from `k` on, at most `x`, that holds the position `x`.
abbrev pub Holds : ℕ → List (ℕ × ℕ) → ℕ → Type 0
Holds x xs k = (s : ℕ) × (size_at k xs ≡ some s) × (k ≤ x) × (x < k + s)

find_hole_after :
    (x q m : ℕ) (xs : List (ℕ × ℕ)) (hi : ℕ)
    → 0 < m
    → Spans (q + m) xs hi
    → q ≤ x
    → within x ((q, m) ∷ xs) ≡ true
    → (k : ℕ) × (find_hole_from x (some (q, m)) xs ≡ some k) × (q ≤ k) × Holds x ((q, m) ∷ xs) k
unfolding find_hole_from
find_hole_after x q m [] hi pos h le inside =
    (q, ground arith, omega arith, (m, ground arith, ground arith, ground arith))
find_hole_after x q m ((p, s) ∷ rest) hi pos (a, b, h) le inside = elim (Bool-cases (ltb p x)) [
  | inl lt ↦
      let (k, found, ge, (n, held, low, up)) =
        find_hole_after x p s rest hi b h (ground arith) (ground arith) in
      (k, rw lt found, omega arith, (n, rw (ne→== q k (omega arith)) held, low, up))
  | inr nlt ↦ elim (Bool-cases (p == x)) [
    | inl e ↦ (p, ground arith, ground arith, (s, ground arith, ground arith, ground arith))
    | inr ne ↦
        let below = within_below x (p + s) rest hi h (ground arith) in
        (q, ground arith, omega arith, (m, ground arith, ground arith, ground arith))
  ]
]

find_hole_first :
    (x : ℕ) (xs : List (ℕ × ℕ)) (hi : ℕ)
    → Spans 0 xs hi
    → within x xs ≡ true
    → (k : ℕ) × (find_hole_from x none xs ≡ some k) × Holds x xs k
unfolding find_hole_from
find_hole_first x [] hi h inside = ground arith
find_hole_first x ((p, s) ∷ rest) hi (a, b, h) inside = elim (Bool-cases (leb x p)) [
  | inl le ↦
      let below = within_below x (p + s) rest hi h (ground arith) in
      (p, rw le refl, (s, ground arith, ground arith, ground arith))
  | inr gt ↦
      let (k, found, ge, held) = find_hole_after x p s rest hi b h (ground arith) inside in
      (k, rw gt found, held)
]

-- In ordered holes, FindHoleContaining finds the hole that a position lies in.
pub find_hole_containing-Holds :
    (x : ℕ) (b : SparseBuffer)
    → Spans 0 b.holes b.size
    → within x b.holes ≡ true
    → (k : ℕ) × (find_hole_containing x b ≡ some k) × Holds x b.holes k
unfolding find_hole_containing
find_hole_containing-Holds x b h inside = find_hole_first x b.holes b.size h inside
