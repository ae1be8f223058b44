-- ===== src/SparseBuffer/Spans.antt =====
-- The holes and the regions of a sparse buffer as spans of positions, in order.
use motown.Base.{
  ℕ, ◌+◌, ◌≤◌, ◌<◌, ◌≡◌, refl, Bool, true, false, Bool-cases, inl, inr, ◌&&◌, ◌||◌, Option, none,
  some, List, [], ◌∷◌, arith, ltb, leb, ◌==◌, if◌then◌else◌, length,
}

-- Non-empty spans from `lo` to `hi`, none overlapping another.
abbrev pub Spans : ℕ → List (ℕ × ℕ) → ℕ → Type 0
Spans lo [] hi = lo ≤ hi
Spans lo ((p, s) ∷ rest) hi = (lo ≤ p) × (0 < s) × Spans (p + s) rest hi

-- Whether a position lies in a span.
abbrev pub within : ℕ → List (ℕ × ℕ) → Bool
within x [] = false
within x ((p, s) ∷ rest) = (leb p x && ltb x (p + s)) || within x rest

-- The size of the span that starts at a position.
abbrev pub size_at : ℕ → List (ℕ × ℕ) → Option ℕ
size_at k [] = none
size_at k ((p, s) ∷ rest) = if p == k then some s else size_at k rest

-- The spans of the regions.
abbrev pub extents : List (ℕ × List ℕ) → List (ℕ × ℕ)
extents [] = []
extents ((p, bytes) ∷ rest) = (p, length bytes) ∷ extents rest

pub Spans-le : (lo : ℕ) (xs : List (ℕ × ℕ)) (hi : ℕ) → Spans lo xs hi → lo ≤ hi
Spans-le lo [] hi h = h
Spans-le lo ((p, s) ∷ rest) hi (a, b, h) = omega (arith, Spans-le (p + s) rest hi h)

pub Spans-weaken :
    (lo lo' : ℕ) (xs : List (ℕ × ℕ)) (hi : ℕ) → lo ≤ lo' → Spans lo' xs hi → Spans lo xs hi
Spans-weaken lo lo' [] hi le h = omega arith
Spans-weaken lo lo' ((p, s) ∷ rest) hi le (a, b, h) = (omega arith, b, h)

-- Nothing lies below the start of the spans.
pub within_below :
    (x lo : ℕ) (xs : List (ℕ × ℕ)) (hi : ℕ) → Spans lo xs hi → x < lo → within x xs ≡ false
within_below x lo [] hi h lt = refl
within_below x lo ((p, s) ∷ rest) hi (a, b, h) lt =
    let below = within_below x (p + s) rest hi h (omega arith) in ground arith

pub within_above :
    (x lo : ℕ) (xs : List (ℕ × ℕ)) (hi : ℕ) → Spans lo xs hi → hi ≤ x → within x xs ≡ false
within_above x lo [] hi h ge = refl
within_above x lo ((p, s) ∷ rest) hi (a, b, h) ge =
    let above = within_above x (p + s) rest hi h ge in
    let le = Spans-le (p + s) rest hi h in ground arith

-- No span starts below the start of the spans.
pub size_at_below :
    (k lo : ℕ) (xs : List (ℕ × ℕ)) (hi : ℕ) → Spans lo xs hi → k < lo → size_at k xs ≡ none
size_at_below k lo [] hi h lt = refl
size_at_below k lo ((p, s) ∷ rest) hi (a, b, h) lt =
    let below = size_at_below k (p + s) rest hi h (omega arith) in ground arith

-- A span lies below the end of the spans, and all its positions are within them.
pub size_at-within :
    (k s lo : ℕ) (xs : List (ℕ × ℕ)) (hi : ℕ)
    → Spans lo xs hi
    → size_at k xs ≡ some s
    → (k + s ≤ hi) × ((x : ℕ) → k ≤ x → x < k + s → within x xs ≡ true)
size_at-within k s lo [] hi h held = ground arith
size_at-within k s lo ((p, m) ∷ rest) hi (a, b, h) held =
    let end = Spans-le (p + m) rest hi h in
    elim (Bool-cases (p == k)) [
      | inl e ↦ (ground arith, λ x u v. ground arith)
      | inr ne ↦
          let (below, all) = size_at-within k s (p + m) rest hi h (rw ne at held) in
          (below, λ x u v. let inside = all x u v in ground arith)
    ]

pub size_at_start :
    (k s lo : ℕ) (xs : List (ℕ × ℕ)) (hi : ℕ) → Spans lo xs hi → size_at k xs ≡ some s → lo ≤ k
size_at_start k s lo xs hi h found = elim (Bool-cases (ltb k lo)) [
  | inl lt ↦ let missing = size_at_below k lo xs hi h (ground arith) in ground arith
  | inr ge ↦ ground arith
]

pub size_at_positive :
    (k s lo : ℕ) (xs : List (ℕ × ℕ)) (hi : ℕ) → Spans lo xs hi → size_at k xs ≡ some s → 0 < s
size_at_positive k s lo [] hi h held = ground arith
size_at_positive k s lo ((p, m) ∷ rest) hi (a, b, h) held = elim (Bool-cases (p == k)) [
  | inl e ↦ ground arith
  | inr ne ↦ size_at_positive k s (p + m) rest hi h (rw ne at held)
]
