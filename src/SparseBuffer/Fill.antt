-- ===== src/SparseBuffer/Fill.antt =====
-- What Fill does to the holes.
use motown.Base.{
  ℕ, ◌+◌, ◌-◌, ◌≤◌, ◌<◌, ◌≡◌, refl, true, ◌&&◌, not, Bool-cases, inl, inr, Option, some, List, [],
  ◌∷◌, ◌++◌, arith, subst, ltb, leb, ◌==◌, ==_iff, ne→==, if◌then◌else◌,
}
use motown.SparseBuffer.{fill_holes, fill_at}
use motown.SparseBuffer.Spans.{Spans, within, size_at, within_below, size_at_start, Spans-weaken}

fill_holes-zero : (p : ℕ) (xs : List (ℕ × ℕ)) → fill_holes p 0 xs ≡ some xs
unfolding fill_holes
fill_holes-zero p [] = refl
fill_holes-zero p ((q, s) ∷ rest) = refl

-- The first hole is shortened from its start, or removed.
fill_holes-first :
    (p n s : ℕ) (rest : List (ℕ × ℕ))
    → 0 < n
    → n ≤ s
    → fill_holes p n ((p, s) ∷ rest) ≡ some (if ltb n s then (p + n, s - n) ∷ rest else rest)
unfolding fill_holes
fill_holes-first p n s rest pos le = elim (Bool-cases (ltb n s)) [
  | inl lt ↦ ground arith
  | inr ge ↦
      let nothing : n - s ≡ 0 = omega arith in
      let left = fill_holes-zero (p + s) rest in
      rw (ne→== n 0 (omega arith), (==_iff p p).1 refl, ge, nothing) left
]

-- The holes without the positions from `k` to `k + n`.
pub record Filled (k n lo : ℕ) (xs : List (ℕ × ℕ)) (hi : ℕ)
    (r : Option (List (ℕ × ℕ) × List (ℕ × ℕ))) : Type 0 where
  pub front : List (ℕ × ℕ)
  pub left : List (ℕ × ℕ)
  pub returns : r ≡ some (front, left)
  pub ordered : Spans lo (front ++ left) hi
  pub front_end : Spans lo front k
  pub left_start : Spans (k + n) left hi
  pub leaves : (x : ℕ) → within x (front ++ left) ≡ (within x xs && not (leb k x && ltb x (k + n)))

-- What is left of the filled hole and the holes behind it.
leaves_first :
    (p n m x hi : ℕ) (rest : List (ℕ × ℕ))
    → Spans (p + m) rest hi
    → 0 < n
    → n ≤ m
    → within x (if ltb n m then (p + n, m - n) ∷ rest else rest)
      ≡ (within x ((p, m) ∷ rest) && not (leb p x && ltb x (p + n)))
leaves_first p n m x hi rest h pos le = elim (Bool-cases (ltb x (p + m))) [
  | inl lt ↦ let below = within_below x (p + m) rest hi h (ground arith) in ground arith
  | inr ge ↦ ground arith
]

ordered_first :
    (p n m hi : ℕ) (rest : List (ℕ × ℕ))
    → Spans (p + m) rest hi
    → 0 < n
    → n ≤ m
    → Spans (p + n) (if ltb n m then (p + n, m - n) ∷ rest else rest) hi
ordered_first p n m hi rest h pos le = elim (Bool-cases (ltb n m)) [
  | inl lt ↦
      rw lt
        (omega arith, ground arith, Spans-weaken (p + n + (m - n)) (p + m) rest hi (ground arith) h)
  | inr ge ↦ rw ge (Spans-weaken (p + n) (p + m) rest hi (omega arith) h)
]

first-Filled :
    (p n m lo : ℕ) (rest : List (ℕ × ℕ)) (hi : ℕ)
    → lo ≤ p
    → Spans (p + m) rest hi
    → 0 < n
    → n ≤ m
    → Filled p n lo ((p, m) ∷ rest) hi (fill_at p n ((p, m) ∷ rest))
unfolding fill_at
first-Filled p n m lo rest hi a h pos le = record {
  front = [];
  left = if ltb n m then (p + n, m - n) ∷ rest else rest;
  returns =
      (let room : leb n m ≡ true = ground arith in
        rw ((==_iff p p).1 refl, room, fill_holes-first p n m rest pos le) refl);
  ordered =
      Spans-weaken lo (p + n) (if ltb n m then (p + n, m - n) ∷ rest else rest) hi (omega arith)
        (ordered_first p n m hi rest h pos le);
  front_end = a;
  left_start = ordered_first p n m hi rest h pos le;
  leaves = λ x. leaves_first p n m x hi rest h pos le;
}

pub fill_at-Filled :
    (k n s lo : ℕ) (xs : List (ℕ × ℕ)) (hi : ℕ)
    → Spans lo xs hi
    → size_at k xs ≡ some s
    → 0 < n
    → n ≤ s
    → Filled k n lo xs hi (fill_at k n xs)
unfolding fill_at
fill_at-Filled k n s lo [] hi h at0 pos le = ground arith
fill_at-Filled k n s lo ((p, m) ∷ rest) hi (a, b, h) at0 pos le = elim (Bool-cases (p == k)) [
  | inl e ↦
      let start : p ≡ k = (==_iff p k).0 e in
      let size : m ≡ s = ground arith in
      subst (λ t. Filled t n lo ((p, m) ∷ rest) hi (fill_at t n ((p, m) ∷ rest))) start
        (first-Filled p n m lo rest hi a h pos (omega arith))
  | inr ne ↦
      let f = fill_at-Filled k n s (p + m) rest hi h (rw ne at at0) pos le in
      let start = size_at_start k s (p + m) rest hi h (rw ne at at0) in
      record {
        front = (p, m) ∷ f.front;
        left = f.left;
        returns = rw (ne, f.returns) refl;
        ordered = (a, b, f.ordered);
        front_end = (a, b, f.front_end);
        left_start = f.left_start;
        leaves = λ x. let l = f.leaves x in ground arith;
      }
]
