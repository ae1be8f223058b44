-- ===== src/SparseBuffer/Laws.antt =====
-- The invariant of a sparse buffer, and what Initialize and Fill do to it.
use motown.Base.{
  true, ℕ, ◌+◌, ◌-◌, ◌≤◌, ◌<◌, ◌≡◌, refl, ◌∙◌, false, ◌&&◌, not, Option, none, some, List, [], ◌∷◌,
  ◌++◌, arith, ltb, leb, if◌then◌else◌, length, get_elem?,
}
use motown.SparseBuffer.{SparseBuffer, initialize, fill, first_key, emplace}
use motown.SparseBuffer.Spans.{Spans, within, extents, size_at, Spans-le, size_at-within}
use motown.SparseBuffer.Fill.{fill_at-Filled}
use motown.SparseBuffer.Emplace.{byte_at, Free, emplace-Placed}

-- The holes and the regions lie in order in the buffer, and each position of the buffer is in a hole
-- or in a region, and not in both.
pub record IsValid (b : SparseBuffer) : Type 0 where
  pub holes_ordered : Spans 0 b.holes b.size
  pub regions_ordered : Spans 0 (extents b.regions) b.size
  pub partition : (x : ℕ) → x < b.size → within x b.holes ≡ not (within x (extents b.regions))

-- Initialize, with a size that is not zero, gives a valid buffer.
pub initialize-IsValid : (size : ℕ) → 0 < size → IsValid (initialize size)
unfolding initialize
initialize-IsValid size pos = record {
  holes_ordered = (omega arith, pos, omega arith);
  regions_ordered = omega arith;
  partition = λ x lt. ground arith;
}

-- The first hole from a position on, or else the first of all.
abbrev pub first_from : ℕ → List (ℕ × ℕ) → Option ℕ
first_from e [] = none
first_from e ((p, s) ∷ rest) = if leb e p then some p else first_from e rest

abbrev pub wrapped : ℕ → List (ℕ × ℕ) → Option ℕ
wrapped e xs = elim (first_from e xs) as (λ o. Option ℕ) [ some p ↦ some p | none ↦ first_key xs ]

first_from-append :
    (lo k e : ℕ) (front left : List (ℕ × ℕ))
    → Spans lo front k
    → k ≤ e
    → first_from e (front ++ left) ≡ first_from e left
first_from-append lo k e [] left h le = refl
first_from-append lo k e ((p, s) ∷ rest) left (a, b, h) le =
    let tail = first_from-append (p + s) k e rest left h le in
    let end = Spans-le (p + s) rest k h in rw (not_leb e p (omega arith)) tail
  where
    not_leb : (m n : ℕ) → n < m → leb m n ≡ false
    not_leb m n lt = ground arith

first_from_start :
    (e : ℕ) (xs : List (ℕ × ℕ)) (hi : ℕ) → Spans e xs hi → first_from e xs ≡ first_key xs
unfolding first_key
first_from_start e [] hi h = refl
first_from_start e ((p, s) ∷ rest) hi (a, b, h) = ground arith

-- A hole of the buffer lies in it, and no region holds any of its positions.
hole-Free :
    (k s : ℕ) (b : SparseBuffer) (n : ℕ)
    → IsValid b
    → size_at k b.holes ≡ some s
    → n ≤ s
    → (k + s ≤ b.size) × Free k n b.regions
hole-Free k s b n v held le =
    let (below, all) = size_at-within k s 0 b.holes b.size v.holes_ordered held in
    (
      below,
      λ x u w.
          let inside = all x u (omega arith) in
          let split = v.partition x (omega arith) in ground arith,
    )

-- What a call of Fill returns: a valid buffer of the same size that holds the bytes from `k` on, and
-- what it held elsewhere, with the first hole that follows them in the wraparound sense.
pub record Fills (k : ℕ) (bytes : List ℕ) (b : SparseBuffer) : Type 0 where
  pub after : SparseBuffer
  pub next : Option ℕ
  pub returns : fill k bytes b ≡ some (after, next)
  pub valid : IsValid after
  pub size_same : after.size ≡ b.size
  pub reads :
      (x : ℕ)
      → byte_at x after.regions ≡ (
          if leb k x && ltb x (k + length bytes)
          then get_elem? bytes (x - k)
          else byte_at x b.regions)
  pub follows : next ≡ wrapped (k + length bytes) after.holes

-- On a valid buffer, Fill of a hole with at least one byte and no more than the hole's size
-- succeeds: the buffer stays valid, holds the bytes and what it held elsewhere, and the hole
-- returned is the first that follows them in the wraparound sense.
pub fill-Fills :
    (k s : ℕ) (bytes : List ℕ) (b : SparseBuffer)
    → IsValid b
    → size_at k b.holes ≡ some s
    → 0 < length bytes
    → length bytes ≤ s
    → Fills k bytes b
unfolding fill
fill-Fills k s bytes b v held pos le =
    let n = length bytes in
    let (below, free) = hole-Free k s b n v held le in
    let f = fill_at-Filled k n s 0 b.holes b.size v.holes_ordered held pos le in
    let placed =
      emplace-Placed k bytes 0 b.regions b.size v.regions_ordered (omega arith) (omega arith) pos
        free in
    let behind =
      first_from-append 0 k (k + n) f.front f.left f.front_end (omega arith)
      ∙ first_from_start (k + n) f.left b.size f.left_start in
    let sizes : (ltb 0 b.size && ltb 0 n) ≡ true = ground arith in
    record {
      after = record b { holes = f.front ++ f.left; regions = emplace k bytes b.regions };
      next = elim (first_key f.left) as (λ o. Option ℕ) [
        | some p ↦ some p
        | none ↦ first_key (f.front ++ f.left)
      ];
      returns = rw (sizes, f.returns, fill) refl;
      valid = record {
        holes_ordered = f.ordered;
        regions_ordered = placed.ordered;
        partition = λ x lt.
            let l = f.leaves x in
            let c = placed.covers x in let w = v.partition x lt in ground arith;
      };
      size_same = refl;
      reads = placed.reads;
      follows = rw (behind, wrapped) refl;
    }
