-- ===== src/SparseBuffer/Emplace.antt =====
-- What a new region does to the regions.
use motown.Base.{
  ℕ, ◌+◌, ◌-◌, ◌≤◌, ◌<◌, ◌≡◌, refl, false, ◌&&◌, ◌||◌, Bool-cases, inl, inr, Option, none, List, [],
  ◌∷◌, arith, ltb, leb, ◌==◌, if◌then◌else◌, length, get_elem?,
}
use motown.SparseBuffer.{emplace}
use motown.SparseBuffer.Spans.{Spans, within, extents}

-- The byte that the regions hold at a position.
abbrev pub byte_at : ℕ → List (ℕ × List ℕ) → Option ℕ
byte_at x [] = none
byte_at x ((p, s) ∷ rest) =
    if leb p x && ltb x (p + length s) then get_elem? s (x - p) else byte_at x rest

-- The regions with the bytes of a new one from `k` on.
pub record Placed (k : ℕ) (bytes : List ℕ) (lo : ℕ) (regions : List (ℕ × List ℕ)) (hi : ℕ)
    (after : List (ℕ × List ℕ)) : Type 0 where
  pub ordered : Spans lo (extents after) hi
  pub covers :
      (x : ℕ)
      → within x (extents after)
        ≡ ((leb k x && ltb x (k + length bytes)) || within x (extents regions))
  pub reads :
      (x : ℕ)
      → byte_at x after ≡ (
          if leb k x && ltb x (k + length bytes)
          then get_elem? bytes (x - k)
          else byte_at x regions)

-- No region holds a position from `k` on that the new one is to hold.
abbrev pub Free : ℕ → ℕ → List (ℕ × List ℕ) → Type 0
Free k n regions = (x : ℕ) → k ≤ x → x < k + n → within x (extents regions) ≡ false

pub emplace-Placed :
    (k : ℕ) (bytes : List ℕ) (lo : ℕ) (regions : List (ℕ × List ℕ)) (hi : ℕ)
    → Spans lo (extents regions) hi
    → lo ≤ k
    → k + length bytes ≤ hi
    → 0 < length bytes
    → Free k (length bytes) regions
    → Placed k bytes lo regions hi (emplace k bytes regions)
unfolding emplace
emplace-Placed k bytes lo [] hi h low high pos free = record {
  ordered = (low, pos, high);
  covers = λ x. refl;
  reads = λ x. refl;
}
emplace-Placed k bytes lo ((p, s) ∷ rest) hi (a, b, h) low high pos free =
    let at_k = free k (omega arith) (omega arith) in
    elim (Bool-cases (ltb p k)) [
      | inl lt ↦
          let behind : p + length s ≤ k = ground arith in
          let tail : Free k (length bytes) rest = λ x u v. let f = free x u v in ground arith in
          let r = emplace-Placed k bytes (p + length s) rest hi h behind high pos tail in
          rw lt (record {
            ordered = (a, b, r.ordered);
            covers = λ x. let c = r.covers x in ground arith;
            reads = λ x. let c = r.reads x in ground arith;
          })
      | inr ge ↦ elim (Bool-cases (p == k)) [
        | inl e ↦ ground arith
        | inr ne ↦
            let in_front : k + length bytes ≤ p = elim (Bool-cases (ltb p (k + length bytes))) [
              | inl lt ↦ let at_p = free p (ground arith) (ground arith) in ground arith
              | inr up ↦ ground arith
            ] in
            rw (ge, ne)
              (record {
                ordered = (low, pos, (in_front, b, h));
                covers = λ x. refl;
                reads = λ x. refl;
              })
      ]
    ]
