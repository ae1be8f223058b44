-- ===== src/SparseBuffer/Create.antt =====
-- FindOrCreateHole.
use motown.Base.{
  ℕ, ◌+◌, ◌-◌, ◌≤◌, ◌<◌, ◌≡◌, refl, ap, ◌∙◌, subst, true, ◌&&◌, ◌||◌, not, Bool-cases, inl, inr,
  Option, none, some, List, [], ◌∷◌, arith, ltb, leb, ◌==◌, ne→==,
}
use motown.SparseBuffer.{
  SparseBuffer, seek, split_at, split_found, create_from, find_or_create_hole,
}
use motown.SparseBuffer.Spans.{Spans, within, size_at, size_at_start, size_at_positive}
use motown.SparseBuffer.Search.{find_hole_containing-Holds}
use motown.SparseBuffer.Laws.{IsValid}

-- The holes after a split at `x`: they hold the same positions, and one of them starts at `x`.
pub record Split (x lo : ℕ) (xs : List (ℕ × ℕ)) (hi : ℕ) (ys : List (ℕ × ℕ)) : Type 0 where
  pub ordered : Spans lo ys hi
  pub same : (y : ℕ) → within y ys ≡ within y xs
  pub starts : (s : ℕ) × (size_at x ys ≡ some s)

split_at-Split :
    (q x s lo : ℕ) (xs : List (ℕ × ℕ)) (hi : ℕ)
    → Spans lo xs hi
    → size_at q xs ≡ some s
    → q < x
    → x < q + s
    → Split x lo xs hi (split_at q x xs)
unfolding split_at
split_at-Split q x s lo [] hi h held low high = ground arith
split_at-Split q x s lo ((p, m) ∷ rest) hi (a, b, h) held low high = elim (Bool-cases (p == q)) [
  | inl e ↦
      let size : m ≡ s = ground arith in
      let start : p ≡ q = ground arith in
      rw e (record {
        ordered = (
          a,
          omega arith,
          (omega arith, omega arith, subst (λ t. Spans t rest hi) (omega arith) h),
        );
        same = λ y. ground arith;
        starts = (m - (x - p), ground arith);
      })
  | inr ne ↦
      let r = split_at-Split q x s (p + m) rest hi h (rw ne at held) low high in
      let (n, started) = r.starts in
      let past : p + m ≤ q = size_at_start q s (p + m) rest hi h (rw ne at held) in
      rw ne (record {
        ordered = (a, b, r.ordered);
        same = λ y. let e = r.same y in ground arith;
        starts = (n, rw (ne→== p x (omega arith)) started);
      })
]

-- A buffer that FindOrCreateHole leaves: valid, of the same size, with the same positions in holes,
-- the same regions, and a hole that starts at the position.
pub record Created (x : ℕ) (b : SparseBuffer) (r : Option SparseBuffer) : Type 0 where
  pub after : SparseBuffer
  pub returns : r ≡ some after
  pub valid : IsValid after
  pub size_same : after.size ≡ b.size
  pub regions_same : after.regions ≡ b.regions
  pub within_same : (y : ℕ) → within y after.holes ≡ within y b.holes
  pub starts : (s : ℕ) × (size_at x after.holes ≡ some s)

split_found-Created :
    (x q s : ℕ) (b : SparseBuffer) (rest : List (ℕ × ℕ))
    → IsValid b
    → size_at q b.holes ≡ some s
    → q ≤ x
    → x < q + s
    → Created x b (split_found x b ((q, s) ∷ rest))
unfolding split_found
split_found-Created x q s b rest v held low high = elim (Bool-cases (q == x)) [
  | inl e ↦
      let start : q ≡ x = ground arith in
      rw e (record {
        after = b;
        returns = refl;
        valid = v;
        size_same = refl;
        regions_same = refl;
        within_same = λ y. refl;
        starts = (s, subst (λ t. size_at t b.holes ≡ some s) start held);
      })
  | inr ne ↦
      let less : q < x = ground arith in
      let r = split_at-Split q x s 0 b.holes b.size v.holes_ordered held less high in
      let in_front : ltb q x ≡ true = ground arith in
      let room : ltb (x - q) s ≡ true = ground arith in
      rw (ne, in_front, room)
        (record {
          after = record b { holes = split_at q x b.holes };
          returns = refl;
          valid = record {
            holes_ordered = r.ordered;
            regions_ordered = v.regions_ordered;
            partition = λ y lt. r.same y ∙ v.partition y lt;
          };
          size_same = refl;
          regions_same = refl;
          within_same = r.same;
          starts = r.starts;
        })
]

seek-size_at :
    (k s : ℕ) (xs : List (ℕ × ℕ))
    → size_at k xs ≡ some s
    → (rest : List (ℕ × ℕ)) × (seek k xs ≡ (k, s) ∷ rest)
unfolding seek
seek-size_at k s [] held = ground arith
seek-size_at k s ((p, m) ∷ rest) held = elim (Bool-cases (p == k)) [
  | inl e ↦
      let start : p ≡ k = ground arith in
      let size : m ≡ s = ground arith in (rest, rw e (ap (λ t. t ∷ rest) (λ i. (start i, size i))))
  | inr ne ↦ let (more, found) = seek-size_at k s rest (rw ne at held) in (more, rw ne found)
]

create_from-Created :
    (x q s : ℕ) (b : SparseBuffer) (rest : List (ℕ × ℕ))
    → IsValid b
    → within x b.holes ≡ true
    → size_at q b.holes ≡ some s
    → Created x b (create_from x b ((q, s) ∷ rest))
unfolding create_from
create_from-Created x q s b rest v inside held =
    let positive = size_at_positive q s 0 b.holes b.size v.holes_ordered held in
    elim (Bool-cases (not (q == x) && (ltb x q || leb (q + s) x))) [
      | inl out ↦
          let (k, found, (n, there, low, high)) =
            find_hole_containing-Holds x b v.holes_ordered inside in
          let (more, sought) = seek-size_at k n b.holes there in
          rw (out, found, sought) (split_found-Created x k n b more v there low high)
      | inr here ↦ rw here (split_found-Created x q s b rest v held (ground arith) (ground arith))
    ]

-- On a valid buffer, at a position that lies in a hole and with a hint that is null or a hole,
-- FindOrCreateHole succeeds: the buffer stays valid, with the same size, regions and positions in
-- holes, and has a hole that starts at the position.
pub find_or_create_hole-Created :
    (x : ℕ) (hint : Option ℕ) (b : SparseBuffer)
    → IsValid b
    → within x b.holes ≡ true
    → ((h : ℕ) → hint ≡ some h → (s : ℕ) × (size_at h b.holes ≡ some s))
    → Created x b (find_or_create_hole x hint b)
unfolding find_or_create_hole
find_or_create_hole-Created x (some h) b v inside known =
    let (s, held) = known h refl in
    let (rest, sought) = seek-size_at h s b.holes held in
    rw sought (create_from-Created x h s b rest v inside held)
find_or_create_hole-Created x none b v inside known = first-Created b.holes refl
  where
    first-Created : (xs : List (ℕ × ℕ)) → b.holes ≡ xs → Created x b (create_from x b xs)
    first-Created [] e = let empty : within x [] ≡ true = rw e at inside in ground arith
    first-Created ((q, s) ∷ rest) e =
        create_from-Created x q s b rest v inside (rw e (ground arith))
