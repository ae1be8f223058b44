-- ===== src/ReaderCache/Found.antt =====
-- The bytes of the region that ServeRequest copies from.
use motown.Base.{
  ℕ, zero, suc, ◌+◌, ◌-◌, ◌≤◌, ◌<◌, ◌≡◌, subst, Bool-cases, inl, inr, some, List, [], ◌∷◌, ◌++◌,
  arith, ◌==◌, length, get_elem?, take, drop,
}
use motown.SparseBuffer.Spans.{Spans, extents, size_at, size_at_start}
use motown.SparseBuffer.Emplace.{byte_at}
use motown.ReaderCache.{region_at}

-- The bytes of a region are the bytes that the regions hold from its start on.
pub region_at-reads :
    (k n lo : ℕ) (xs : List (ℕ × List ℕ)) (hi : ℕ)
    → Spans lo (extents xs) hi
    → size_at k (extents xs) ≡ some n
    → (length (region_at k xs) ≡ n)
      × ((x : ℕ) → k ≤ x → x < k + n → byte_at x xs ≡ get_elem? (region_at k xs) (x - k))
region_at-reads k n lo [] hi h held = ground arith
region_at-reads k n lo ((p, s) ∷ rest) hi (a, b, h) held = elim (Bool-cases (p == k)) [
  | inl e ↦ let same : p ≡ k = ground arith in (ground arith, λ x low up. ground arith)
  | inr ne ↦
      let held' : size_at k (extents rest) ≡ some n = rw ne at held in
      let start = size_at_start k n (p + length s) (extents rest) hi h held' in
      let (size, reads) = region_at-reads k n (p + length s) rest hi h held' in
      (rw ne size, λ x low up. let r = reads x low up in ground arith)
]

-- The bytes are those that the regions hold from a position on.
abbrev pub Reads : ℕ → List ℕ → List (ℕ × List ℕ) → Type 0
Reads x [] regions = Unit
Reads x (byte ∷ bytes) regions = (byte_at x regions ≡ some byte) × Reads (x + 1) bytes regions

pub Reads-append :
    (x y : ℕ) (bs cs : List ℕ) (regions : List (ℕ × List ℕ))
    → y ≡ x + length bs
    → Reads x bs regions
    → Reads y cs regions
    → Reads x (bs ++ cs) regions
Reads-append x y [] cs regions e r t =
    let same : y ≡ x = omega arith in subst (λ z. Reads z cs regions) same t
Reads-append x y (b ∷ bs) cs regions e (h, r) t =
    (h, Reads-append (x + 1) y bs cs regions (omega arith) r t)

Reads-take :
    (x c : ℕ) (s : List ℕ) (regions : List (ℕ × List ℕ))
    → c ≤ length s
    → ((i : ℕ) → i < c → byte_at (x + i) regions ≡ get_elem? s i)
    → Reads x (take c s) regions
Reads-take x zero s regions le h = tt
Reads-take x (suc c) [] regions le h = absurd (omega arith)
Reads-take x (suc c) (b ∷ s) regions le h =
    let first : x + 0 ≡ x = omega arith in
    (
      subst (λ z. byte_at z regions ≡ some b) first (h 0 (omega arith)),
      Reads-take (x + 1) c s regions (omega arith) (λ i lt.
          let next : x + suc i ≡ x + 1 + i = omega arith in
          subst (λ z. byte_at z regions ≡ get_elem? s i) next (h (suc i) (omega arith))),
    )

-- A piece of a region's bytes.
pub Reads-piece :
    (x c d : ℕ) (s : List ℕ) (regions : List (ℕ × List ℕ))
    → d + c ≤ length s
    → ((i : ℕ) → i < c → byte_at (x + i) regions ≡ get_elem? s (d + i))
    → Reads x (take c (drop d s)) regions
Reads-piece x c zero s regions le h = Reads-take x c s regions (omega arith) (λ i lt.
    let same : 0 + i ≡ i = omega arith in
    subst (λ z. byte_at (x + i) regions ≡ get_elem? s z) same (h i lt))
Reads-piece x zero (suc d) [] regions le h = tt
Reads-piece x (suc c) (suc d) [] regions le h = absurd (omega arith)
Reads-piece x c (suc d) (b ∷ s) regions le h = Reads-piece x c d s regions (omega arith) (λ i lt.
    let same : suc d + i ≡ suc (d + i) = omega arith in
    subst (λ z. byte_at (x + i) regions ≡ get_elem? (b ∷ s) z) same (h i lt))
