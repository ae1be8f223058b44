-- ===== src/SparseBuffer/History.antt =====
-- The sparse buffer over a history of calls, against an abstract buffer.
use motown.Base.{
  ℕ, ◌+◌, ◌-◌, ◌≤◌, ◌<◌, ◌≡◌, refl, sym, ap, ◌∙◌, subst, true, ◌&&◌, Option, none, some, List, ltb,
  leb, if◌then◌else◌, length, get_elem?,
}
use motown.SparseBuffer.{SparseBuffer, initialize, fill, find_or_create_hole}
use motown.SparseBuffer.Spans.{within, size_at}
use motown.SparseBuffer.Emplace.{byte_at}
use motown.SparseBuffer.Laws.{IsValid, initialize-IsValid, Fills, fill-Fills}
use motown.SparseBuffer.Create.{Created, find_or_create_hole-Created}

-- The abstract buffer after bytes are written from `k` on.
abbrev pub write : ℕ → List ℕ → (ℕ → Option ℕ) → ℕ → Option ℕ
write k bytes content x =
    if leb k x && ltb x (k + length bytes) then get_elem? bytes (x - k) else content x

-- The buffers that a client brings about from Initialize, with the abstract content: it creates holes
-- at positions that lie in one, and fills holes with bytes that fit.
pub data Reach (size : ℕ) : (ℕ → Option ℕ) → SparseBuffer → Type 0 where
  initialized : 0 < size → Reach size (λ x. none) (initialize size)
  creates :
      {content : ℕ → Option ℕ} {b g : SparseBuffer} (x : ℕ) (hint : Option ℕ)
      → Reach size content b
      → within x b.holes ≡ true
      → ((h : ℕ) → hint ≡ some h → (s : ℕ) × (size_at h b.holes ≡ some s))
      → find_or_create_hole x hint b ≡ some g
      → Reach size content g
  fills :
      {content : ℕ → Option ℕ} {b g : SparseBuffer} {next : Option ℕ} (k s : ℕ) (bytes : List ℕ)
      → Reach size content b
      → size_at k b.holes ≡ some s
      → 0 < length bytes
      → length bytes ≤ s
      → fill k bytes b ≡ some (g, next)
      → Reach size (write k bytes content) g

-- The representation of an abstract content.
pub record Represents (size : ℕ) (content : ℕ → Option ℕ) (b : SparseBuffer) : Type 0 where
  pub valid : IsValid b
  pub size_same : b.size ≡ size
  pub reads : (x : ℕ) → byte_at x b.regions ≡ content x

Created-Represents :
    (size x : ℕ) (content : ℕ → Option ℕ) (b g : SparseBuffer) (r : Option SparseBuffer)
    → Represents size content b
    → Created x b r
    → r ≡ some g
    → Represents size content g
Created-Represents size x content b g r v c e =
    let returns = c.returns in
    let same : c.after ≡ g = cc in
    subst (Represents size content) same (record {
      valid = c.valid;
      size_same = c.size_same ∙ v.size_same;
      reads = λ y. subst (λ t. byte_at y t ≡ content y) (sym c.regions_same) (v.reads y);
    })

same_buffer :
    (a b : SparseBuffer) (m n : Option ℕ) (r : Option (SparseBuffer × Option ℕ))
    → r ≡ some (a, m)
    → r ≡ some (b, n)
    → a ≡ b
same_buffer a b m n r e f = cc

filled-Represents :
    (size k : ℕ) (bytes : List ℕ) (content : ℕ → Option ℕ) (b g : SparseBuffer) (next : Option ℕ)
    → Represents size content b
    → Fills k bytes b
    → fill k bytes b ≡ some (g, next)
    → Represents size (write k bytes content) g
filled-Represents size k bytes content b g next v f e =
    let same : f.after ≡ g = same_buffer f.after g f.next next (fill k bytes b) f.returns e in
    subst (Represents size (write k bytes content)) same (record {
      valid = f.valid;
      size_same = f.size_same ∙ v.size_same;
      reads = λ y.
          f.reads y
          ∙ ap (λ t. if leb k y && ltb y (k + length bytes) then get_elem? bytes (y - k) else t)
              (v.reads y);
    })

-- A sparse buffer that a client brings about from Initialize, with a size that is not zero, by
-- creating holes at positions that lie in one and by filling holes with bytes that fit, is valid,
-- has that size, and holds at each position the byte that was written there last, or none.
pub Reach-Represents :
    (size : ℕ) {content : ℕ → Option ℕ} {b : SparseBuffer}
    → Reach size content b
    → Represents size content b
unfolding initialize
Reach-Represents size (Reach.initialized pos) = record {
  valid = initialize-IsValid size pos;
  size_same = refl;
  reads = λ x. refl;
}
Reach-Represents size (Reach.creates {content} {b} {g} x hint r inside known e) =
    let v = Reach-Represents size r in
    Created-Represents size x content b g (find_or_create_hole x hint b) v
      (find_or_create_hole-Created x hint b v.valid inside known) e
Reach-Represents size (Reach.fills {content} {b} {g} {next} k s bytes r held pos le e) =
    let v = Reach-Represents size r in
    filled-Represents size k bytes content b g next v (fill-Fills k s bytes b v.valid held pos le) e
