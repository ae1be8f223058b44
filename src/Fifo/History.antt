-- ===== src/Fifo/History.antt =====
-- The allocator over a history of calls.
use motown.Base.{
  ℕ, ◌+◌, ◌≤◌, ◌<◌, ◌≡◌, refl, subst, ◌∙◌, ◌++◌, Bool, true, false, Option, none, some, List, [],
  ◌∷◌, arith, inl, inr, Bool-cases,
}
use motown.Fifo.{Region, Fifo, regions, reset, allocate_region, release_region}
use motown.Fifo.Layout.{is_free, Tiles, IsValid}
use motown.Fifo.Advance.{entries-regions}
use motown.Fifo.Entries.{entries, holds}
use motown.Fifo.Allocate.{Allocated, allocate_region-Allocated}
use motown.Fifo.ReleaseRegion.{release_region-removes}

-- One call of a client: an allocation of a positive size, which may fail, or the release of a region
-- that is allocated.
pub data Step : Fifo → Fifo → Type 0 where
  allocates : (f : Fifo) (size : ℕ) → 0 < size → Step f (allocate_region size f).1
  releases :
      {g : Fifo} (f : Fifo) (offset : ℕ)
      → holds offset (entries (regions f)) ≡ true
      → release_region offset f ≡ some g
      → Step f g

-- The states that a client can bring a new allocator to.
pub data Reach (size : ℕ) : Fifo → Type 0 where
  created : Reach size (reset size)
  next : {f g : Fifo} → Reach size f → Step f g → Reach size g

pub reset-IsValid : (size : ℕ) → IsValid (reset size)
unfolding reset
reset-IsValid size = record { free = refl; front = refl; front_used = refl; back = omega arith }

Allocated-IsValid :
    (size : ℕ) (f : Fifo) (r : Option ℕ × Fifo)
    → IsValid f
    → Allocated size f r
    → IsValid r.1 × (r.1.total ≡ f.total)
Allocated-IsValid size f (none, g) v (same, _) = rw same (v, refl)
Allocated-IsValid size f (some offset, g) v (valid, total, _, _) = (valid, total)

Step-IsValid : {f g : Fifo} → Step f g → IsValid f → IsValid g × (g.total ≡ f.total)
Step-IsValid (allocates f size pos) v =
    Allocated-IsValid size f (allocate_region size f) v (allocate_region-Allocated size f v pos)
Step-IsValid (releases {g} f offset held done) v =
    let (h, same, valid, total, _) = release_region-removes f offset v held in
    let e : h ≡ g = cc in subst (λ t. IsValid t × (t.total ≡ f.total)) e (valid, total)

-- Regions in address order between two bounds, none overlapping another.
abbrev pub Ordered : ℕ → List (ℕ × ℕ) → ℕ → Type 0
Ordered from [] to = from ≤ to
Ordered from ((offset, size) ∷ rest) to = (from ≤ offset) × Ordered (offset + size) rest to

Ordered-weaken : (a b : ℕ) (es : List (ℕ × ℕ)) (to : ℕ) → a ≤ b → Ordered b es to → Ordered a es to
Ordered-weaken a b [] to le h = omega arith
Ordered-weaken a b ((offset, size) ∷ rest) to le h = (omega arith, h.1)

Tiles-Ordered :
    (start : ℕ) (free : Bool) (rs : List Region) (stop : ℕ)
    → Tiles start free rs stop
    → Ordered start (entries rs) stop
Tiles-Ordered start free [] stop t = omega arith
Tiles-Ordered start free (r ∷ rest) stop (o, s, n, t) =
    let h = Tiles-Ordered (start + r.size) (is_free r) rest stop t in
    elim (Bool-cases r.allocated) [
      | inl e ↦ rw e (omega arith, subst (λ x. Ordered x (entries rest) stop) (omega arith) h)
      | inr e ↦ rw e (Ordered-weaken start (start + r.size) (entries rest) stop (omega arith) h)
    ]

Ordered-append :
    (a m b : ℕ) (xs ys : List (ℕ × ℕ)) → Ordered a xs m → Ordered m ys b → Ordered a (xs ++ ys) b
Ordered-append a m b [] ys h k = Ordered-weaken a m ys b h k
Ordered-append a m b ((offset, size) ∷ xs) ys h k =
    (h.0, Ordered-append (offset + size) m b xs ys h.1 k)

IsValid-Ordered : (f : Fifo) → IsValid f → Ordered 0 (entries (regions f)) f.total
IsValid-Ordered f v = rw (entries-regions f.before f.active f.after v.free) (
    Ordered-append 0 f.active.offset f.total (entries f.before) (entries f.after)
      (Tiles-Ordered 0 false f.before f.active.offset v.front)
      (Ordered-weaken f.active.offset (f.active.offset + f.active.size) (entries f.after) f.total
        (omega arith)
        (Tiles-Ordered (f.active.offset + f.active.size) true f.after f.total v.back)))

Reach-IsValid : (size : ℕ) {f : Fifo} → Reach size f → IsValid f × (f.total ≡ size)
unfolding reset
Reach-IsValid size created = (reset-IsValid size, refl)
Reach-IsValid size (next r s) =
    let (v, total) = Reach-IsValid size r in
    let (valid, same) = Step-IsValid s v in (valid, same ∙ total)

-- In every state of the allocator that a client reaches from Reset by allocations of positive
-- sizes and releases of allocated regions, the layout is valid for the size given to Reset, and
-- the allocated regions lie in the buffer without overlap.
pub Reach-Ordered :
    (size : ℕ) {f : Fifo}
    → Reach size f
    → IsValid f × (f.total ≡ size) × Ordered 0 (entries (regions f)) size
Reach-Ordered size {f} r =
    let (v, total) = Reach-IsValid size r in
    (v, total, subst (Ordered 0 (entries (regions f))) total (IsValid-Ordered f v))
