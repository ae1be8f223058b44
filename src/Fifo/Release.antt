-- ===== src/Fifo/Release.antt =====
-- Release behind the active region.
use motown.Base.{
  ℕ, ◌+◌, ◌≤◌, ◌<◌, ◌≡◌, refl, sym, ap, subst, ◌∙◌, inl, inr, Bool, true, false, ◌&&◌, not, none,
  some, List, [], ◌∷◌, ◌++◌, arith, ◌==◌, Bool-cases,
}
use motown.Fifo.{Region, join_next, join_list, coalesce, release_after}
use motown.Fifo.Layout.{is_free, Tiles}
use motown.Fifo.Entries.{
  entries, holds, without, head_allocated, head_skipped, without_head, without_tail,
}

-- What a release does to the region `previous` and the regions behind it, up to `stop`.
pub record Released (previous : Region) (remaining : List (ℕ × ℕ)) (stop : ℕ)
    (r : Region × List Region) : Type 0 where
  pub offset : r.0.offset ≡ previous.offset
  pub allocated : r.0.allocated ≡ previous.allocated
  pub size : previous.size ≤ r.0.size
  pub kept : previous.allocated ≡ true → r.0.size ≡ previous.size
  pub tiles : Tiles (r.0.offset + r.0.size) (is_free r.0) r.1 stop
  pub remain : entries r.1 ≡ remaining

pub Tiles-at :
    (free : Bool) (rs : List Region) (stop start start' : ℕ)
    → start ≡ start'
    → Tiles start free rs stop
    → Tiles start' free rs stop
Tiles-at free rs stop start start' e t = subst (λ x. Tiles x free rs stop) e t

-- A free region absorbs the next one.
pub join_list-Released :
    (r : Region) (rest : List Region) (stop : ℕ)
    → r.allocated ≡ false
    → Tiles (r.offset + r.size) false rest stop
    → Released r (entries rest) stop (join_list r rest)
unfolding join_list join_next
join_list-Released r [] stop free t = record {
  offset = refl;
  allocated = refl;
  size = omega arith;
  kept = λ a. refl;
  tiles = t;
  remain = refl;
}
join_list-Released r (next ∷ rest) stop free (o, s, n, t) = elim (Bool-cases (not next.allocated)) [
  | inl e ↦ rw e (record {
    offset = refl;
    allocated = ground arith;
    size = omega arith;
    kept = λ a. ground arith;
    tiles =
        Tiles-at (is_free next) rest stop (r.offset + r.size + next.size)
          (r.offset + (next.size + r.size)) (omega arith) t;
    remain = ground arith;
  })
  | inr e ↦ rw e (record {
    offset = refl;
    allocated = refl;
    size = omega arith;
    kept = λ a. refl;
    tiles = (o, s, ground arith, t);
    remain = refl;
  })
]

coalesce-Released :
    (previous r : Region) (rest : List Region) (stop : ℕ)
    → r.allocated ≡ true
    → r.offset ≡ previous.offset + previous.size
    → 0 < r.size
    → Tiles (previous.offset + previous.size + r.size) false rest stop
    → Released previous (entries rest) stop (coalesce previous r rest)
unfolding coalesce
coalesce-Released previous r rest stop alloc o s t = elim (Bool-cases (not previous.allocated)) [
  | inl e ↦
      let j =
        join_list-Released (record previous { size = previous.size + r.size }) rest stop
          (ground arith)
          (Tiles-at false rest stop (previous.offset + previous.size + r.size)
            (previous.offset + (previous.size + r.size)) (omega arith) t) in
      rw e (record {
        offset = j.offset;
        allocated = j.allocated;
        size = omega (arith, j.size);
        kept = λ a. ground arith;
        tiles = j.tiles;
        remain = j.remain;
      })
  | inr e ↦
      let freed : Region = record r { allocated = false } in
      let j : Released freed (entries rest) stop (join_list freed rest) =
        join_list-Released freed rest stop refl (
          Tiles-at false rest stop (previous.offset + previous.size + r.size) (r.offset + r.size)
            (omega arith) t) in
      rw e (record {
        offset = refl;
        allocated = refl;
        size = omega arith;
        kept = λ a. refl;
        tiles = (
          j.offset ∙ o,
          omega (arith, j.size),
          ap (λ x. x && is_free (join_list freed rest).0) e,
          Tiles-at (is_free (join_list freed rest).0) (join_list freed rest).1 stop _ _
              (ap (λ x. x + (join_list freed rest).0.size) (j.offset ∙ o)) j.tiles,
        );
        remain = rw j.allocated j.remain;
      })
]

entries-cons :
    (q r : Region) (rest : List Region)
    → q.offset ≡ r.offset
    → q.allocated ≡ r.allocated
    → (r.allocated ≡ true → q.size ≡ r.size)
    → entries (q ∷ rest) ≡ entries (r ∷ []) ++ entries rest
entries-cons q r rest o a k = elim (Bool-cases r.allocated) [
  | inl e ↦ rw (a, e, o, k e)
  | inr e ↦ rw (a, e)
]

-- Releases an allocated region behind `previous`.
pub release_after-Released :
    (offset : ℕ) (previous : Region) (rest : List Region) (stop : ℕ)
    → Tiles (previous.offset + previous.size) (is_free previous) rest stop
    → holds offset (entries rest) ≡ true
    → (r : Region × List Region) × (release_after offset previous rest ≡ some r)
      × Released previous (without offset (entries rest)) stop r
unfolding release_after
release_after-Released offset previous [] stop t h = cc
release_after-Released offset previous (r ∷ rest) stop (o, s, n, t) h =
    elim (Bool-cases (r.offset == offset)) [
      | inl e ↦
          let t' = Tiles-at (is_free r) rest stop _ (r.offset + r.size) (omega arith) t in
          let alloc = head_allocated offset r rest (is_free r) stop t' s e h in
          (
            coalesce previous r rest,
            rw e,
            rw (without_head offset r rest alloc e) (
                coalesce-Released previous r rest stop alloc o s (
                  subst (λ f. Tiles (previous.offset + previous.size + r.size) f rest stop)
                    (ap not alloc) t)),
          )
      | inr e ↦
          let t' = Tiles-at (is_free r) rest stop _ (r.offset + r.size) (omega arith) t in
          let (q, found, v) =
            release_after-Released offset r rest stop t' (head_skipped offset r rest e h) in
          (
            (previous, q.0 ∷ q.1),
            rw (e, found),
            record {
              offset = refl;
              allocated = refl;
              size = omega arith;
              kept = λ a. refl;
              tiles = (
                v.offset ∙ o,
                omega (arith, v.size),
                ap (λ x. is_free previous && not x) v.allocated ∙ n,
                Tiles-at (is_free q.0) q.1 stop _ _ (ap (λ x. x + q.0.size) (v.offset ∙ o)) v.tiles,
              );
              remain =
                  entries-cons q.0 r q.1 v.offset v.allocated v.kept
                  ∙ ap (λ x. entries (r ∷ []) ++ x) v.remain
                  ∙ sym (without_tail offset r rest e);
            },
          )
    ]

-- Below its regions the loop finds nothing.
pub release_after-misses :
    (offset start : ℕ) (free : Bool) (previous : Region) (rest : List Region) (stop : ℕ)
    → Tiles start free rest stop
    → offset < start
    → release_after offset previous rest ≡ none
unfolding release_after
release_after-misses offset start free previous [] stop t lt = refl
release_after-misses offset start free previous (r ∷ rest) stop (o, s, n, t) lt =
    ground
      (arith, release_after-misses offset (start + r.size) (is_free r) r rest stop t (omega arith))
