-- ===== src/Fifo/ReleaseFront.antt =====
-- Release in front of the active region.
use mathlib.Core.List.{append-nil}
use motown.Base.{
  ℕ, ◌+◌, ◌<◌, ◌≡◌, refl, sym, ap, subst, ◌∙◌, inl, inr, Bool, true, false, ◌&&◌, not, none, some,
  List, [], ◌∷◌, ◌++◌, arith, ◌==◌, Bool-cases,
}
use motown.Fifo.{Region, join_next, join_list, release_found, release_before}
use motown.Fifo.Release.{Released, Tiles-at, join_list-Released}
use motown.Fifo.Search.{used_in_front}
use motown.Fifo.Layout.{is_free, Tiles, last_free, last_free-append, Tiles-append}
use motown.Fifo.Entries.{
  entries, holds, without, entries-append, head_allocated, head_skipped, without_head, without_tail,
}

-- What a release in front of the active region does.
pub record Unlinked (start : ℕ) (free : Bool) (active : Region) (remaining : List (ℕ × ℕ))
    (r : List Region × Region) : Type 0 where
  pub tiles : Tiles start free r.0 r.1.offset
  pub used : last_free free r.0 ≡ false
  pub active_free : r.1.allocated ≡ false
  pub end_same : r.1.offset + r.1.size ≡ active.offset + active.size
  pub remain : entries r.0 ≡ remaining

entries-free :
    (r : Region) (rest : List Region) → r.allocated ≡ false → entries (r ∷ rest) ≡ entries rest
entries-free r rest free = rw free

join_next-last :
    (r next : Region) (rest : List Region)
    → last_free false (next ∷ rest) ≡ false
    → last_free (is_free (join_next r next rest).0) (join_next r next rest).1 ≡ false
unfolding join_next
join_next-last r next rest l = elim (Bool-cases (not next.allocated)) [
  | inl e ↦ rw e l
  | inr e ↦ rw e l
]

join_next-Released :
    (r next : Region) (rest : List Region) (stop : ℕ)
    → r.allocated ≡ false
    → Tiles (r.offset + r.size) false (next ∷ rest) stop
    → Released r (entries (next ∷ rest)) stop (join_next r next rest)
unfolding join_list
join_next-Released r next rest stop free t = join_list-Released r (next ∷ rest) stop free t

release_found-Unlinked :
    (start : ℕ) (free : Bool) (previous : List Region) (r : Region) (rest : List Region)
    (active : Region)
    → Tiles start free previous r.offset
    → last_free free previous ≡ false
    → r.allocated ≡ false
    → 0 < r.size
    → Tiles (r.offset + r.size) false rest active.offset
    → last_free false rest ≡ false
    → active.allocated ≡ false
    → Unlinked start free active
        (entries previous ++ entries rest)
        (release_found previous r rest active)
unfolding release_found
release_found-Unlinked start free previous r [] active p l f s t u a = rw a (record {
  tiles = p;
  used = l;
  active_free = refl;
  end_same = omega arith;
  remain = sym (append-nil (entries previous));
})
release_found-Unlinked start free previous r (next ∷ rest) active p l f s t u a =
    let j = join_next-Released r next rest active.offset f t in
    let q = join_next r next rest in
    record {
      tiles = Tiles-append start free previous r.offset (q.0 ∷ q.1) active.offset p (
        j.offset,
        omega (arith, j.size),
        ap (λ x. x && is_free q.0) l,
        Tiles-at (is_free q.0) q.1 active.offset _ _ (ap (λ x. x + q.0.size) j.offset) j.tiles,
      );
      used = last_free-append free previous (q.0 ∷ q.1) ∙ join_next-last r next rest u;
      active_free = a;
      end_same = refl;
      remain =
          entries-append previous (q.0 ∷ q.1)
          ∙ ap (λ x. entries previous ++ x) (entries-free q.0 q.1 (j.allocated ∙ f) ∙ j.remain);
    }

cons-Unlinked :
    (start : ℕ) (free : Bool) (p active : Region) (remaining : List (ℕ × ℕ))
    (r : List Region × Region)
    → p.offset ≡ start
    → 0 < p.size
    → (free && is_free p) ≡ false
    → Unlinked (start + p.size) (is_free p) active remaining r
    → Unlinked start free active (entries (p ∷ []) ++ remaining) (p ∷ r.0, r.1)
cons-Unlinked start free p active remaining r o s n u = record {
  tiles = (o, s, n, u.tiles);
  used = u.used;
  active_free = u.active_free;
  end_same = u.end_same;
  remain = entries-append (p ∷ []) r.0 ∙ ap (λ x. entries (p ∷ []) ++ x) u.remain;
}

module _ (offset : ℕ) (active : Region) (active_free : active.allocated ≡ false) where
  -- The loop, past its first region: `p` stands in front of the rest.
  release_behind-Unlinked :
      (start : ℕ) (free : Bool) (p : Region) (rest : List Region)
      → Tiles start free (p ∷ rest) active.offset
      → last_free free (p ∷ rest) ≡ false
      → holds offset (entries rest) ≡ true
      → (r : List Region × Region) × (release_before offset (some p) rest active ≡ some r)
        × Unlinked start free active (entries (p ∷ []) ++ without offset (entries rest)) r
  unfolding release_before
  release_behind-Unlinked start free p [] t l h = cc
  release_behind-Unlinked start free p (r ∷ rest) (po, ps, pn, (o, s, n, t)) l h =
      elim (Bool-cases (r.offset == offset)) [
        | inl e ↦
            let t' =
              Tiles-at (is_free r) rest active.offset _ (r.offset + r.size) (omega arith) t in
            let alloc = head_allocated offset r rest (is_free r) active.offset t' s e h in
            elim (Bool-cases (not p.allocated)) [
              | inl pf ↦ (
                release_found [] (record p { size = p.size + r.size }) rest active,
                rw (e, pf),
                subst
                    (λ m.
                      Unlinked start free active m
                        (release_found [] (record p { size = p.size + r.size }) rest active))
                    (sym (
                      ap (λ x. x ++ without offset (entries (r ∷ rest)))
                        (entries-free p [] (ground arith))
                      ∙ without_head offset r rest alloc e))
                    (release_found-Unlinked start free [] (record p { size = p.size + r.size }) rest
                      active (sym po) (used_in_front free p pn (ground arith)) (ground arith)
                      (omega arith)
                      (Tiles-at false rest active.offset _ (p.offset + (p.size + r.size))
                        (omega arith) (used_tiles alloc))
                      (used_last alloc) active_free),
              )
              | inr pa ↦ (
                release_found (p ∷ []) (record r { allocated = false }) rest active,
                rw (e, pa),
                subst
                    (λ m.
                      Unlinked start free active m
                        (release_found (p ∷ []) (record r { allocated = false }) rest active))
                    (ap (λ x. entries (p ∷ []) ++ x) (sym (without_head offset r rest alloc e)))
                    (release_found-Unlinked start free (p ∷ []) (record r { allocated = false })
                      rest active (po, ps, pn, sym o) pa refl s
                      (Tiles-at false rest active.offset _ (r.offset + r.size) (omega arith)
                        (used_tiles alloc))
                      (used_last alloc) active_free),
              )
            ]
        | inr e ↦
            let (q, found, u) =
              release_behind-Unlinked (start + p.size) (is_free p) r rest (o, s, n, t) l
                (head_skipped offset r rest e h) in
            (
              (p ∷ q.0, q.1),
              rw (e, found),
              rw (without_tail offset r rest e) (cons-Unlinked start free p active _ q po ps pn u),
            )
      ]
    where
      used_tiles : r.allocated ≡ true → Tiles (start + p.size + r.size) false rest active.offset
      used_tiles alloc =
          subst (λ x. Tiles (start + p.size + r.size) x rest active.offset) (ap not alloc) t

      used_last : r.allocated ≡ true → last_free false rest ≡ false
      used_last alloc = subst (λ x. last_free x rest ≡ false) (ap not alloc) l

  pub release_before-Unlinked :
      (rest : List Region)
      → Tiles 0 false rest active.offset
      → last_free false rest ≡ false
      → holds offset (entries rest) ≡ true
      → (r : List Region × Region) × (release_before offset none rest active ≡ some r)
        × Unlinked 0 false active (without offset (entries rest)) r
  unfolding release_before
  release_before-Unlinked [] t l h = cc
  release_before-Unlinked (r ∷ rest) (o, s, n, t) l h = elim (Bool-cases (r.offset == offset)) [
    | inl e ↦
        let t' = Tiles-at (is_free r) rest active.offset _ (r.offset + r.size) (omega arith) t in
        let alloc = head_allocated offset r rest (is_free r) active.offset t' s e h in
        (
          release_found [] (record r { allocated = false }) rest active,
          rw e,
          subst
              (λ m.
                Unlinked 0 false active m
                  (release_found [] (record r { allocated = false }) rest active))
              (sym (without_head offset r rest alloc e))
              (release_found-Unlinked 0 false [] (record r { allocated = false }) rest active
                (sym o) refl refl s
                (subst (λ x. Tiles (r.offset + r.size) x rest active.offset) (ap not alloc) t')
                (subst (λ x. last_free x rest ≡ false) (ap not alloc) l) active_free),
        )
    | inr e ↦
        let (q, found, u) =
          release_behind-Unlinked 0 false r rest (o, s, n, t) l (head_skipped offset r rest e h) in
        (q, rw (e, found), rw (without_tail offset r rest e) u)
  ]
