-- ===== src/Fifo/ReleaseRegion.antt =====
-- ReleaseRegion as a whole.
use motown.Base.{
  ℕ, ◌+◌, ◌<◌, ◌≡◌, refl, sym, ap, subst, ◌∙◌, inl, inr, true, false, not, none, some, ◌++◌, arith,
  ltb, Bool-cases,
}
use motown.Fifo.{Fifo, regions, release_after, release_region}
use motown.Fifo.Release.{Tiles-at, release_after-Released}
use motown.Fifo.Release.{release_after-misses}
use motown.Fifo.Advance.{entries-regions}
use motown.Fifo.Layout.{Tiles, IsValid}
use motown.Fifo.Entries.{
  entries, holds, without, holds_below, holds_above, holds-append, without-append_left,
  without-append_right,
}
use motown.Fifo.ReleaseFront.{release_before-Unlinked}

below_active :
    (f : Fifo) (offset : ℕ)
    → IsValid f
    → holds offset (entries f.before) ≡ true
    → offset < f.active.offset + f.active.size
below_active f offset v held = elim (Bool-cases (ltb offset f.active.offset)) [
  | inl lt ↦ ground arith
  | inr ge ↦
      let none = holds_above offset 0 false f.before f.active.offset v.front (ground arith) in cc
]

-- On a valid state, ReleaseRegion of an allocated region succeeds: the layout stays valid, the
-- total stays, and the client's view loses that region and no other.
pub release_region-removes :
    (f : Fifo) (offset : ℕ)
    → IsValid f
    → holds offset (entries (regions f)) ≡ true
    → (g : Fifo) × (release_region offset f ≡ some g)
      × IsValid g
      × (g.total ≡ f.total)
      × (entries (regions g) ≡ without offset (entries (regions f)))
unfolding release_region
release_region-removes f offset v h = elim (Bool-cases (holds offset (entries f.after))) [
  | inl behind ↦
      let (q, found, r) =
        release_after-Released offset f.active f.after f.total
          (subst (λ x. Tiles (f.active.offset + f.active.size) x f.after f.total)
            (sym (ap not v.free)) v.back)
          behind in
      let g = record f { active = q.0; after = q.1 } in
      (
        g,
        rw (found, release_region),
        record {
          free = r.allocated ∙ v.free;
          front = subst (Tiles 0 false f.before) (sym r.offset) v.front;
          front_used = v.front_used;
          back =
              subst (λ x. Tiles (q.0.offset + q.0.size) x q.1 f.total)
                (ap not (r.allocated ∙ v.free)) r.tiles;
        },
        refl,
        entries-regions f.before q.0 q.1 (r.allocated ∙ v.free)
            ∙ ap (λ x. entries f.before ++ x) r.remain
            ∙ sym (
                ap (without offset) view
                ∙ without-append_right offset (entries f.before) (entries f.after)
                    (before_misses behind)),
      )
  | inr absent ↦
      let held = before_holds absent in
      let (q, found, u) =
        release_before-Unlinked offset f.active v.free f.before v.front v.front_used held in
      let miss : release_after offset f.active f.after ≡ none =
        release_after-misses offset (f.active.offset + f.active.size) true f.active f.after f.total
          v.back (below held) in
      let g = record f { before = q.0; active = q.1 } in
      (
        g,
        rw (miss, found, release_region),
        record {
          free = u.active_free;
          front = u.tiles;
          front_used = u.used;
          back = Tiles-at true f.after f.total _ _ (sym u.end_same) v.back;
        },
        refl,
        entries-regions q.0 q.1 f.after u.active_free
            ∙ ap (λ x. x ++ entries f.after) u.remain
            ∙ sym (
                ap (without offset) view
                ∙ without-append_left offset (entries f.before) (entries f.after) held),
      )
]
  where
    view : entries (regions f) ≡ entries f.before ++ entries f.after
    view = entries-regions f.before f.active f.after v.free

    before_holds : holds offset (entries f.after) ≡ false → holds offset (entries f.before) ≡ true
    before_holds absent =
        let split =
          ap (holds offset) view ∙ holds-append offset (entries f.before) (entries f.after) in
        ground arith

    below : holds offset (entries f.before) ≡ true → offset < f.active.offset + f.active.size
    below held = below_active f offset v held

    before_misses : holds offset (entries f.after) ≡ true → holds offset (entries f.before) ≡ false
    before_misses behind = elim (Bool-cases (holds offset (entries f.before))) [
      | inr absent ↦ absent
      | inl held ↦
          let none =
            holds_below offset (f.active.offset + f.active.size) true f.after f.total v.back
              (below_active f offset v held) in
          cc
    ]
