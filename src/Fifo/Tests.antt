-- ===== src/Fifo/Tests.antt =====
-- Runs of the allocator.
use motown.Base.{◌≡◌, refl, true, false, some, arith, [], ◌∷◌}
use motown.Fifo.{
  Fifo, regions, reset, find_fit, retire, advance_active, next_active, take_active, allocate_region,
  join_next, join_list, coalesce, release_after, release_found, release_before, release_region,
}
use motown.Fifo.Layout.{IsValid}
use motown.Fifo.Entries.{entries, holds, without}
use motown.Fifo.Advance.{Advance, advance_active-Advance}
use motown.Fifo.Allocate.{Allocated, allocate_region-Allocated}
use motown.Fifo.ReleaseRegion.{release_region-removes}
use motown.Fifo.History.{Step, Reach, Reach-Ordered, Ordered}

-- A buffer of 100 with two regions allocated, of which the first is then released.
abbrev one : Fifo
one = (allocate_region 60 (reset 100)).1

abbrev two : Fifo
two = (allocate_region 30 one).1

two-Reach : Reach 100 two
two-Reach =
    Reach.next (Reach.next Reach.created (Step.allocates (reset 100) 60 (omega arith)))
      (Step.allocates one 30 (omega arith))

abbrev hole : Fifo
hole = record {
  total = 100;
  before =
      record { allocated = false; size = 60; offset = 0 }
      ∷ (record { allocated = true; size = 30; offset = 60 } ∷ []);
  active = record { allocated = false; size = 10; offset = 90 };
  after = [];
}

holds_first : holds 0 (entries (regions two)) ≡ true
unfolding allocate_region reset take_active find_fit retire advance_active next_active
holds_first = refl

makes_hole : release_region 0 two ≡ some hole
unfolding allocate_region reset take_active find_fit retire advance_active next_active
    release_region release_before release_after release_found coalesce join_list join_next
makes_hole = refl

hole-Reach : Reach 100 hole
hole-Reach = Reach.next two-Reach (Step.releases two 0 holds_first makes_hole)

Reach-Ordered_example : IsValid hole × (hole.total ≡ 100) × Ordered 0 (entries (regions hole)) 100
Reach-Ordered_example = Reach-Ordered 100 hole-Reach

hole-IsValid : IsValid hole
hole-IsValid = (Reach-Ordered 100 hole-Reach).0

-- 50 does not fit in the active region: the search goes round to the front.
allocate_region-Allocated_example : Allocated 50 hole (allocate_region 50 hole)
allocate_region-Allocated_example = allocate_region-Allocated 50 hole hole-IsValid (omega arith)

advance_active-Advance_example : Advance 50 hole (advance_active 50 hole)
advance_active-Advance_example = advance_active-Advance 50 hole hole-IsValid

-- The release of the last region joins the two free ones around it.
release_region-removes_example :
    (g : Fifo) × (release_region 60 hole ≡ some g)
    × IsValid g
    × (g.total ≡ hole.total)
    × (entries (regions g) ≡ without 60 (entries (regions hole)))
release_region-removes_example = release_region-removes hole 60 hole-IsValid refl
