-- ===== src/TrackLink/Tests.antt =====
-- The packet queue at a concrete interleaving.
use motown.Base.{◌≡◌, refl, true, false, none, some, [], ◌∷◌, ◌++◌}
use motown.TrackLink.{
  TrackLink, new_link, push_to_pending_queue, swap_out, front, lock_pending_queue_front,
  unlock_pending_queue_front,
}
use motown.TrackLink.Steps.{taken}
use motown.TrackLink.Order.{
  System, Reach, created, next, pushes, locks, IsInOrder, Reach-IsInOrder, unlock_succeeds,
}

-- Two packets are pushed, the second while the mixer holds the first.
abbrev mixing : System
mixing = record {
  link = record {
    pending_queue = 7 ∷ 8 ∷ [];
    flushed = false;
    locked = some (some 7);
    releasing = [];
  };
  pushed = 7 ∷ 8 ∷ [];
  returned = [];
}

mixing-Reach : Reach mixing
unfolding new_link push_to_pending_queue lock_pending_queue_front front
mixing-Reach = next (next (next created (pushes 7 refl)) (locks refl)) (pushes 8 refl)

flush_waits : swap_out mixing.link ≡ none
unfolding swap_out
flush_waits = refl

Reach-IsInOrder_example : IsInOrder mixing
Reach-IsInOrder_example = Reach-IsInOrder mixing-Reach

unlock_succeeds_example :
    (l : TrackLink) × (unlock_pending_queue_front true mixing.link ≡ some l)
    × (l.locked ≡ none)
    × (mixing.link.pending_queue ≡ taken true (some 7) ++ l.pending_queue)
unlock_succeeds_example = unlock_succeeds true (some 7) mixing-Reach refl
