-- ===== src/TrackLink.antt =====
-- The packet queue of services/media/audio/audio_track_to_output_link.{h,cc}.
pub mod Steps
pub mod Order
mod Tests
use motown.Base.{ℕ, Bool, true, false, Option, none, some, List, [], ◌∷◌, ◌++◌, ◌==◌, if◌then◌else◌}

-- AudioTrackToOutputLink, with its two threads. A packet is a number. `locked` is what the mixer holds
-- while it has flush_lock_: the packet that it was given, if any. `releasing` is the queue that a
-- running flush has taken out.
pub record TrackLink : Type 0 where
  pub pending_queue : List ℕ
  pub flushed : Bool
  pub locked : Option (Option ℕ)
  pub releasing : List ℕ

-- The constructor. flushed_ is true at first.
pub new_link : TrackLink
new_link = record { pending_queue = []; flushed = true; locked = none; releasing = [] }

-- PushToPendingQueue.
pub push_to_pending_queue : ℕ → TrackLink → TrackLink
push_to_pending_queue packet l = record l { pending_queue = l.pending_queue ++ (packet ∷ []) }

-- FlushPendingQueue up to the end of its locks; `none` where flush_lock_ is held, and it waits.
pub swap_out : TrackLink → Option TrackLink
swap_out l = elim l.locked as (λ o. Option TrackLink) [
  | some packet ↦ none
  | none ↦ some (record l { pending_queue = []; releasing = l.pending_queue; flushed = true })
]

-- One round of ReleaseQueue: the packet that gets the result FLUSHED, if any is left.
pub release_next : TrackLink → Option (ℕ × TrackLink)
release_next l = elim l.releasing as (λ q. Option (ℕ × TrackLink)) [
  | [] ↦ none
  | packet ∷ rest ↦ some (packet, record l { releasing = rest })
]

pub front : List ℕ → Option ℕ
front [] = none
front (packet ∷ rest) = some packet

-- LockPendingQueueFront: was_flushed, the packet and the state; `none` where flush_lock_ is held,
-- which is the failed DCHECK.
pub lock_pending_queue_front : TrackLink → Option (Bool × Option ℕ × TrackLink)
lock_pending_queue_front l = elim l.locked as (λ o. Option (Bool × Option ℕ × TrackLink)) [
  | some packet ↦ none
  | none ↦ some (
    l.flushed,
    front l.pending_queue,
    record l { flushed = false; locked = some (front l.pending_queue) },
  )
]

-- UnlockPendingQueueFront of a packet, at the queue: `none` is the failed DCHECK that it is the front
-- one.
pub pop_locked : ℕ → Bool → List ℕ → Option (List ℕ)
pop_locked packet release_packet [] = none
pop_locked packet release_packet (p ∷ rest) =
    if p == packet then some (if release_packet then rest else p ∷ rest) else none

-- UnlockPendingQueueFront; `none` is a failed DCHECK.
pub unlock_pending_queue_front : Bool → TrackLink → Option TrackLink
unlock_pending_queue_front release_packet l = elim l.locked as (λ o. Option TrackLink) [
  | none ↦ none
  | some none ↦ some (record l { locked = none })
  | some (some packet) ↦
      elim (pop_locked packet release_packet l.pending_queue) as (λ o. Option TrackLink) [
        | none ↦ none
        | some rest ↦ some (record l { locked = none; pending_queue = rest })
      ]
]
