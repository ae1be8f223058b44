-- ===== src/TrackLink/Order.antt =====
-- The queue under any interleaving of the audio server's thread and the mixer's.
use motown.Base.{
  some_injective, ℕ, ◌≡◌, refl, ap, sym, subst, ◌∙◌, Bool, true, false, Option, none, some, List,
  [], ◌∷◌, ◌++◌,
}
use mathlib.Core.List.{append_assoc, append-nil}
use motown.TrackLink.{
  TrackLink, new_link, push_to_pending_queue, swap_out, release_next, front,
  lock_pending_queue_front, unlock_pending_queue_front,
}
use motown.TrackLink.Steps.{
  taken, HoldsFront, Apart, HoldsFront-push, Apart-nil, Apart-empty, Apart-split, HoldsFront-front,
  swap_out-some, release_next-some, lock_pending_queue_front-some, unlocked, unlock_held,
}

-- The link, with the packets that were pushed so far and those that have left, each in order.
pub record System : Type 0 where
  pub link : TrackLink
  pub pushed : List ℕ
  pub returned : List ℕ

-- One section under the locks. A push, and the start of a flush, are made by the server's thread, which
-- does not make them while it releases the packets of a flush.
pub data Step (s : System) : System → Type 0 where
  pushes :
      (packet : ℕ)
      → s.link.releasing ≡ []
      → Step s (record s {
        link = push_to_pending_queue packet s.link;
        pushed = s.pushed ++ (packet ∷ []);
      })
  flushes :
      {l : TrackLink}
      → s.link.releasing ≡ []
      → swap_out s.link ≡ some l
      → Step s (record s { link = l })
  releases :
      {packet : ℕ} {l : TrackLink}
      → release_next s.link ≡ some (packet, l)
      → Step s (record s { link = l; returned = s.returned ++ (packet ∷ []) })
  locks :
      {was_flushed : Bool} {packet : Option ℕ} {l : TrackLink}
      → lock_pending_queue_front s.link ≡ some (was_flushed, packet, l)
      → Step s (record s { link = l })
  unlocks :
      {packet : Option ℕ} {l : TrackLink} (release_packet : Bool)
      → s.link.locked ≡ some packet
      → unlock_pending_queue_front release_packet s.link ≡ some l
      → Step s (record s { link = l; returned = s.returned ++ taken release_packet packet })

pub data Reach : System → Type 0 where
  created : Reach (record { link = new_link; pushed = []; returned = [] })
  next : {s t : System} → Reach s → Step s t → Reach t

pub record IsInOrder (s : System) : Type 0 where
  pub held : HoldsFront s.link.locked s.link.pending_queue
  pub apart : Apart s.link.releasing s.link.pending_queue
  pub order : s.pushed ≡ s.returned ++ (s.link.releasing ++ s.link.pending_queue)

-- The state after a step is the one that its operation gives.
module _ (s : System) (v : IsInOrder s) where
  pushed-IsInOrder :
      (packet : ℕ)
      → s.link.releasing ≡ []
      → IsInOrder (record s {
        link = push_to_pending_queue packet s.link;
        pushed = s.pushed ++ (packet ∷ []);
      })
  unfolding push_to_pending_queue
  pushed-IsInOrder packet idle = record {
    held = HoldsFront-push s.link.locked s.link.pending_queue packet v.held;
    apart = rw idle tt;
    order = rw (v.order, idle) (append_assoc s.returned s.link.pending_queue (packet ∷ []));
  }

  flushed-IsInOrder :
      s.link.releasing ≡ []
      → s.link.locked ≡ none
      → IsInOrder (record s {
        link = record s.link {
          pending_queue = [];
          releasing = s.link.pending_queue;
          flushed = true;
        };
      })
  flushed-IsInOrder idle free = record {
    held = rw free tt;
    apart = Apart-nil s.link.pending_queue;
    order =
        v.order
        ∙ ap (λ q. s.returned ++ (q ++ s.link.pending_queue)) idle
        ∙ ap (λ q. s.returned ++ q) (sym (append-nil s.link.pending_queue));
  }

  released-IsInOrder :
      (packet : ℕ) (rest : List ℕ)
      → s.link.releasing ≡ packet ∷ rest
      → IsInOrder (record s {
        link = record s.link { releasing = rest };
        returned = s.returned ++ (packet ∷ []);
      })
  released-IsInOrder packet rest more =
      let empty : s.link.pending_queue ≡ [] =
        subst (λ r. Apart r s.link.pending_queue) more v.apart in
      record {
        held = v.held;
        apart = Apart-empty rest s.link.pending_queue empty;
        order =
            v.order
            ∙ ap (λ q. s.returned ++ (q ++ s.link.pending_queue)) more
            ∙ sym (append_assoc s.returned (packet ∷ []) (rest ++ s.link.pending_queue));
      }

  locked-IsInOrder : IsInOrder (record s {
    link = record s.link { flushed = false; locked = some (front s.link.pending_queue) };
  })
  locked-IsInOrder = record {
    held = HoldsFront-front s.link.pending_queue;
    apart = v.apart;
    order = v.order;
  }

  unlocked-IsInOrder :
      (out rest : List ℕ)
      → s.link.pending_queue ≡ out ++ rest
      → IsInOrder (record s { link = unlocked s.link rest; returned = s.returned ++ out })
  unlocked-IsInOrder out rest split = record {
    held = tt;
    apart = (Apart-split s.link.releasing s.link.pending_queue out rest v.apart split).0;
    order =
        v.order
        ∙ ap (λ q. s.returned ++ q)
            (Apart-split s.link.releasing s.link.pending_queue out rest v.apart split).1
        ∙ sym (append_assoc s.returned out (s.link.releasing ++ rest));
  }

Step-IsInOrder : {s t : System} → Step s t → IsInOrder s → IsInOrder t
Step-IsInOrder {s} (pushes packet idle) v = pushed-IsInOrder s v packet idle
Step-IsInOrder {s} (flushes {l} idle done) v =
    let (free, same) = swap_out-some s.link l done in
    subst (λ m. IsInOrder (record s { link = m })) same (flushed-IsInOrder s v idle free)
Step-IsInOrder {s} (releases {packet} {l} done) v =
    let (rest, more, same) = release_next-some s.link packet l done in
    subst (λ m. IsInOrder (record s { link = m; returned = s.returned ++ (packet ∷ []) })) same
      (released-IsInOrder s v packet rest more)
Step-IsInOrder {s} (locks {was_flushed} {packet} {l} done) v =
    let (free, same) = lock_pending_queue_front-some s.link (was_flushed, packet, l) done in
    subst (λ m. IsInOrder (record s { link = m }))
      (ap (λ (r : Bool × Option ℕ × TrackLink). r.2) same) (locked-IsInOrder s v)
Step-IsInOrder {s} (unlocks {packet} {l} release_packet held done) v =
    let (rest, opened, split) =
      unlock_held release_packet s.link packet held
        (subst (λ o. HoldsFront o s.link.pending_queue) held v.held) in
    let same : unlocked s.link rest ≡ l = some_injective (sym opened ∙ done) in
    subst
      (λ m. IsInOrder (record s { link = m; returned = s.returned ++ taken release_packet packet }))
      same (unlocked-IsInOrder s v (taken release_packet packet) rest split)

-- Under any interleaving of the server's thread, which pushes packets and flushes the queue, and
-- the mixer's, which locks and unlocks its front: the packets that were pushed are, in order,
-- those that have left, those that a running flush has yet to release, and those in the queue; so
-- they leave in the order in which they were pushed, each once. While the mixer holds a packet,
-- that is the front of the queue; and while a flush has packets to release, the queue is empty.
pub Reach-IsInOrder : {s : System} → Reach s → IsInOrder s
unfolding new_link
Reach-IsInOrder created = record { held = tt; apart = tt; order = refl }
Reach-IsInOrder (next r step) = Step-IsInOrder step (Reach-IsInOrder r)

-- In every state that is reached, where the mixer holds the lock, its unlocking succeeds, so none
-- of its checks fails: it gives up the lock, and takes the packet that it was given off the front
-- of the queue where it releases it, and nothing else.
pub unlock_succeeds :
    (release_packet : Bool) {s : System} (packet : Option ℕ)
    → Reach s
    → s.link.locked ≡ some packet
    → (l : TrackLink) × (unlock_pending_queue_front release_packet s.link ≡ some l)
      × (l.locked ≡ none)
      × (s.link.pending_queue ≡ taken release_packet packet ++ l.pending_queue)
unlock_succeeds release_packet {s} packet r held =
    let v = Reach-IsInOrder r in
    let (rest, opened, split) =
      unlock_held release_packet s.link packet held
        (subst (λ o. HoldsFront o s.link.pending_queue) held v.held) in
    (unlocked s.link rest, opened, refl, split)
