-- ===== src/TrackLink/Steps.antt =====
-- What each operation of the packet queue does, with the packet that the mixer holds at its front.
use motown.Base.{
  none-ne-some, some_injective, ℕ, ◌≡◌, refl, ap, sym, subst, ◌∙◌, Bool, true, false, Option, none,
  some, List, [], ◌∷◌, ◌++◌, arith, Option-cases, inl, inr, ◌⊎◌,
}
use motown.TrackLink.{
  TrackLink, swap_out, release_next, front, lock_pending_queue_front, pop_locked,
  unlock_pending_queue_front,
}

-- The packet that leaves the queue when the mixer unlocks it.
abbrev pub taken : Bool → Option ℕ → List ℕ
taken true (some packet) = packet ∷ []
taken true none = []
taken false o = []

-- The packet that the mixer holds is the front one.
abbrev pub HoldsFront : Option (Option ℕ) → List ℕ → Type 0
HoldsFront none q = Unit
HoldsFront (some none) q = Unit
HoldsFront (some (some packet)) q = front q ≡ some packet

-- A flush that is running leaves the queue empty behind it.
abbrev pub Apart : List ℕ → List ℕ → Type 0
Apart [] q = Unit
Apart (packet ∷ rest) q = q ≡ []

pub HoldsFront-push :
    (o : Option (Option ℕ)) (q : List ℕ) (packet : ℕ)
    → HoldsFront o q
    → HoldsFront o (q ++ (packet ∷ []))
unfolding front
HoldsFront-push none q packet h = tt
HoldsFront-push (some none) q packet h = tt
HoldsFront-push (some (some p)) [] packet h = absurd (cc)
HoldsFront-push (some (some p)) (x ∷ q) packet h = h

pub List-cases : (q : List ℕ) → (q ≡ []) ⊎ ((x : ℕ) × (rest : List ℕ) × (q ≡ x ∷ rest))
List-cases [] = inl refl
List-cases (x ∷ rest) = inr (x, rest, refl)

pub Apart-nil : (q : List ℕ) → Apart q []
Apart-nil [] = tt
Apart-nil (x ∷ q) = refl

pub Apart-empty : (r q : List ℕ) → q ≡ [] → Apart r q
Apart-empty [] q h = tt
Apart-empty (x ∷ r) q h = h

-- What is taken off the queue, while a flush is running or not.
pub Apart-split :
    (r q out rest : List ℕ)
    → Apart r q
    → q ≡ out ++ rest
    → Apart r rest × (r ++ q ≡ out ++ (r ++ rest))
Apart-split [] q out rest h e = (tt, e)
Apart-split (x ∷ r) q [] rest h e = (sym e ∙ h, ap (λ q. x ∷ r ++ q) e)
Apart-split (x ∷ r) q (y ∷ out) rest h e = absurd (cc)

pub HoldsFront-front : (q : List ℕ) → HoldsFront (some (front q)) q
unfolding front
HoldsFront-front [] = tt
HoldsFront-front (x ∷ q) = refl

-- What each operation that succeeds has done.
pub swap_out-some :
    (l m : TrackLink)
    → swap_out l ≡ some m
    → (l.locked ≡ none)
      × (record l { pending_queue = []; releasing = l.pending_queue; flushed = true } ≡ m)
unfolding swap_out
swap_out-some l m e = elim (Option-cases l.locked) [
  | inl free ↦ (free, some_injective (subst (λ o. swap_with l o ≡ some m) free e))
  | inr (packet, held) ↦
      (let e' : none ≡ some m = subst (λ o. swap_with l o ≡ some m) held e in absurd (cc))
]
  where
    swap_with : TrackLink → Option (Option ℕ) → Option TrackLink
    swap_with l o = elim o as (λ o. Option TrackLink) [
      | some packet ↦ none
      | none ↦ some (record l { pending_queue = []; releasing = l.pending_queue; flushed = true })
    ]

pub release_next-some :
    (l : TrackLink) (packet : ℕ) (m : TrackLink)
    → release_next l ≡ some (packet, m)
    → (rest : List ℕ) × (l.releasing ≡ packet ∷ rest) × (record l { releasing = rest } ≡ m)
unfolding release_next
release_next-some l packet m e = elim (List-cases l.releasing) [
  | inl empty ↦ absurd (none-ne-some (subst (λ q. release_with l q ≡ some (packet, m)) empty e))
  | inr (x, rest, more) ↦
      let e' : some (x, record l { releasing = rest }) ≡ some (packet, m) =
        subst (λ q. release_with l q ≡ some (packet, m)) more e in
      let same = some_injective e' in
      (
        rest,
        more ∙ ap (λ (r : ℕ × TrackLink). r.0 ∷ rest) same,
        ap (λ (r : ℕ × TrackLink). r.1) same,
      )
]
  where
    release_with : TrackLink → List ℕ → Option (ℕ × TrackLink)
    release_with l q = elim q as (λ q. Option (ℕ × TrackLink)) [
      | [] ↦ none
      | packet ∷ rest ↦ some (packet, record l { releasing = rest })
    ]

pub lock_pending_queue_front-some :
    (l : TrackLink) (r : Bool × Option ℕ × TrackLink)
    → lock_pending_queue_front l ≡ some r
    → (l.locked ≡ none)
      × ((
        l.flushed,
        front l.pending_queue,
        record l { flushed = false; locked = some (front l.pending_queue) },
      )
          ≡ r)
unfolding lock_pending_queue_front
lock_pending_queue_front-some l r e = elim (Option-cases l.locked) [
  | inl free ↦ (free, some_injective (subst (λ o. lock_with l o ≡ some r) free e))
  | inr (packet, held) ↦
      (let e' : none ≡ some r = subst (λ o. lock_with l o ≡ some r) held e in absurd (cc))
]
  where
    lock_with : TrackLink → Option (Option ℕ) → Option (Bool × Option ℕ × TrackLink)
    lock_with l o = elim o as (λ o. Option (Bool × Option ℕ × TrackLink)) [
      | some packet ↦ none
      | none ↦ some (
        l.flushed,
        front l.pending_queue,
        record l { flushed = false; locked = some (front l.pending_queue) },
      )
    ]

-- With the front packet held, or none, an unlocking takes what it should from the queue.
abbrev pub unlocked : TrackLink → List ℕ → TrackLink
unlocked l q = record l { locked = none; pending_queue = q }

pub pop_locked-front :
    (release_packet : Bool) (packet : ℕ) (q : List ℕ)
    → front q ≡ some packet
    → (rest : List ℕ) × (pop_locked packet release_packet q ≡ some rest)
      × (q ≡ taken release_packet (some packet) ++ rest)
unfolding front pop_locked
pop_locked-front release_packet packet [] h = absurd (cc)
pop_locked-front true packet (x ∷ rest) h =
    let same : x ≡ packet = cc in (rest, ground arith, ap (λ y. y ∷ rest) same)
pop_locked-front false packet (x ∷ rest) h =
    let same : x ≡ packet = cc in (x ∷ rest, ground arith, refl)

pub unlock_held :
    (release_packet : Bool) (l : TrackLink) (packet : Option ℕ)
    → l.locked ≡ some packet
    → HoldsFront (some packet) l.pending_queue
    → (rest : List ℕ) × (unlock_pending_queue_front release_packet l ≡ some (unlocked l rest))
      × (l.pending_queue ≡ taken release_packet packet ++ rest)
unfolding unlock_pending_queue_front
unlock_held true l none held h = (l.pending_queue, rw (held, unlock_pending_queue_front) refl, refl)
unlock_held false l none held h =
    (l.pending_queue, rw (held, unlock_pending_queue_front) refl, refl)
unlock_held release_packet l (some packet) held h =
    let (rest, popped, split) = pop_locked-front release_packet packet l.pending_queue h in
    (rest, rw (held, unlock_pending_queue_front, popped) refl, split)
