-- ===== src/MediaPipe/Safety.antt =====
-- What a client of the pipe can bring about.
use motown.Base.{
  ℕ, ◌≤◌, ◌<◌, ◌≡◌, refl, inl, inr, Bool, true, false, Option, none, some, List, [], ◌∷◌, ◌++◌,
  arith, Bool-cases, Option-cases, ◌==◌, ltb, ◌||◌, if◌then◌else◌,
}
use motown.MediaPipe.{
  MediaPacket, MediaPipe, Effect, closed, ran, answered, packet_received, prime_requested,
  flush_requested, max_buffer_len, new_pipe, init, reset_pipe, create_mapped, set_first_buffer,
  set_buffer, send_packet, prime, flush,
}
use motown.MediaPipe.Packets.{Accepts, send_packet-none, send_packet_lem}

-- A message of the client, which arrives while the binding is bound; or a call of Init, or of Reset,
-- which the derived class and a connection error make.
pub data Step (info : ℕ → Option ℕ) (maps : ℕ → ℕ → Bool) (p : MediaPipe)
    : MediaPipe × List Effect → Type 0 where
  binds : Step info maps p ((init p).1, [])
  resets : Step info maps p (reset_pipe p)
  sets :
      (handle callback : ℕ)
      → p.bound ≡ true
      → Step info maps p (set_buffer info maps handle callback p)
  sends :
      (packet : MediaPacket) (callback : ℕ)
      → p.bound ≡ true
      → Step info maps p (send_packet packet callback p)
  primes : (callback : ℕ) → p.bound ≡ true → Step info maps p (prime callback p)
  flushes :
      (accepted : Bool) (callback : ℕ)
      → p.bound ≡ true
      → Step info maps p (flush accepted callback p)

-- The states of a pipe from its constructor on, with all that it did to others.
pub data Reach (info : ℕ → Option ℕ) (maps : ℕ → ℕ → Bool) : MediaPipe → List Effect → Type 0 where
  created : Reach info maps new_pipe []
  next :
      {p : MediaPipe} {log : List Effect} {r : MediaPipe × List Effect}
      → Reach info maps p log
      → Step info maps p r
      → Reach info maps r.0 (log ++ r.1)

-- A buffer is held while the pipe is bound, has a size, and is no larger than kMaxBufferLen.
abbrev pub HasBuffer : Bool → Option ℕ → Type 0
HasBuffer bound none = Unit
HasBuffer bound (some size) = (bound ≡ true) × (0 < size) × (size ≤ max_buffer_len)

abbrev pub IsValid : MediaPipe → Type 0
IsValid p = HasBuffer p.bound p.buffer

-- A packet is handed on with a buffer that holds all of its regions.
abbrev pub IsSafe : Effect → Type 0
IsSafe closed = Unit
IsSafe (ran callback) = Unit
IsSafe (answered callback result) = Unit
IsSafe (packet_received s) = Accepts s.buffer s.packet × (s.buffer ≤ max_buffer_len)
IsSafe (prime_requested callback) = Unit
IsSafe (flush_requested callback) = Unit

abbrev pub AllSafe : List Effect → Type 0
AllSafe [] = Unit
AllSafe (e ∷ es) = IsSafe e × AllSafe es

AllSafe-append : (xs ys : List Effect) → AllSafe xs → AllSafe ys → AllSafe (xs ++ ys)
AllSafe-append [] ys h k = k
AllSafe-append (x ∷ xs) ys h k = (h.0, AllSafe-append xs ys h.1 k)

abbrev pub Kept : MediaPipe × List Effect → Type 0
Kept r = IsValid r.0 × AllSafe r.1

closes_safe : (b : Bool) → AllSafe (if b then closed ∷ [] else [])
closes_safe true = (tt, tt)
closes_safe false = tt

reset_pipe-Kept : (p : MediaPipe) → Kept (reset_pipe p)
unfolding reset_pipe
reset_pipe-Kept p = (tt, closes_safe p.bound)

HasBuffer-true : (b : Bool) (o : Option ℕ) → HasBuffer b o → HasBuffer true o
HasBuffer-true b none h = tt
HasBuffer-true b (some size) (bound, sized, fits) = (refl, sized, fits)

init-IsValid : (p : MediaPipe) → IsValid p → IsValid (init p).1
unfolding init
init-IsValid p v = elim (Bool-cases p.bound) [
  | inl e ↦ rw (e, init) (HasBuffer-true p.bound p.buffer v)
  | inr e ↦ rw (e, init) (HasBuffer-true p.bound p.buffer v)
]

module _ (info : ℕ → Option ℕ) (maps : ℕ → ℕ → Bool) (p : MediaPipe) (bound : p.bound ≡ true) where
  set_first_buffer-Kept :
      (handle callback : ℕ) → Kept (set_first_buffer info maps handle callback p)
  unfolding set_first_buffer create_mapped
  set_first_buffer-Kept handle callback = elim (Option-cases (info handle)) [
    | inl e ↦ rw (e, set_first_buffer) (reset_pipe-Kept p)
    | inr (size, e) ↦ elim (Bool-cases (size == 0 || ltb max_buffer_len size)) [
      | inl bad ↦ rw (e, set_first_buffer, bad) (reset_pipe-Kept p)
      | inr good ↦ elim (Bool-cases (maps handle size)) [
        | inl mapped ↦
            rw (e, set_first_buffer, good, mapped) ((bound, ground arith, ground arith), (tt, tt))
        | inr failed ↦ rw (e, set_first_buffer, good, failed) (reset_pipe-Kept p)
      ]
    ]
  ]

  set_buffer-Kept : (handle callback : ℕ) → Kept (set_buffer info maps handle callback p)
  unfolding set_buffer
  set_buffer-Kept handle callback = elim (Option-cases p.buffer) [
    | inl e ↦ rw (e, set_buffer) (set_first_buffer-Kept handle callback)
    | inr (size, e) ↦ rw (e, set_buffer) (reset_pipe-Kept p)
  ]

HasBuffer-within :
    (b : Bool) (o : Option ℕ) (size : ℕ) → HasBuffer b o → o ≡ some size → size ≤ max_buffer_len
HasBuffer-within b none size h e = absurd (cc)
HasBuffer-within b (some n) size (bound, sized, fits) e = ground arith

flush_held :
    (accepted : Bool) (callback size : ℕ) (p : MediaPipe)
    → p.buffer ≡ some size
    → flush accepted callback p ≡ (
        if accepted
        then (p, flush_requested callback ∷ [])
        else (let (p', effects) = reset_pipe p in (p', flush_requested callback ∷ effects)))
unfolding flush
flush_held accepted callback size p held = rw held

module _ (p : MediaPipe) (v : IsValid p) where
  send_packet-Kept : (packet : MediaPacket) (callback : ℕ) → Kept (send_packet packet callback p)
  send_packet-Kept packet callback = elim (Option-cases p.buffer) [
    | inl e ↦ rw (send_packet-none packet callback p e) (reset_pipe-Kept p)
    | inr (size, e) ↦ elim (send_packet_lem packet callback size p e) [
      | inl (accepts, sent) ↦
          rw sent (v, ((accepts, HasBuffer-within p.bound p.buffer size v e), tt))
      | inr (refused, sent) ↦ rw sent (reset_pipe-Kept p)
    ]
  ]

  prime-Kept : (callback : ℕ) → Kept (prime callback p)
  unfolding prime
  prime-Kept callback = (v, (tt, tt))

  flush-Kept : (accepted : Bool) (callback : ℕ) → Kept (flush accepted callback p)
  unfolding flush reset_pipe
  flush-Kept accepted callback = elim (Option-cases p.buffer) [
    | inl e ↦ rw (e, flush) (tt, closes_safe p.bound)
    | inr (size, e) ↦ elim (Bool-cases accepted) [
      | inl accepts ↦ rw (accepts, flush_held true callback size p e) (v, (tt, tt))
      | inr refused ↦
          rw (refused, flush_held false callback size p e) (tt, (tt, closes_safe p.bound))
    ]
  ]

Step-Kept :
    (info : ℕ → Option ℕ) (maps : ℕ → ℕ → Bool) {p : MediaPipe} {r : MediaPipe × List Effect}
    → IsValid p
    → Step info maps p r
    → Kept r
Step-Kept info maps {p} v binds = (init-IsValid p v, tt)
Step-Kept info maps {p} v resets = reset_pipe-Kept p
Step-Kept info maps {p} v (sets handle callback b) = set_buffer-Kept info maps p b handle callback
Step-Kept info maps {p} v (sends packet callback b) = send_packet-Kept p v packet callback
Step-Kept info maps {p} v (primes callback b) = prime-Kept p v callback
Step-Kept info maps {p} v (flushes accepted callback b) = flush-Kept p v accepted callback

-- From the constructor on, whatever buffers and packets a client sends and however the derived
-- class answers: a buffer is held only while the pipe is bound, and has a size of 1 to
-- kMaxBufferLen bytes; and each packet that was handed to the derived class came with a buffer of
-- at most that size, in which all of its regions lie.
pub Reach-Safe :
    (info : ℕ → Option ℕ) (maps : ℕ → ℕ → Bool) {p : MediaPipe} {log : List Effect}
    → Reach info maps p log
    → IsValid p × AllSafe log
unfolding new_pipe
Reach-Safe info maps created = (tt, tt)
Reach-Safe info maps (next {p} {log} {r} before step) =
    let (v, safe) = Reach-Safe info maps before in
    let (v', safe') = Step-Kept info maps v step in (v', AllSafe-append log r.1 safe safe')
