-- ===== src/CircularBuffer/Sequence.antt =====
-- The packets between CreateMediaPacket and their answer, in order.
use motown.Base.{
  ℕ, ◌+◌, ◌-◌, ◌^◌, ◌≤◌, ◌<◌, ◌≡◌, refl, ◌∙◌, Bool, true, ◌&&◌, Bool-cases, inl, inr, Option, none,
  some, List, [], ◌∷◌, ◌++◌, arith, ltb, ◌==◌, if◌then◌else◌,
}
use motown.MediaPipe.{MediaPacket}
use motown.CircularBuffer.{InFlight, Adapter, MappedPacket, u64}
use motown.CircularBuffer.Packets.{
  mapped_packet, packet_regions, region_end, post_consume, alloc_start,
}
use motown.CircularBuffer.Signal.{SameRing}
use motown.CircularBuffer.Create.{IsReady, room, padding, next_wr, moved-IsReady}
use motown.CircularBuffer.Order.{distance_from, Ascends}

-- The position behind a packet, and the read pointer after it was consumed.
abbrev pub packet_end : Option MediaPacket → Option ℕ
packet_end none = none
packet_end (some m) = post_consume m

abbrev pub end_at : ℕ → Option ℕ → ℕ
end_at n none = 0
end_at n (some post) = if post == n then 0 else post

abbrev pub end_of : ℕ → MappedPacket → ℕ
end_of n p = end_at n (packet_end p.packet)

-- A packet that was created for a buffer of `n` bytes, in the generation `g`.
pub record IsMade (n g : ℕ) (p : MappedPacket) : Type 0 where
  pub post : ℕ
  pub consumed : packet_end p.packet ≡ some post
  pub inside : post ≤ n
  pub generation : p.flush_generation ≡ g

abbrev pub AllMade : ℕ → ℕ → List MappedPacket → Type 0
AllMade n g [] = Unit
AllMade n g (p ∷ ps) = IsMade n g p × AllMade n g ps

-- Where the packets start and end.
abbrev pub marks : ℕ → List MappedPacket → List ℕ
marks n [] = []
marks n (p ∷ ps) = p.cancel_wr ∷ (end_of n p ∷ marks n ps)

abbrev pub ends : List InFlight → List ℕ
ends [] = []
ends (x ∷ xs) = x.post_consume_rd ∷ ends xs

-- An adapter that takes packets, and the packets that are created and not yet sent: from the read
-- pointer on come the ends of the packets in flight, the starts and ends of the others and the write
-- pointer, none behind a later one.
pub record IsSequential (a : Adapter) (ps : List MappedPacket) : Type 0 where
  pub ready : IsReady a
  pub bound : a.bound ≡ true
  pub made : AllMade a.buffer_size a.flush_generation ps
  pub ordered :
      Ascends a.buffer_size a.rd 0 (ends a.in_flight ++ (marks a.buffer_size ps ++ (a.wr ∷ [])))

pub SameRing-IsSequential :
    (a b : Adapter) (ps : List MappedPacket) → SameRing a b → IsSequential a ps → IsSequential b ps
SameRing-IsSequential a b ps s v = record {
  ready = moved-IsReady a.wr a b v.ready v.ready.wr_inside s;
  bound = s.bound_same ∙ v.bound;
  made = rw (s.size_same, s.generation_same) v.made;
  ordered = rw (s.size_same, s.rd_same, s.wr_same, s.in_flight_same) v.ordered;
}

pub marks-append :
    (n : ℕ) (ps qs : List MappedPacket) → marks n (ps ++ qs) ≡ marks n ps ++ marks n qs
marks-append n [] qs = refl
marks-append n (p ∷ ps) qs = rw (marks-append n ps qs)

pub AllMade-append :
    (n g : ℕ) (ps qs : List MappedPacket) → AllMade n g ps → AllMade n g qs → AllMade n g (ps ++ qs)
AllMade-append n g [] qs h k = k
AllMade-append n g (p ∷ ps) qs (a, h) k = (a, AllMade-append n g ps qs h k)

pub AllMade-front :
    (n g : ℕ) (ps qs : List MappedPacket) → AllMade n g (ps ++ qs) → AllMade n g ps × AllMade n g qs
AllMade-front n g [] qs h = (tt, h)
AllMade-front n g (p ∷ ps) qs (a, h) = let (f, k) = AllMade-front n g ps qs h in ((a, f), k)

pub ends-append : (xs ys : List InFlight) → ends (xs ++ ys) ≡ ends xs ++ ends ys
ends-append [] ys = refl
ends-append (x ∷ xs) ys = rw (ends-append xs ys)

-- The end of a packet is the write pointer after it.
pub mapped_packet-IsMade :
    (start size : ℕ) (a : Adapter)
    → start < a.buffer_size
    → size < a.buffer_size
    → a.buffer_size ≤ 2 ^ 63
    → IsMade a.buffer_size a.flush_generation (mapped_packet start size a)
      × (end_of a.buffer_size (mapped_packet start size a) ≡ next_wr (start + size) a.buffer_size)
unfolding mapped_packet packet_regions region_end post_consume
mapped_packet-IsMade start size a low small bound =
    elim (Bool-cases (ltb a.buffer_size (u64 (start + size)))) [
      | inl wraps ↦
          let small_end : u64 (start + size) ≡ start + size = omega arith in
          let over : a.buffer_size < start + size = ground arith in
          rw wraps (
            record {
              post = u64 (0 + (size - (a.buffer_size - start)));
              consumed = refl;
              inside = omega arith;
              generation = refl;
            },
            ground arith,
          )
      | inr fits ↦
          let small_end : u64 (start + size) ≡ start + size = omega arith in
          let under : start + size ≤ a.buffer_size = ground arith in
          rw fits (
            record {
              post = u64 (start + size);
              consumed = refl;
              inside = omega arith;
              generation = refl;
            },
            ground arith,
          )
    ]

distance_straight :
    (n rd wr size : ℕ)
    → rd < n
    → wr < n
    → size ≤ (if ltb wr rd then rd - wr - 1 else n - (wr - rd) - 1)
    → distance_from n rd wr ≤ distance_from n rd (next_wr (wr + size) n)
distance_straight n rd wr size a b fits = ground arith

distance_padded :
    (n rd wr size : ℕ)
    → rd < wr
    → wr < n
    → size < rd
    → distance_from n rd wr ≤ distance_from n rd (next_wr (0 + size) n)
distance_padded n rd wr size a b fits = ground arith

-- An allocation that fits moves the write pointer away from the read pointer.
pub distance_grows :
    (size : ℕ) (no_wrap : Bool) (a : Adapter)
    → IsReady a
    → padding size no_wrap a + size ≤ room a
    → distance_from a.buffer_size a.rd a.wr
      ≤ distance_from a.buffer_size a.rd (next_wr (alloc_start size no_wrap a + size) a.buffer_size)
unfolding alloc_start
distance_grows size no_wrap a v fits =
    elim (Bool-cases (no_wrap && ltb a.rd a.wr && ltb (a.buffer_size - a.wr) size)) [
      | inl pads ↦
          let g = v.wr_inside in
          let lt : a.rd < a.wr = ground arith in
          let room_left : size < a.rd = let sum = rw pads at fits in ground arith in
          rw pads (distance_padded a.buffer_size a.rd a.wr size lt g room_left)
      | inr fills ↦
          let room_left : size ≤ room a = let sum = rw fills at fits in omega arith in
          rw fills
            (distance_straight a.buffer_size a.rd a.wr size v.rd_inside v.wr_inside room_left)
    ]
