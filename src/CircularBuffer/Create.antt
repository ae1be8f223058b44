-- ===== src/CircularBuffer/Create.antt =====
-- The regions that CreateMediaPacket hands out.
use motown.Base.{
  ℕ, ◌+◌, ◌-◌, ◌*◌, ◌^◌, ◌%◌, ◌≤◌, ◌<◌, ◌≡◌, refl, sym, subst, ◌∙◌, Bool, true, false, ◌&&◌, ◌||◌,
  Bool-cases, inl, inr, Option, none, some, List, arith, ltb, leb, if◌then◌else◌,
}
use native.Mathlib.Nat.{mod-eq_of_lt, mod-eq-sub-mod}
use motown.MediaTypes.{MediaResult}
use motown.CircularBuffer.{Adapter, Effect, MappedPacket, u64, update_signalled}
use motown.CircularBuffer.Packets.{
  Returned, mapped_packet, packet_regions, second_length, second_offset, alloc_start, allocate_from,
  create_media_packet,
}
use motown.CircularBuffer.Signal.{SameRing, update_signalled-SameRing}

-- An adapter that takes packets: not faulted and not busy, with both pointers in its buffer.
pub record IsReady (a : Adapter) : Type 0 where
  pub no_fault : a.internal_state ≡ MediaResult.ok
  pub not_busy : a.flush_in_progress ≡ false
  pub size_bound : a.buffer_size ≤ 2 ^ 63
  pub rd_inside : a.rd < a.buffer_size
  pub wr_inside : a.wr < a.buffer_size

-- Whether a position of the buffer holds data that are pending.
abbrev pub pending_at : ℕ → Adapter → Bool
pending_at x a = if ltb a.wr a.rd then ltb x a.wr || leb a.rd x else leb a.rd x && ltb x a.wr

-- The bytes that the ring can take: one position stays free.
abbrev pub room : Adapter → ℕ
room a = if ltb a.wr a.rd then a.rd - a.wr - 1 else a.buffer_size - (a.wr - a.rd) - 1

-- The bytes that a packet which must not wrap leaves at the end of the buffer.
abbrev pub padding : ℕ → Bool → Adapter → ℕ
padding size no_wrap a =
    if no_wrap && ltb a.rd a.wr && ltb (a.buffer_size - a.wr) size then a.buffer_size - a.wr else 0

-- Whether a position lies in a packet.
abbrev pub holds_from : ℕ → Option ℕ → ℕ → Bool
holds_from x none n = false
holds_from x (some d) n = leb d x && ltb x (d + n)

abbrev pub holds : ℕ → MappedPacket → Bool
holds x p = holds_from x p.data_0 p.length_0 || holds_from x p.data_1 p.length_1

mapped_packet_total :
    (start size : ℕ) (a : Adapter)
    → start < a.buffer_size
    → size < a.buffer_size
    → a.buffer_size ≤ 2 ^ 63
    → (mapped_packet start size a).length_0 + (mapped_packet start size a).length_1 ≡ size
unfolding mapped_packet packet_regions second_length
mapped_packet_total start size a low small bound = ground arith

-- A position of the packet, counted from its start on.
pub holds-mapped_packet :
    (start size x : ℕ) (a : Adapter)
    → start < a.buffer_size
    → size < a.buffer_size
    → a.buffer_size ≤ 2 ^ 63
    → holds x (mapped_packet start size a) ≡ (
        (leb start x && ltb x (start + size) && ltb x a.buffer_size)
        || ltb (x + a.buffer_size) (start + size))
unfolding mapped_packet packet_regions second_length second_offset
holds-mapped_packet start size x a low small bound = ground arith

-- A packet that was handed out: its regions have the size that was asked for, lie in the buffer and
-- hold no pending data, and they and all that was pending are pending now.
pub record Created (size : ℕ) (a : Adapter) (r : Option Returned) : Type 0 where
  pub packet : MappedPacket
  pub after : Adapter
  pub effects : List Effect
  pub returns : r ≡ some (MediaResult.ok, some packet, after, effects)
  pub total : packet.length_0 + packet.length_1 ≡ size
  pub in_buffer : (x : ℕ) → holds x packet ≡ true → x < a.buffer_size
  pub free : (x : ℕ) → holds x packet ≡ true → pending_at x a ≡ false
  pub pending :
      (x : ℕ)
      → x < a.buffer_size
      → (pending_at x a || holds x packet) ≡ true
      → pending_at x after ≡ true
  pub ready : IsReady after
  pub rd_same : after.rd ≡ a.rd

-- The adapter with a new write pointer.
abbrev pub moved : ℕ → Adapter → Adapter
moved wr a = record a { wr = wr }

pub moved-IsReady :
    (wr : ℕ) (a b : Adapter) → IsReady a → wr < a.buffer_size → SameRing (moved wr a) b → IsReady b
moved-IsReady wr a b v lt s = record {
  no_fault = s.state_same ∙ v.no_fault;
  not_busy = s.flush_same ∙ v.not_busy;
  size_bound = let e = s.size_same in let h = v.size_bound in omega arith;
  rd_inside = let e = s.size_same in let f = s.rd_same in let h = v.rd_inside in omega arith;
  wr_inside = let e = s.size_same in let f = s.wr_same in omega arith;
}

-- The write pointer after an allocation.
abbrev pub next_wr : ℕ → ℕ → ℕ
next_wr alloc_end size = if ltb alloc_end size then alloc_end else alloc_end - size

pub next_wr_lem :
    (alloc_end size : ℕ)
    → size ≤ 2 ^ 63
    → alloc_end < 2 * size
    → u64 alloc_end % size ≡ next_wr alloc_end size
next_wr_lem alloc_end size bound lt =
    let small : u64 alloc_end ≡ alloc_end = omega arith in
    elim (Bool-cases (ltb alloc_end size)) [
      | inl below ↦ rw (below, small) (mod-eq_of_lt (ground arith))
      | inr above ↦
          let ge : size ≤ alloc_end = ground arith in
          rw (above, small) (mod-eq-sub-mod ge ∙ mod-eq_of_lt (omega arith))
    ]

pub allocate_from_fits :
    (size : ℕ) (no_wrap : Bool) (a : Adapter)
    → IsReady a
    → size < a.buffer_size
    → padding size no_wrap a + size ≤ room a
    → allocate_from (alloc_start size no_wrap a) size a
      ≡ some (
        MediaResult.ok,
        some (mapped_packet (alloc_start size no_wrap a) size a),
        (update_signalled (moved (u64 (alloc_start size no_wrap a + size) % a.buffer_size) a)).0,
        (update_signalled (moved (u64 (alloc_start size no_wrap a + size) % a.buffer_size) a)).1,
      )
unfolding allocate_from alloc_start
allocate_from_fits size no_wrap a v small fits =
    let h = v.size_bound in let f = v.rd_inside in let g = v.wr_inside in ground arith

pub alloc_start_inside :
    (size : ℕ) (no_wrap : Bool) (a : Adapter)
    → IsReady a
    → alloc_start size no_wrap a < a.buffer_size
unfolding alloc_start
alloc_start_inside size no_wrap a v = let g = v.wr_inside in ground arith

holds_free :
    (size x : ℕ) (no_wrap : Bool) (a : Adapter)
    → IsReady a
    → size < a.buffer_size
    → padding size no_wrap a + size ≤ room a
    → holds x (mapped_packet (alloc_start size no_wrap a) size a) ≡ true
    → (x < a.buffer_size) × (pending_at x a ≡ false)
unfolding alloc_start
holds_free size x no_wrap a v small fits inside =
    let f = v.rd_inside in
    let g = v.wr_inside in
    let at =
      holds-mapped_packet (alloc_start size no_wrap a) size x a
        (alloc_start_inside size no_wrap a v) small v.size_bound in
    ground arith

-- The same on the pointers alone.
abbrev ring_holds : ℕ → ℕ → ℕ → Bool
ring_holds rd wr x = if ltb wr rd then ltb x wr || leb rd x else leb rd x && ltb x wr

abbrev span_holds : ℕ → ℕ → ℕ → ℕ → Bool
span_holds start size n x =
    (leb start x && ltb x (start + size) && ltb x n) || ltb (x + n) (start + size)

span_kept :
    (rd wr size n x : ℕ)
    → rd < n
    → wr < n
    → size ≤ (if ltb wr rd then rd - wr - 1 else n - (wr - rd) - 1)
    → x < n
    → ring_holds rd wr x ≡ true
    → ring_holds rd (next_wr (wr + size) n) x ≡ true
span_kept rd wr size n x f g fits lt inside = ground arith

span_added :
    (rd wr size n x : ℕ)
    → rd < n
    → wr < n
    → size ≤ (if ltb wr rd then rd - wr - 1 else n - (wr - rd) - 1)
    → x < n
    → span_holds wr size n x ≡ true
    → ring_holds rd (next_wr (wr + size) n) x ≡ true
span_added rd wr size n x f g fits lt inside = ground arith

padded_kept :
    (rd wr size n x : ℕ)
    → rd < wr
    → wr < n
    → size < rd
    → x < n
    → (ring_holds rd wr x || span_holds 0 size n x) ≡ true
    → ring_holds rd (next_wr (0 + size) n) x ≡ true
padded_kept rd wr size n x f g fits lt inside = ground arith

span_pending :
    (rd wr size n x : ℕ)
    → rd < n
    → wr < n
    → size ≤ (if ltb wr rd then rd - wr - 1 else n - (wr - rd) - 1)
    → x < n
    → (ring_holds rd wr x || span_holds wr size n x) ≡ true
    → ring_holds rd (next_wr (wr + size) n) x ≡ true
span_pending rd wr size n x f g fits lt inside = elim (Bool-cases (ring_holds rd wr x)) [
  | inl e ↦ span_kept rd wr size n x f g fits lt e
  | inr ne ↦ span_added rd wr size n x f g fits lt (rw ne at inside)
]

holds_pending :
    (size x : ℕ) (no_wrap : Bool) (a : Adapter)
    → IsReady a
    → size < a.buffer_size
    → padding size no_wrap a + size ≤ room a
    → x < a.buffer_size
    → (pending_at x a || holds x (mapped_packet (alloc_start size no_wrap a) size a)) ≡ true
    → ring_holds a.rd (next_wr (alloc_start size no_wrap a + size) a.buffer_size) x ≡ true
unfolding alloc_start
holds_pending size x no_wrap a v small fits below inside =
    let start = alloc_start size no_wrap a in
    let spans : (ring_holds a.rd a.wr x || span_holds start size a.buffer_size x) ≡ true =
      rw
        (holds-mapped_packet start size x a (alloc_start_inside size no_wrap a v) small
          v.size_bound)
        at inside in
    elim (Bool-cases (no_wrap && ltb a.rd a.wr && ltb (a.buffer_size - a.wr) size)) [
      | inl pads ↦
          let zero_start : start ≡ 0 = rw (pads, alloc_start) refl in
          let lt : a.rd < a.wr = ground arith in
          let g = v.wr_inside in
          let room_left : size < a.rd = let sum = rw pads at fits in ground arith in
          rw zero_start (
            padded_kept a.rd a.wr size a.buffer_size x lt g room_left below
              (rw zero_start at spans))
      | inr fills ↦
          let at_wr : start ≡ a.wr = rw (fills, alloc_start) refl in
          let room_left : size ≤ room a = let sum = rw fills at fits in omega arith in
          rw at_wr (
            span_pending a.rd a.wr size a.buffer_size x v.rd_inside v.wr_inside room_left below
              (rw at_wr at spans))
    ]

pub alloc_start_below :
    (size : ℕ) (no_wrap : Bool) (a : Adapter)
    → IsReady a
    → size < a.buffer_size
    → alloc_start size no_wrap a + size < 2 * a.buffer_size
alloc_start_below size no_wrap a v small =
    let inside = alloc_start_inside size no_wrap a v in omega arith

pub next_wr_inside : (alloc_end size : ℕ) → alloc_end < 2 * size → next_wr alloc_end size < size
next_wr_inside alloc_end size lt = ground arith

allocate_from-Created :
    (size : ℕ) (no_wrap : Bool) (a : Adapter)
    → IsReady a
    → size < a.buffer_size
    → padding size no_wrap a + size ≤ room a
    → Created size a (allocate_from (alloc_start size no_wrap a) size a)
allocate_from-Created size no_wrap a v small fits =
    let start = alloc_start size no_wrap a in
    let inside = alloc_start_inside size no_wrap a v in
    let below = alloc_start_below size no_wrap a v small in
    let wr = u64 (start + size) % a.buffer_size in
    let wr_is : wr ≡ next_wr (start + size) a.buffer_size =
      next_wr_lem (start + size) a.buffer_size v.size_bound below in
    let wr_inside : wr < a.buffer_size =
      let lt = next_wr_inside (start + size) a.buffer_size below in omega arith in
    let same = update_signalled-SameRing (moved wr a) in
    record {
      packet = mapped_packet start size a;
      after = (update_signalled (moved wr a)).0;
      effects = (update_signalled (moved wr a)).1;
      returns = allocate_from_fits size no_wrap a v small fits;
      total = mapped_packet_total start size a inside small v.size_bound;
      in_buffer = λ x h. (holds_free size x no_wrap a v small fits h).0;
      free = λ x h. (holds_free size x no_wrap a v small fits h).1;
      pending = λ x lt h.
          rw (same.rd_same, same.wr_same, wr_is) (holds_pending size x no_wrap a v small fits lt h);
      ready = moved-IsReady wr a (update_signalled (moved wr a)).0 v wr_inside same;
      rd_same = same.rd_same;
    }

-- An adapter that takes packets allocates.
pub create_media_packet_allocates :
    (size : ℕ) (no_wrap : Bool) (a : Adapter)
    → IsReady a
    → size < a.buffer_size
    → create_media_packet size no_wrap a ≡ allocate_from (alloc_start size no_wrap a) size a
unfolding create_media_packet
create_media_packet_allocates size no_wrap a v small =
    let f = v.no_fault in let g = v.not_busy in let h = v.rd_inside in ground arith

-- On an adapter that takes packets, for a size that, with the bytes left over at the end of the
-- buffer where the packet must not wrap, fits in the room, CreateMediaPacket succeeds: the regions
-- of the packet have that size together, lie in the buffer, and hold no position whose data are
-- pending; afterwards they and all that was pending are pending, the read pointer is the same, and
-- the adapter takes packets.
pub create_media_packet-Created :
    (size : ℕ) (no_wrap : Bool) (a : Adapter)
    → IsReady a
    → padding size no_wrap a + size ≤ room a
    → Created size a (create_media_packet size no_wrap a)
create_media_packet-Created size no_wrap a v fits =
    let f = v.rd_inside in
    let small : size < a.buffer_size = ground arith in
    subst (Created size a) (sym (create_media_packet_allocates size no_wrap a v small))
      (allocate_from-Created size no_wrap a v small fits)
