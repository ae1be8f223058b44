-- ===== src/CircularBuffer/Overrun.antt =====
-- CreateMediaPacket where the bytes do not fit.
use motown.Base.{
  ℕ, ◌+◌, ◌-◌, ◌*◌, ◌%◌, ◌^◌, ◌≤◌, ◌<◌, ◌≡◌, ◌∙◌, Bool, true, false, Option, none, some, List, [],
  arith, ltb, if◌then◌else◌,
}
use native.Mathlib.Nat.{mod-eq_of_lt, mod-eq-sub-mod}
use motown.MediaTypes.{MediaResult}
use motown.CircularBuffer.{Adapter, Effect, MappedPacket, u64, update_signalled}
use motown.CircularBuffer.Packets.{
  Returned, mapped_packet, alloc_start, allocate_from, create_media_packet,
}
use motown.CircularBuffer.Signal.{update_signalled-SameRing}
use motown.CircularBuffer.Create.{
  IsReady, pending_at, room, holds, holds-mapped_packet, create_media_packet_allocates,
}

-- The bytes between the two pointers.
abbrev pub held : Adapter → ℕ
held a = if ltb a.wr a.rd then a.wr + a.buffer_size - a.rd else a.wr - a.rd

-- A packet after which as many bytes are no longer pending as the buffer has; of more than one byte
-- too many, its regions hold a position whose data were pending.
pub record Overruns (size : ℕ) (a : Adapter) (r : Option Returned) : Type 0 where
  pub packet : MappedPacket
  pub after : Adapter
  pub effects : List Effect
  pub returns : r ≡ some (MediaResult.ok, some packet, after, effects)
  pub lost : held after + a.buffer_size ≡ held a + size
  pub overwritten : room a + 1 < size → (x : ℕ) × (holds x packet ≡ true) × (pending_at x a ≡ true)

allocates_past_rd :
    (size : ℕ) (a : Adapter)
    → IsReady a
    → a.rd < a.wr
    → size < a.buffer_size
    → allocate_from a.wr size a
      ≡ some (
        MediaResult.ok,
        some (mapped_packet a.wr size a),
        (update_signalled (record a { wr = u64 (a.wr + size) % a.buffer_size })).0,
        (update_signalled (record a { wr = u64 (a.wr + size) % a.buffer_size })).1,
      )
unfolding allocate_from
allocates_past_rd size a v lt small =
    let h = v.size_bound in let f = v.rd_inside in let g = v.wr_inside in ground arith

u64_mod_lem : (n size : ℕ) → size ≤ 2 ^ 63 → size ≤ n → n < 2 * size → u64 n % size ≡ n - size
u64_mod_lem n size bound ge lt =
    let small : u64 n ≡ n = omega arith in rw small (mod-eq-sub-mod ge ∙ mod-eq_of_lt (omega arith))

-- On an adapter that takes packets, where the read pointer lies in front of the write pointer, for
-- a size that is more than there is room for and less than the size of the buffer,
-- CreateMediaPacket hands out a packet that may wrap: afterwards the pending bytes are fewer than
-- those before and the bytes of the packet together, by the size of the buffer; and if there is
-- more than one byte too many, the packet holds a position whose data were pending.
pub create_media_packet-Overruns :
    (size : ℕ) (a : Adapter)
    → IsReady a
    → a.rd < a.wr
    → room a < size
    → size < a.buffer_size
    → Overruns size a (create_media_packet size false a)
unfolding alloc_start
create_media_packet-Overruns size a v lt full small =
    let g = v.wr_inside in
    let h = v.size_bound in
    let over : a.buffer_size + a.rd ≤ a.wr + size = ground arith in
    let wr = u64 (a.wr + size) % a.buffer_size in
    let wr_is : wr ≡ a.wr + size - a.buffer_size =
      u64_mod_lem (a.wr + size) a.buffer_size h (omega arith) (omega arith) in
    let same = update_signalled-SameRing (record a { wr = wr }) in
    let at = holds-mapped_packet a.wr size a.rd a g small v.size_bound in
    record {
      packet = mapped_packet a.wr size a;
      after = (update_signalled (record a { wr = u64 (a.wr + size) % a.buffer_size })).0;
      effects = (update_signalled (record a { wr = u64 (a.wr + size) % a.buffer_size })).1;
      returns =
          create_media_packet_allocates size false a v small ∙ allocates_past_rd size a v lt small;
      lost = rw (same.rd_same, same.wr_same, same.size_same, wr_is) (ground arith);
      overwritten = λ more. (a.rd, rw at (ground arith), ground arith);
    }

-- Where the pending data do not lie in one piece, or there are none, CreateMediaPacket refuses a packet
-- of more bytes than there is room for, and changes nothing.
pub create_media_packet_refuses :
    (size : ℕ) (no_wrap : Bool) (a : Adapter)
    → IsReady a
    → a.wr ≤ a.rd
    → room a < size
    → size < 2 ^ 64
    → create_media_packet size no_wrap a ≡ some (MediaResult.insufficient_resources, none, a, [])
unfolding create_media_packet allocate_from alloc_start
create_media_packet_refuses size no_wrap a v le full bound =
    let no_fault = v.no_fault in
    let not_busy = v.not_busy in
    let h = v.size_bound in let f = v.rd_inside in let g = v.wr_inside in ground arith
