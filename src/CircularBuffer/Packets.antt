-- ===== src/CircularBuffer/Packets.antt =====
-- CreateMediaPacket, SendMediaPacket and CancelMediaPacket.
use motown.Base.{
  ℕ, ◌+◌, ◌-◌, ◌%◌, ◌^◌, Bool, false, ◌&&◌, ◌||◌, not, Option, none, some, List, [], ◌∷◌, ◌++◌, ltb,
  leb, ◌==◌, if◌then◌else◌,
}
use motown.MediaTypes.{MediaResult}
use motown.MediaPipe.{PacketRegion, MediaPacket, no_timestamp}
use motown.CircularBuffer.{MappedPacket, Adapter, Effect, sent, u64, is_ok, update_signalled, fault}

-- The payload regions of a packet of CreateMediaPacket.
unfoldable pub packet_regions : ℕ → ℕ → ℕ → PacketRegion × List (Option PacketRegion)
packet_regions start size buffer_size =
    if ltb buffer_size (u64 (start + size))
    then (
      record { offset = start; length = buffer_size - start },
      some (record { offset = 0; length = size - (buffer_size - start) }) ∷ [],
    )
    else (record { offset = start; length = size }, [])

unfoldable pub second_length : List (Option PacketRegion) → ℕ
second_length (some r ∷ rest) = r.length
second_length _ = 0

unfoldable pub second_offset : List (Option PacketRegion) → Option ℕ
second_offset (some r ∷ rest) = some r.offset
second_offset _ = none

-- The packet and the bookkeeping that CreateMediaPacket fills out.
unfoldable pub mapped_packet : ℕ → ℕ → Adapter → MappedPacket
mapped_packet start size a =
    let (payload, extra) = packet_regions start size a.buffer_size in
    record {
      packet = some (record {
        pts = no_timestamp;
        end_of_stream = false;
        payload = some payload;
        extra_payload = some extra;
      });
      data_0 = some payload.offset;
      data_1 = second_offset extra;
      length_0 = payload.length;
      length_1 = second_length extra;
      cancel_wr = a.wr;
      flush_generation = a.flush_generation;
    }

-- Where CreateMediaPacket begins the allocation.
unfoldable pub alloc_start : ℕ → Bool → Adapter → ℕ
alloc_start size no_wrap a =
    if no_wrap && ltb a.rd a.wr && ltb (a.buffer_size - a.wr) size then 0 else a.wr

-- What a call returns, the packet that it fills out or resets, and the next state.
abbrev pub Returned : Type 0
Returned = MediaResult × Option MappedPacket × Adapter × List Effect

-- CreateMediaPacket from the start of the allocation on.
unfoldable pub allocate_from : ℕ → ℕ → Adapter → Option Returned
allocate_from start size a =
    let alloc_end = u64 (start + size) in
    let non_mod_wr = u64 (a.wr + (if ltb a.wr a.rd then a.buffer_size else 0)) in
    let (b, es) = update_signalled (record a { wr = alloc_end % a.buffer_size }) in
    if not (ltb a.wr a.buffer_size && ltb a.rd a.buffer_size && leb a.rd non_mod_wr)
    then none
    else if leb a.rd alloc_end && ltb alloc_end non_mod_wr
    then some (MediaResult.insufficient_resources, none, a, [])
    else if ltb a.buffer_size alloc_end && leb size (a.buffer_size - start)
    then none
    else some (MediaResult.ok, some (mapped_packet start size a), b, es)

-- CreateMediaPacket, with a packet to fill out.
unfoldable pub create_media_packet : ℕ → Bool → Adapter → Option Returned
create_media_packet size no_wrap a =
    if not (is_ok a.internal_state)
    then some (MediaResult.bad_state, none, a, [])
    else if a.flush_in_progress
    then some (MediaResult.busy, none, a, [])
    else if a.buffer_size == 0
    then none
    else if ltb (a.buffer_size - 1) size
    then some (MediaResult.insufficient_resources, none, a, [])
    else allocate_from (alloc_start size no_wrap a) size a

-- MappedPacket::Reset.
unfoldable pub reset_packet : MappedPacket → MappedPacket
reset_packet p = record p {
  packet = none;
  data_0 = none;
  data_1 = none;
  length_0 = 0;
  length_1 = 0;
  cancel_wr = 0;
}

-- The position behind the last byte of a packet.
unfoldable pub region_end : Option PacketRegion → Option ℕ
region_end none = none
region_end (some r) = some (u64 (r.offset + r.length))

unfoldable pub post_consume : MediaPacket → Option ℕ
post_consume p = elim p.extra_payload as (λ o. Option ℕ) [
  | none ↦ none
  | some [] ↦ region_end p.payload
  | some (r ∷ []) ↦ region_end r
  | some (r ∷ (s ∷ rest)) ↦ none
]

-- SendMediaPacket from its checks of the state on.
unfoldable pub send_unflushed :
    Option ℕ → MappedPacket → MediaPacket → ℕ → List Effect → Adapter → Option Returned
send_unflushed callback p m post es a =
    let end = if post == a.buffer_size then 0 else post in
    if not (is_ok a.internal_state) || not (p.flush_generation == a.flush_generation)
    then some (MediaResult.flushed, some (reset_packet p), a, es)
    else if a.flush_in_progress || ltb a.buffer_size post
    then none
    else some (
      MediaResult.ok,
      some (reset_packet p),
      record a {
        seq_num_gen = (a.seq_num_gen + 1) % 2 ^ 32;
        in_flight =
            a.in_flight
            ++ (record { post_consume_rd = end; seq_num = a.seq_num_gen; callback = callback }
                ∷ []);
      },
      es ++ (sent m a.seq_num_gen ∷ []),
    )

-- SendMediaPacket.
unfoldable pub send_media_packet : Option ℕ → MappedPacket → Adapter → Option Returned
send_media_packet callback p a = elim p.packet as (λ o. Option Returned) [
  | none ↦ some (MediaResult.invalid_argument, some p, a, [])
  | some m ↦ elim (post_consume m) as (λ o. Option Returned) [
    | none ↦ none
    | some post ↦
        let (b, es) = if a.bound then (a, []) else fault MediaResult.connection_lost a in
        send_unflushed callback p m post es b
  ]
]

-- CancelMediaPacket, of a packet that is not null.
unfoldable pub cancel_live : MappedPacket → Adapter → Option Returned
cancel_live p a =
    let (b, es) = update_signalled (record a { wr = p.cancel_wr }) in
    if not (is_ok a.internal_state) || not (p.flush_generation == a.flush_generation)
    then some (MediaResult.flushed, some (reset_packet p), a, [])
    else if a.flush_in_progress
    then none
    else some (MediaResult.ok, some (reset_packet p), b, es)

-- CancelMediaPacket.
unfoldable pub cancel_media_packet : MappedPacket → Adapter → Option Returned
cancel_media_packet p a = elim p.packet as (λ o. Option Returned) [
  | none ↦ some (MediaResult.invalid_argument, some p, a, [])
  | some m ↦ cancel_live p a
]
