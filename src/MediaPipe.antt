-- ===== src/MediaPipe.antt =====
-- MediaPipeBase of services/media/common/media_pipe_base.{h,cc}, and the packets of
-- mojo/services/media/common/interfaces/media_transport.mojom.
pub mod Packets
pub mod Results
pub mod Safety
mod Tests
use motown.Base.{
  ℕ, ◌+◌, ◌-◌, ◌^◌, Bool, true, false, ◌||◌, Option, none, some, List, [], ◌∷◌, ltb, ◌==◌,
  if◌then◌else◌,
}
use motown.Base.Int.{ℤ, pos}

-- MediaPacketRegion.
pub record PacketRegion : Type 0 where
  pub offset : ℕ
  pub length : ℕ

-- MediaPacket. A pointer to a region, and the array of the extra ones, may be null.
pub record MediaPacket : Type 0 where
  pub pts : ℤ
  pub end_of_stream : Bool
  pub payload : Option PacketRegion
  pub extra_payload : Option (List (Option PacketRegion))

-- MediaPacket::kNoTimestamp.
abbrev pub no_timestamp : ℤ
no_timestamp = pos (2 ^ 63 - 1)

-- MediaConsumer::SendResult.
pub data SendResult : Type 0 where
  consumed : SendResult
  flushed : SendResult

-- MediaPacketState. The buffer is held by its size; a callback is a number.
pub record PacketState : Type 0 where
  pub packet : MediaPacket
  pub buffer : ℕ
  pub callback : ℕ
  pub result : SendResult

-- MediaPipeBase: whether binding_ is bound, and the size of buffer_, which may be null.
pub record MediaPipe : Type 0 where
  pub bound : Bool
  pub buffer : Option ℕ

-- What an operation does to others, in order: the binding that it closes, the callbacks that it runs,
-- and the calls of the derived class.
pub data Effect : Type 0 where
  closed : Effect
  ran : ℕ → Effect
  answered : ℕ → SendResult → Effect
  packet_received : PacketState → Effect
  prime_requested : ℕ → Effect
  flush_requested : ℕ → Effect

-- MediaConsumer::kMaxBufferLen.
abbrev pub max_buffer_len : ℕ
max_buffer_len = 2 ^ 62 - 1

-- The constructor.
pub new_pipe : MediaPipe
new_pipe = record { bound = false; buffer = none }

-- Init; true is MOJO_RESULT_OK, and false MOJO_RESULT_ALREADY_EXISTS.
pub init : MediaPipe → Bool × MediaPipe
init p = if p.bound then (false, p) else (true, record p { bound = true })

-- Reset.
unfoldable pub reset_pipe : MediaPipe → MediaPipe × List Effect
reset_pipe p = (record { bound = false; buffer = none }, if p.bound then closed ∷ [] else [])

-- The buffers of the system, by their handles: MojoGetBufferInformation gives a size or fails, and
-- MapBuffer, of a handle and a size, works or not.
module _ (get_buffer_information : ℕ → Option ℕ) (map_buffer : ℕ → ℕ → Bool) where
  -- MappedSharedBuffer::Create.
  pub create_mapped : ℕ → ℕ → Option ℕ
  create_mapped handle size = if map_buffer handle size then some size else none

  -- SetBuffer, without a buffer.
  pub set_first_buffer : ℕ → ℕ → MediaPipe → MediaPipe × List Effect
  set_first_buffer handle callback p =
      elim (get_buffer_information handle) as (λ o. MediaPipe × List Effect) [
        | none ↦ reset_pipe p
        | some size ↦
            if size == 0 || ltb max_buffer_len size
            then reset_pipe p
            else elim (create_mapped handle size) as (λ o. MediaPipe × List Effect) [
              | none ↦ reset_pipe p
              | some mapped ↦ (record p { buffer = some mapped }, ran callback ∷ [])
            ]
      ]

  -- SetBuffer.
  pub set_buffer : ℕ → ℕ → MediaPipe → MediaPipe × List Effect
  set_buffer handle callback p = elim p.buffer as (λ o. MediaPipe × List Effect) [
    | some size ↦ reset_pipe p
    | none ↦ set_first_buffer handle callback p
  ]

-- What the loop of SendPacket logs before it gives up.
pub data RegionError : Type 0 where
  missing : ℕ → RegionError
  out_of_range : ℕ → RegionError

-- One round of the loop. The sum total_length is not used, and is left out.
pub check_region : ℕ → ℕ → Option PacketRegion → Option RegionError
check_region size i none = some (missing i)
check_region size i (some r) =
    if ltb size r.offset || ltb (size - r.offset) r.length then some (out_of_range i) else none

-- The loop of SendPacket, at the region `r` and with the extra regions from index `i` on left.
pub check_regions : ℕ → ℕ → Option PacketRegion → List (Option PacketRegion) → Option RegionError
check_regions size i r [] = check_region size i r
check_regions size i r (next ∷ rest) = elim (check_region size i r) as (λ o. Option RegionError) [
  | some e ↦ some e
  | none ↦ check_regions size (i + 1) next rest
]

-- The extra regions that the loop reads.
unfoldable pub extra_regions : MediaPacket → List (Option PacketRegion)
extra_regions packet = elim packet.extra_payload as (λ o. List (Option PacketRegion)) [
  | none ↦ []
  | some rs ↦ rs
]

-- The constructor of MediaPacketState.
abbrev pub packet_state : MediaPacket → ℕ → ℕ → PacketState
packet_state packet size callback = record {
  packet = packet;
  buffer = size;
  callback = callback;
  result = consumed;
}

-- SendPacket, with a buffer of the size.
pub send_in_buffer : ℕ → MediaPacket → ℕ → MediaPipe → MediaPipe × List Effect
send_in_buffer size packet callback p =
    elim (check_regions size 0 packet.payload (extra_regions packet))
      as (λ o. MediaPipe × List Effect) [
        | some e ↦ reset_pipe p
        | none ↦ (p, packet_received (packet_state packet size callback) ∷ [])
      ]

-- SendPacket.
pub send_packet : MediaPacket → ℕ → MediaPipe → MediaPipe × List Effect
send_packet packet callback p = elim p.buffer as (λ o. MediaPipe × List Effect) [
  | none ↦ reset_pipe p
  | some size ↦ send_in_buffer size packet callback p
]

-- Prime.
pub prime : ℕ → MediaPipe → MediaPipe × List Effect
prime callback p = (p, prime_requested callback ∷ [])

-- Flush, where OnFlushRequested gives `accepted`.
pub flush : Bool → ℕ → MediaPipe → MediaPipe × List Effect
flush accepted callback p = elim p.buffer as (λ o. MediaPipe × List Effect) [
  | none ↦ reset_pipe p
  | some size ↦
      if accepted
      then (p, flush_requested callback ∷ [])
      else (let (p', effects) = reset_pipe p in (p', flush_requested callback ∷ effects))
]

-- The exchange of SetResult: it happens where the result is CONSUMED.
pub exchange : SendResult → SendResult → SendResult
exchange consumed result = result
exchange flushed result = flushed

-- SetResult.
pub set_result : SendResult → PacketState → PacketState
set_result result s = record s { result = exchange s.result result }

-- The destructor of MediaPacketState.
pub destroy : PacketState → Effect
destroy s = answered s.callback s.result
