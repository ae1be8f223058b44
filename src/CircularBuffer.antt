-- ===== src/CircularBuffer.antt =====
-- CircularBufferMediaPipeAdapter of
-- mojo/services/media/common/cpp/circular_buffer_media_pipe_adapter.{h,cc}. A failed check that
-- has no other answer, a null pointer that is followed and other undefined behaviour are `none`.
pub mod Packets
pub mod Replies
pub mod Signal
pub mod Create
pub mod Overrun
pub mod Order
pub mod Sequence
pub mod InOrder
pub mod Use
pub mod History
pub mod Faults
mod Tests
use motown.Base.{
  ℕ, ◌+◌, ◌-◌, ◌%◌, ◌^◌, Bool, true, false, ◌&&◌, ◌||◌, not, Option, none, some, List, [], ◌∷◌,
  ◌++◌, ltb, leb, ◌==◌, if◌then◌else◌,
}
use motown.MediaTypes.{MediaResult}
use motown.MediaPipe.{PacketRegion, MediaPacket, SendResult}

-- PacketState. A callback is a number, and may be null.
pub record InFlight : Type 0 where
  pub post_consume_rd : ℕ
  pub seq_num : ℕ
  pub callback : Option ℕ

-- MappedPacket. A pointer into the buffer is an offset, and may be null.
pub record MappedPacket : Type 0 where
  pub packet : Option MediaPacket
  pub data_0 : Option ℕ
  pub data_1 : Option ℕ
  pub length_0 : ℕ
  pub length_1 : ℕ
  pub cancel_wr : ℕ
  pub flush_generation : ℕ

-- The adapter: whether pipe_ is bound, buffer_handle_ valid and buffer_ mapped, and the rest.
pub record Adapter : Type 0 where
  pub bound : Bool
  pub signal_cbk : Option ℕ
  pub flush_in_progress : Bool
  pub fault_cbk_made : Bool
  pub cbk_scheduled : Bool
  pub hi_water_mark : ℕ
  pub lo_water_mark : ℕ
  pub signalled : Bool
  pub internal_state : MediaResult
  pub has_handle : Bool
  pub mapped : Bool
  pub buffer_size : ℕ
  pub rd : ℕ
  pub wr : ℕ
  pub flush_generation : ℕ
  pub seq_num_gen : ℕ
  pub in_flight : List InFlight

-- What an operation does to others, in order.
pub data Effect : Type 0 where
  closed set_buffer flush_sent posted : Effect
  sent : MediaPacket → ℕ → Effect
  answered : ℕ → SendResult → Effect
  signalled_client : ℕ → MediaResult → Effect

abbrev pub Done : Type 0
Done = Adapter × List Effect

abbrev pub u64 : ℕ → ℕ
u64 n = n % 2 ^ 64

abbrev pub is_ok : MediaResult → Bool
is_ok MediaResult.ok = true
is_ok _ = false

-- The constructor, for what it leaves in the members that nothing initializes.
pub new_adapter : ℕ → ℕ → ℕ → ℕ → Adapter
new_adapter rd wr flush_generation seq_num_gen = record {
  bound = true;
  signal_cbk = none;
  flush_in_progress = false;
  fault_cbk_made = false;
  cbk_scheduled = false;
  hi_water_mark = 0;
  lo_water_mark = 0;
  signalled = false;
  internal_state = MediaResult.ok;
  has_handle = false;
  mapped = false;
  buffer_size = 0;
  rd = rd;
  wr = wr;
  flush_generation = flush_generation;
  seq_num_gen = seq_num_gen;
  in_flight = [];
}

-- GetPending.
pub get_pending : Adapter → ℕ
get_pending a =
    if a.mapped
    then u64 (u64 (a.wr + 2 ^ 64 - a.rd) + (if ltb a.wr a.rd then a.buffer_size else 0))
    else 0

-- Whether UpdateSignalled leaves the adapter signalled.
pub next_signalled : Adapter → Bool
next_signalled a =
    if not (is_ok a.internal_state)
    then true
    else if a.flush_in_progress
    then false
    else if not a.signalled && ltb (get_pending a) a.lo_water_mark
    then true
    else if a.signalled && leb a.hi_water_mark (get_pending a)
    then false
    else a.signalled

-- UpdateSignalled.
pub update_signalled : Adapter → Done
update_signalled a =
    if next_signalled a && not a.cbk_scheduled && not a.fault_cbk_made
    then (record a { signalled = next_signalled a; cbk_scheduled = true }, posted ∷ [])
    else (record a { signalled = next_signalled a }, [])

-- Cleanup, where UnmapBuffer succeeds.
pub cleanup : Adapter → Done
cleanup a = (
  record a {
    bound = false;
    mapped = false;
    has_handle = false;
    rd = 0;
    wr = 0;
    in_flight = [];
    signal_cbk = none;
    internal_state = MediaResult.shutting_down;
  },
  if a.bound then closed ∷ [] else [],
)

-- One operation after another.
pub after : (Adapter → Done) → Done → Done
after f (a, es) = let (b, fs) = f a in (b, es ++ fs)

-- Fault.
pub fault : MediaResult → Adapter → Done
fault reason a =
    if is_ok a.internal_state
    then after update_signalled (cleanup (record a { internal_state = reason }))
    else update_signalled a

-- Init, for whether the buffer is created, mapped and duplicated.
pub init_buffer : ℕ → Bool → Bool → Bool → Adapter → Option Done
init_buffer size created mapped duplicated a =
    let b = record a { has_handle = true; buffer_size = size } in
    let c = record b { mapped = true } in
    if a.has_handle
    then some (if a.buffer_size == size then (a, []) else fault MediaResult.bad_state a)
    else if not created
    then some (fault MediaResult.insufficient_resources a)
    else if not mapped
    then some (fault MediaResult.unknown_error b)
    else if not duplicated
    then some (fault MediaResult.unknown_error c)
    else if a.bound
    then some (c, set_buffer ∷ [])
    else none

-- SetSignalCallback.
pub set_signal_callback : Option ℕ → Adapter → Done
set_signal_callback none a = (record a { signal_cbk = none }, [])
set_signal_callback (some cbk) a = update_signalled (record a { signal_cbk = some cbk })

-- SetWatermarks.
pub set_watermarks : ℕ → ℕ → Adapter → Done
set_watermarks hi lo a =
    if ltb hi lo
    then (a, [])
    else update_signalled (record a { hi_water_mark = hi; lo_water_mark = lo })
