-- ===== src/CircularBuffer/Tests.antt =====
-- Runs of the adapter.
use motown.Base.{◌≡◌, refl, false, true, none, some, [], ◌∷◌, arith}
use motown.MediaTypes.{MediaResult}
use motown.MediaPipe.{SendResult, MediaPacket, no_timestamp}
use motown.CircularBuffer.{
  InFlight, Adapter, sent, set_buffer, MappedPacket, new_adapter, init_buffer, update_signalled,
  next_signalled, get_pending, fault,
}
use motown.CircularBuffer.Packets.{
  create_media_packet, allocate_from, alloc_start, mapped_packet, packet_regions, second_length,
  second_offset, send_media_packet, send_unflushed, post_consume, region_end, reset_packet,
}
use motown.CircularBuffer.Replies.{flush_adapter, handle_send_packet, handle_flush, dispatch_signal}
use motown.CircularBuffer.Create.{IsReady, Created, create_media_packet-Created}
use motown.CircularBuffer.Overrun.{Overruns, create_media_packet-Overruns}
use motown.CircularBuffer.Sequence.{IsSequential}
use motown.CircularBuffer.Use.{Answered, handle_send_packet-Answered}
use motown.CircularBuffer.History.{Reach, Step, Reach-IsSequential}
use motown.CircularBuffer.Faults.{IsShutDown, fault_silent, flush_breaks}

-- An adapter with a buffer of ten bytes.
abbrev opened : Adapter
opened = record {
  bound = true;
  signal_cbk = none;
  flush_in_progress = false;
  fault_cbk_made = false;
  cbk_scheduled = false;
  hi_water_mark = 0;
  lo_water_mark = 0;
  signalled = false;
  internal_state = MediaResult.ok;
  has_handle = true;
  mapped = true;
  buffer_size = 10;
  rd = 0;
  wr = 0;
  flush_generation = 0;
  seq_num_gen = 0;
  in_flight = [];
}

opens : init_buffer 10 true true true (new_adapter 0 0 0 0) ≡ some (opened, set_buffer ∷ [])
unfolding init_buffer new_adapter
opens = refl

-- Five bytes are pending, from the third position on.
abbrev filled : Adapter
filled = record opened { rd = 3; wr = 8 }

filled-IsReady : IsReady filled
filled-IsReady = record {
  no_fault = refl;
  not_busy = refl;
  size_bound = omega arith;
  rd_inside = omega arith;
  wr_inside = omega arith;
}

create_media_packet-Created_example : Created 4 filled (create_media_packet 4 false filled)
create_media_packet-Created_example =
    create_media_packet-Created 4 false filled filled-IsReady (omega arith)

create_media_packet-Overruns_example : Overruns 9 filled (create_media_packet 9 false filled)
create_media_packet-Overruns_example =
    create_media_packet-Overruns 9 filled filled-IsReady (omega arith) (omega arith) (omega arith)

-- Four bytes are allocated.
abbrev first_packet : MappedPacket
first_packet = record {
  packet = some (record {
    pts = no_timestamp;
    end_of_stream = false;
    payload = some (record { offset = 0; length = 4 });
    extra_payload = some [];
  });
  data_0 = some 0;
  data_1 = none;
  length_0 = 4;
  length_1 = 0;
  cancel_wr = 0;
  flush_generation = 0;
}

abbrev created : Adapter
created = record opened { wr = 4 }

creates_first :
    create_media_packet 4 false opened ≡ some (MediaResult.ok, some first_packet, created, [])
unfolding create_media_packet allocate_from alloc_start mapped_packet packet_regions second_length
    second_offset update_signalled next_signalled get_pending
creates_first = refl

abbrev in_flight : InFlight
in_flight = record { post_consume_rd = 4; seq_num = 0; callback = some 7 }

abbrev first_sent : Adapter
first_sent = record opened { wr = 4; seq_num_gen = 1; in_flight = in_flight ∷ [] }

abbrev first_media : MediaPacket
first_media = record {
  pts = no_timestamp;
  end_of_stream = false;
  payload = some (record { offset = 0; length = 4 });
  extra_payload = some [];
}

sends_first :
    send_media_packet (some 7) first_packet created
    ≡ some (MediaResult.ok, some (reset_packet first_packet), first_sent, sent first_media 0 ∷ [])
unfolding send_media_packet send_unflushed post_consume region_end reset_packet
sends_first = refl

first_sent-Reach : Reach first_sent []
first_sent-Reach =
    Reach.next
      (Reach.next (Reach.initialized 0 10 0 0 (omega arith) (omega arith) opens)
        (Step.creates 4 false (omega arith) creates_first))
      (Step.sends (some 7) first_packet [] refl sends_first)

Reach-IsSequential_example : IsSequential first_sent []
Reach-IsSequential_example = Reach-IsSequential first_sent-Reach

handle_send_packet-Answered_example :
    Answered in_flight [] SendResult.consumed first_sent
      (handle_send_packet 0 SendResult.consumed first_sent)
handle_send_packet-Answered_example =
    handle_send_packet-Answered in_flight [] SendResult.consumed first_sent []
      (Reach-IsSequential first_sent-Reach) refl

fault_silent_example :
    ((fault MediaResult.connection_lost filled).0.internal_state ≡ MediaResult.shutting_down)
    × ((dispatch_signal
          (record (fault MediaResult.connection_lost filled).0 { cbk_scheduled = false })).1
        ≡ [])
fault_silent_example = fault_silent MediaResult.connection_lost filled refl

flush_breaks_example :
    ((flush_adapter first_sent).0 ≡ MediaResult.ok)
    × (handle_flush (flush_adapter first_sent).1 ≡ none)
    × IsShutDown (handle_send_packet 0 SendResult.flushed (flush_adapter first_sent).1).0
flush_breaks_example = flush_breaks 0 SendResult.flushed first_sent refl refl
