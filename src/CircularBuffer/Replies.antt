-- ===== src/CircularBuffer/Replies.antt =====
-- Flush, and what the adapter does when the other end and the run loop call back.
use motown.Base.{
  ℕ, ◌+◌, ◌%◌, ◌^◌, true, false, ◌&&◌, ◌||◌, not, Option, none, some, List, [], ◌∷◌, ltb, leb, ◌==◌,
  if◌then◌else◌,
}
use motown.MediaTypes.{MediaResult}
use motown.MediaPipe.{SendResult}
use motown.CircularBuffer.{
  InFlight, Adapter, Effect, flush_sent, answered, signalled_client, Done, u64, is_ok,
  update_signalled, after, fault,
}

-- Flush.
unfoldable pub flush_adapter : Adapter → MediaResult × Adapter × List Effect
flush_adapter a =
    if not (is_ok a.internal_state)
    then (MediaResult.internal_error, a, [])
    else if a.flush_in_progress
    then (MediaResult.busy, a, [])
    else (
      MediaResult.ok,
      record a {
        in_flight = [];
        rd = 0;
        wr = 0;
        flush_in_progress = true;
        flush_generation = (a.flush_generation + 1) % 2 ^ 32;
      },
      flush_sent ∷ [],
    )

-- The end of HandleSendPacket.
unfoldable pub run_callback : Option ℕ → SendResult → List Effect
run_callback none result = []
run_callback (some cbk) result = answered cbk result ∷ []

-- HandleSendPacket from the new read pointer on.
unfoldable pub advance_rd : ℕ → Adapter → Done
advance_rd new_rd a =
    let new_rd_non_modulo = u64 (new_rd + (if ltb new_rd a.rd then a.buffer_size else 0)) in
    let wr_non_modulo = u64 (a.wr + (if ltb a.wr a.rd then a.buffer_size else 0)) in
    if a.flush_in_progress
    then (a, [])
    else if leb a.rd new_rd_non_modulo && leb new_rd_non_modulo wr_non_modulo
    then update_signalled (record a { rd = new_rd })
    else fault MediaResult.unknown_error a

unfoldable pub handle_front : ℕ → SendResult → List InFlight → Adapter → Done
handle_front seq_num result [] a = fault MediaResult.unknown_error a
handle_front seq_num result (x ∷ rest) a =
    if x.seq_num == seq_num
    then after (λ b. (b, run_callback x.callback result))
        (advance_rd x.post_consume_rd (record a { in_flight = rest }))
    else fault MediaResult.unknown_error a

-- HandleSendPacket.
unfoldable pub handle_send_packet : ℕ → SendResult → Adapter → Done
handle_send_packet seq_num result a = handle_front seq_num result a.in_flight a

-- HandleFlush from its second check on; an empty deque has no front to pop.
unfoldable pub flush_done : List InFlight → Adapter → Option Done
flush_done [] a = none
flush_done (x ∷ rest) a =
    some
      (update_signalled (record a { rd = 0; wr = 0; in_flight = rest; flush_in_progress = false }))

-- HandleFlush.
unfoldable pub handle_flush : Adapter → Option Done
handle_flush a =
    if not (is_ok a.internal_state)
    then some (a, [])
    else if not a.flush_in_progress
    then some (fault MediaResult.protocol_error a)
    else flush_done a.in_flight a

-- HandleSignalCallback from its first test on.
unfoldable pub call_client : Option ℕ → Adapter → Done
call_client none a = (a, [])
call_client (some cbk) a = (
  record a { fault_cbk_made = not (is_ok a.internal_state) || a.fault_cbk_made },
  signalled_client cbk a.internal_state ∷ [],
)

unfoldable pub dispatch_signal : Adapter → Done
dispatch_signal a =
    if a.fault_cbk_made || not a.signalled then (a, []) else call_client a.signal_cbk a

-- HandleSignalCallback.
unfoldable pub handle_signal_callback : Adapter → Option Done
handle_signal_callback a =
    if a.cbk_scheduled then some (dispatch_signal (record a { cbk_scheduled = false })) else none
