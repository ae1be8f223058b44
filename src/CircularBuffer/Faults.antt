-- ===== src/CircularBuffer/Faults.antt =====
-- The fault state, and how a flush leads to it.
use motown.Base.{
  ℕ, ◌+◌, ◌%◌, ◌^◌, ◌∷◌, ◌≡◌, refl, sym, subst, true, false, ◌&&◌, ◌||◌, not, Bool-cases, inl, inr,
  none, [], arith,
}
use motown.MediaTypes.{MediaResult}
use motown.MediaPipe.{SendResult}
use motown.CircularBuffer.{
  Adapter, flush_sent, is_ok, next_signalled, update_signalled, cleanup, after, fault,
}
use motown.CircularBuffer.Replies.{
  flush_adapter, handle_front, handle_send_packet, flush_done, handle_flush, call_client,
  dispatch_signal,
}
use motown.CircularBuffer.Signal.{update_signalled-SameRing}

-- An adapter that is shut down: the pipe is closed, the buffer is unmapped, and there is no callback.
pub record IsShutDown (a : Adapter) : Type 0 where
  pub state : a.internal_state ≡ MediaResult.shutting_down
  pub closed : a.bound ≡ false
  pub unmapped : a.mapped ≡ false
  pub no_callback : a.signal_cbk ≡ none

update_signalled_callback : (a : Adapter) → (update_signalled a).0.signal_cbk ≡ a.signal_cbk
unfolding update_signalled
update_signalled_callback a =
    elim (Bool-cases (next_signalled a && not a.cbk_scheduled && not a.fault_cbk_made)) [
      | inl e ↦ rw e refl
      | inr ne ↦ rw ne refl
    ]

fault_is :
    (reason : MediaResult) (a : Adapter)
    → a.internal_state ≡ MediaResult.ok
    → (fault reason a).0 ≡ (update_signalled (cleanup (record a { internal_state = reason })).0).0
unfolding fault after
fault_is reason a e = let live : is_ok a.internal_state ≡ true = rw e refl in rw live refl

-- Fault shuts the adapter down, whatever the reason.
pub fault-IsShutDown :
    (reason : MediaResult) (a : Adapter)
    → a.internal_state ≡ MediaResult.ok
    → IsShutDown (fault reason a).0
unfolding cleanup
fault-IsShutDown reason a e =
    let c = (cleanup (record a { internal_state = reason })).0 in
    let same = update_signalled-SameRing c in
    subst IsShutDown (sym (fault_is reason a e)) (record {
      state = same.state_same;
      closed = same.bound_same;
      unmapped = same.mapped_same;
      no_callback = update_signalled_callback c;
    })

-- Fault, on an adapter that is not faulted, leaves it in the state SHUTTING_DOWN whatever the
-- reason is, and the signal callback that follows calls nobody.
pub fault_silent :
    (reason : MediaResult) (a : Adapter)
    → a.internal_state ≡ MediaResult.ok
    → ((fault reason a).0.internal_state ≡ MediaResult.shutting_down)
      × ((dispatch_signal (record (fault reason a).0 { cbk_scheduled = false })).1 ≡ [])
unfolding dispatch_signal call_client
fault_silent reason a e =
    let down = fault-IsShutDown reason a e in
    let b = (fault reason a).0 in
    let no_callback = down.no_callback in
    (
      down.state,
      elim (Bool-cases (b.fault_cbk_made || not b.signalled)) [
        | inl quiet ↦ rw quiet refl
        | inr calls ↦ rw (calls, no_callback) refl
      ],
    )

-- On an adapter that is not faulted and not flushing, Flush returns OK, and then HandleFlush pops
-- the front of an empty queue, and every answer to a packet shuts the adapter down: its pipe is
-- closed, its buffer unmapped and its callback dropped.
pub flush_breaks :
    (seq_num : ℕ) (result : SendResult) (a : Adapter)
    → a.internal_state ≡ MediaResult.ok
    → a.flush_in_progress ≡ false
    → ((flush_adapter a).0 ≡ MediaResult.ok)
      × (handle_flush (flush_adapter a).1 ≡ none)
      × IsShutDown (handle_send_packet seq_num result (flush_adapter a).1).0
unfolding flush_adapter handle_flush flush_done handle_send_packet handle_front
flush_breaks seq_num result a no_fault not_busy =
    let live : is_ok a.internal_state ≡ true = rw no_fault refl in
    let b : Adapter = record a {
      in_flight = [];
      rd = 0;
      wr = 0;
      flush_in_progress = true;
      flush_generation = (a.flush_generation + 1) % 2 ^ 32;
    } in
    let flushed : flush_adapter a ≡ (MediaResult.ok, b, flush_sent ∷ []) = ground arith in
    rw flushed (refl, rw live refl, fault-IsShutDown MediaResult.unknown_error b no_fault)
