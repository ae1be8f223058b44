-- ===== src/CircularBuffer/History.antt =====
-- The adapter over a history of calls and answers.
use motown.Base.{
  ℕ, ◌+◌, ◌^◌, ◌≤◌, ◌<◌, ◌≡◌, refl, sym, ap, subst, ◌∙◌, Bool, true, false, ◌||◌, not, Option, none,
  some, some_injective, none-ne-some, Bool-cases, inl, inr, List, [], ◌∷◌, ◌++◌, arith,
}
use motown.MediaTypes.{MediaResult}
use motown.MediaPipe.{SendResult}
use motown.CircularBuffer.{
  InFlight, Adapter, Effect, MappedPacket, is_ok, update_signalled, new_adapter, init_buffer,
  set_watermarks, set_signal_callback,
}
use motown.CircularBuffer.Packets.{
  create_media_packet, send_media_packet, cancel_live, cancel_media_packet, mapped_packet,
  alloc_start,
}
use motown.CircularBuffer.Replies.{
  handle_send_packet, call_client, dispatch_signal, handle_signal_callback,
}
use motown.CircularBuffer.Signal.{
  SameRing, SameRing-signal, SameRing-trans, set_watermarks-SameRing, set_signal_callback-SameRing,
}
use motown.CircularBuffer.Create.{
  IsReady, room, padding, moved, create_media_packet_allocates, allocate_from_fits,
}
use motown.CircularBuffer.Sequence.{IsSequential, SameRing-IsSequential}
use motown.CircularBuffer.InOrder.{
  created-IsSequential, send_media_packet-Sends, cancelled-IsSequential,
}
use motown.CircularBuffer.Use.{answered-IsSequential}

-- A client that creates packets where there is room, sends the oldest of them or cancels the newest,
-- while the other end answers the packets in order and the run loop calls back. The second argument is
-- the packets that are created and not yet sent or cancelled.
pub data Step (a : Adapter) (ps : List MappedPacket) : Adapter → List MappedPacket → Type 0 where
  creates :
      (size : ℕ) (no_wrap : Bool) {p : MappedPacket} {b : Adapter} {es : List Effect}
      → padding size no_wrap a + size ≤ room a
      → create_media_packet size no_wrap a ≡ some (MediaResult.ok, some p, b, es)
      → Step a ps b (ps ++ (p ∷ []))
  sends :
      (callback : Option ℕ) (p : MappedPacket) (rest : List MappedPacket) {q : Option MappedPacket}
      {b : Adapter} {es : List Effect}
      → ps ≡ p ∷ rest
      → send_media_packet callback p a ≡ some (MediaResult.ok, q, b, es)
      → Step a ps b rest
  cancels :
      (p : MappedPacket) (rest : List MappedPacket) {q : Option MappedPacket} {b : Adapter}
      {es : List Effect}
      → ps ≡ rest ++ (p ∷ [])
      → cancel_media_packet p a ≡ some (MediaResult.ok, q, b, es)
      → Step a ps b rest
  answers :
      (x : InFlight) (rest : List InFlight) (result : SendResult)
      → a.in_flight ≡ x ∷ rest
      → Step a ps (handle_send_packet x.seq_num result a).0 ps
  signals :
      {b : Adapter} {es : List Effect} → handle_signal_callback a ≡ some (b, es) → Step a ps b ps
  sets_watermarks : (hi lo : ℕ) → Step a ps (set_watermarks hi lo a).0 ps
  sets_callback : (cbk : Option ℕ) → Step a ps (set_signal_callback cbk a).0 ps

-- The states from Init on, where the constructor's memory has equal pointers in the buffer.
pub data Reach : Adapter → List MappedPacket → Type 0 where
  initialized :
      (at size generation seq : ℕ) {b : Adapter} {es : List Effect}
      → at < size
      → size ≤ 2 ^ 63
      → init_buffer size true true true (new_adapter at at generation seq) ≡ some (b, es)
      → Reach b []
  next : {a b : Adapter} {ps qs : List MappedPacket} → Reach a ps → Step a ps b qs → Reach b qs

initialized-IsSequential :
    (at size generation seq : ℕ) (b : Adapter) (es : List Effect)
    → at < size
    → size ≤ 2 ^ 63
    → init_buffer size true true true (new_adapter at at generation seq) ≡ some (b, es)
    → IsSequential b []
unfolding init_buffer new_adapter
initialized-IsSequential at size generation seq b es lt bound e =
    subst (λ t. IsSequential t []) (ap (λ t. t.0) (some_injective e))
      (record {
        ready = record {
          no_fault = refl;
          not_busy = refl;
          size_bound = bound;
          rd_inside = lt;
          wr_inside = lt;
        };
        bound = refl;
        made = tt;
        ordered = (lt, omega arith, tt);
      })

creates-IsSequential :
    (size : ℕ) (no_wrap : Bool) (a b : Adapter) (p : MappedPacket) (es : List Effect)
    (ps : List MappedPacket)
    → IsSequential a ps
    → padding size no_wrap a + size ≤ room a
    → create_media_packet size no_wrap a ≡ some (MediaResult.ok, some p, b, es)
    → IsSequential b (ps ++ (p ∷ []))
creates-IsSequential size no_wrap a b p es ps v fits e =
    let f = v.ready.rd_inside in
    let small : size < a.buffer_size = ground arith in
    let made = some_injective (
      sym (
        create_media_packet_allocates size no_wrap a v.ready small
        ∙ allocate_from_fits size no_wrap a v.ready small fits)
      ∙ e) in
    let same_packet = some_injective (ap (λ t. t.1) made) in
    subst (λ t. IsSequential b (ps ++ (t ∷ []))) same_packet
      (subst (λ t. IsSequential t (ps ++ (mapped_packet (alloc_start size no_wrap a) size a ∷ [])))
        (ap (λ t. t.2) made) (created-IsSequential size no_wrap a ps v small fits))

sends-IsSequential :
    (callback : Option ℕ) (p : MappedPacket) (a b : Adapter) (q : Option MappedPacket)
    (es : List Effect) (rest : List MappedPacket)
    → IsSequential a (p ∷ rest)
    → send_media_packet callback p a ≡ some (MediaResult.ok, q, b, es)
    → IsSequential b rest
sends-IsSequential callback p a b q es rest v e =
    let s = send_media_packet-Sends callback p a rest v in
    subst (λ t. IsSequential t rest) (ap (λ t. t.2) (some_injective (sym s.returns ∙ e))) s.in_order

-- A packet that was not sent is cancelled.
cancel_is :
    (p : MappedPacket) (a b : Adapter) (q : Option MappedPacket) (es : List Effect)
    → IsReady a
    → cancel_media_packet p a ≡ some (MediaResult.ok, q, b, es)
    → (update_signalled (moved p.cancel_wr a)).0 ≡ b
unfolding cancel_media_packet cancel_live
cancel_is p a b q es v e = let no_fault = v.no_fault in let not_busy = v.not_busy in ground arith

call_client-SameRing : (cbk : Option ℕ) (a : Adapter) → SameRing a (call_client cbk a).0
unfolding call_client
call_client-SameRing none a = SameRing-signal a a.signalled a.cbk_scheduled a.fault_cbk_made
call_client-SameRing (some cbk) a =
    SameRing-signal a a.signalled a.cbk_scheduled (not (is_ok a.internal_state) || a.fault_cbk_made)

dispatch_signal-SameRing : (a : Adapter) → SameRing a (dispatch_signal a).0
unfolding dispatch_signal
dispatch_signal-SameRing a = elim (Bool-cases (a.fault_cbk_made || not a.signalled)) [
  | inl e ↦ rw e (SameRing-signal a a.signalled a.cbk_scheduled a.fault_cbk_made)
  | inr ne ↦ rw ne (call_client-SameRing a.signal_cbk a)
]

handle_signal_callback-SameRing :
    (a b : Adapter) (es : List Effect) → handle_signal_callback a ≡ some (b, es) → SameRing a b
unfolding handle_signal_callback
handle_signal_callback-SameRing a b es e = elim (Bool-cases a.cbk_scheduled) [
  | inl yet ↦
      let c = record a { cbk_scheduled = false } in
      let done : some (dispatch_signal c) ≡ some (b, es) = rw yet at e in
      subst (SameRing a) (ap (λ t. t.0) (some_injective done)) (
        SameRing-trans a (record a { cbk_scheduled = false })
          (dispatch_signal (record a { cbk_scheduled = false })).0
          (SameRing-signal a a.signalled false a.fault_cbk_made)
          (dispatch_signal-SameRing (record a { cbk_scheduled = false })))
  | inr not_yet ↦ absurd (none-ne-some (rw not_yet at e))
]

Step-IsSequential :
    {a b : Adapter} {ps qs : List MappedPacket}
    → Step a ps b qs
    → IsSequential a ps
    → IsSequential b qs
Step-IsSequential {a} {ps} (Step.creates size no_wrap {p} {b} {es} fits e) v =
    creates-IsSequential size no_wrap a b p es ps v fits e
Step-IsSequential {a} (Step.sends callback p rest {q} {b} {es} oldest e) v =
    sends-IsSequential callback p a b q es rest (subst (IsSequential a) oldest v) e
Step-IsSequential {a} (Step.cancels p rest {q} {b} {es} newest e) v =
    let w : IsSequential a (rest ++ (p ∷ [])) = subst (IsSequential a) newest v in
    subst (λ t. IsSequential t rest) (cancel_is p a b q es w.ready e)
      (cancelled-IsSequential p a rest w)
Step-IsSequential {a} {ps} (Step.answers x rest result e) v =
    answered-IsSequential x rest result a ps v e
Step-IsSequential {a} {ps} (Step.signals {b} {es} e) v =
    SameRing-IsSequential a b ps (handle_signal_callback-SameRing a b es e) v
Step-IsSequential {a} {ps} (Step.sets_watermarks hi lo) v =
    SameRing-IsSequential a (set_watermarks hi lo a).0 ps (set_watermarks-SameRing hi lo a) v
Step-IsSequential {a} {ps} (Step.sets_callback cbk) v =
    SameRing-IsSequential a (set_signal_callback cbk a).0 ps (set_signal_callback-SameRing cbk a) v

-- From Init on, with a constructor whose memory has equal pointers in the buffer, where a client
-- creates packets for which there is room, sends the oldest or cancels the newest, and sets
-- callbacks and water marks, and the other end answers the packets in order: the adapter takes
-- packets and its pipe is bound; and from the read pointer on come the ends of the packets in
-- flight, the starts and ends of those that are not sent, and the write pointer, each no nearer
-- than the one before.
pub Reach-IsSequential : {a : Adapter} {ps : List MappedPacket} → Reach a ps → IsSequential a ps
Reach-IsSequential (Reach.initialized at size generation seq {b} {es} lt bound e) =
    initialized-IsSequential at size generation seq b es lt bound e
Reach-IsSequential (Reach.next r s) = Step-IsSequential s (Reach-IsSequential r)
