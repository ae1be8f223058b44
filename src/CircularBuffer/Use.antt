-- ===== src/CircularBuffer/Use.antt =====
-- An adapter that a client uses in order, over its calls and the answers.
use motown.Base.{
  ℕ, ◌+◌, ◌^◌, ◌≤◌, ◌<◌, ◌≡◌, refl, sym, ap, subst, ◌∙◌, Bool, true, false, ◌&&◌, List, [], ◌∷◌,
  ◌++◌, arith, ltb, leb, ◌==◌, if◌then◌else◌,
}
use motown.MediaTypes.{MediaResult}
use motown.MediaPipe.{SendResult}
use motown.CircularBuffer.{
  InFlight, Adapter, Effect, MappedPacket, Done, u64, update_signalled, after,
}
use motown.CircularBuffer.Replies.{advance_rd, handle_front, handle_send_packet, run_callback}
use motown.CircularBuffer.Signal.{update_signalled-SameRing}
use motown.CircularBuffer.Order.{distance_from, Ascends, Ascends-end}
use motown.CircularBuffer.Sequence.{IsSequential, marks, ends, SameRing-IsSequential}
use motown.CircularBuffer.InOrder.{freed, freed-IsSequential}

-- The answer to the front packet: no fault, the bytes up to the packet's end are free, and its
-- callback is run.
pub record Answered (x : InFlight) (rest : List InFlight) (result : SendResult) (a : Adapter)
    (r : Done) : Type 0 where
  pub no_fault : r.0.internal_state ≡ MediaResult.ok
  pub rd_moved : r.0.rd ≡ x.post_consume_rd
  pub wr_same : r.0.wr ≡ a.wr
  pub popped : r.0.in_flight ≡ rest
  pub signals : List Effect
  pub called : r.1 ≡ signals ++ run_callback x.callback result

within_ring :
    (n rd wr new_rd : ℕ)
    → n ≤ 2 ^ 63
    → rd < n
    → wr < n
    → new_rd < n
    → distance_from n rd new_rd ≤ distance_from n rd wr
    → (leb rd (u64 (new_rd + (if ltb new_rd rd then n else 0)))
        && leb
            (u64 (new_rd + (if ltb new_rd rd then n else 0)))
            (u64 (wr + (if ltb wr rd then n else 0))))
      ≡ true
within_ring n rd wr new_rd bound a b c le = ground arith

second_branch {ℓ} :
    {A : Type ℓ} {b c : Bool} (x : A) {y : A} (z : A)
    → b ≡ false
    → c ≡ true
    → (if b then x else (if c then y else z)) ≡ y
second_branch x z e f = rw (e, f) refl

answer_advances :
    (x : InFlight) (rest : List InFlight) (a : Adapter) (ps : List MappedPacket)
    → IsSequential a ps
    → a.in_flight ≡ x ∷ rest
    → advance_rd x.post_consume_rd (record a { in_flight = rest })
      ≡ update_signalled (freed x.post_consume_rd rest a)
unfolding advance_rd
answer_advances x rest a ps v e =
    let n = a.buffer_size in
    let (inside, far, h) : Ascends n a.rd 0
        (x.post_consume_rd ∷ (ends rest ++ (marks n ps ++ (a.wr ∷ [])))) =
      subst (λ t. Ascends n a.rd 0 (ends t ++ (marks n ps ++ (a.wr ∷ [])))) e v.ordered in
    let far_end =
      Ascends-end n a.rd (distance_from n a.rd x.post_consume_rd) (ends rest) (marks n ps) a.wr h in
    second_branch _ _ v.ready.not_busy (
      within_ring n a.rd a.wr x.post_consume_rd v.ready.size_bound v.ready.rd_inside
        v.ready.wr_inside inside far_end)

front_is :
    (x : InFlight) (rest : List InFlight) (result : SendResult) (a : Adapter)
    → handle_front x.seq_num result (x ∷ rest) a
      ≡ after
          (λ b. (b, run_callback x.callback result))
          (advance_rd x.post_consume_rd (record a { in_flight = rest }))
unfolding handle_front
front_is x rest result a = let same : (x.seq_num == x.seq_num) ≡ true = ground arith in rw same refl

answer_is :
    (x : InFlight) (rest : List InFlight) (result : SendResult) (a : Adapter)
    (ps : List MappedPacket)
    → IsSequential a ps
    → a.in_flight ≡ x ∷ rest
    → handle_send_packet x.seq_num result a
      ≡ after
          (λ b. (b, run_callback x.callback result))
          (update_signalled (freed x.post_consume_rd rest a))
unfolding handle_send_packet
answer_is x rest result a ps v e =
    ap (λ t. handle_front x.seq_num result t a) e
    ∙ (front_is x rest result a
        ∙ ap (after (λ b. (b, run_callback x.callback result))) (answer_advances x rest a ps v e))

-- In an adapter whose packets are in order, the answer to the packet at the front of the queue is
-- no fault: the read pointer moves to the end of the packet, the packet leaves the queue, the
-- write pointer stays, and its callback is run with the result.
pub handle_send_packet-Answered :
    (x : InFlight) (rest : List InFlight) (result : SendResult) (a : Adapter)
    (ps : List MappedPacket)
    → IsSequential a ps
    → a.in_flight ≡ x ∷ rest
    → Answered x rest result a (handle_send_packet x.seq_num result a)
unfolding after
handle_send_packet-Answered x rest result a ps v e =
    let b = freed x.post_consume_rd rest a in
    let same = update_signalled-SameRing b in
    subst (Answered x rest result a) (sym (answer_is x rest result a ps v e)) (record {
      no_fault = same.state_same ∙ v.ready.no_fault;
      rd_moved = same.rd_same;
      wr_same = same.wr_same;
      popped = same.in_flight_same;
      signals = (update_signalled b).1;
      called = refl;
    })

pub answered-IsSequential :
    (x : InFlight) (rest : List InFlight) (result : SendResult) (a : Adapter)
    (ps : List MappedPacket)
    → IsSequential a ps
    → a.in_flight ≡ x ∷ rest
    → IsSequential (handle_send_packet x.seq_num result a).0 ps
unfolding after
answered-IsSequential x rest result a ps v e =
    let b = freed x.post_consume_rd rest a in
    subst (λ r. IsSequential r.0 ps) (sym (answer_is x rest result a ps v e))
      (SameRing-IsSequential b (update_signalled b).0 ps (update_signalled-SameRing b)
        (freed-IsSequential x rest a ps v e))
