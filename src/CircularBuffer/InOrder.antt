-- ===== src/CircularBuffer/InOrder.antt =====
-- The calls that keep the packets in order.
use motown.Base.{
  ℕ, ◌+◌, ◌-◌, ◌^◌, ◌%◌, ◌≤◌, ◌<◌, ◌≡◌, refl, sym, ap, subst, ◌∙◌, Bool, false, ◌||◌, not,
  Option-cases, inl, inr, Option, some, none-ne-some, List, [], ◌∷◌, ◌++◌, arith, ltb, ◌==◌,
  if◌then◌else◌,
}
use mathlib.Core.List.{append_assoc}
use motown.MediaTypes.{MediaResult}
use motown.MediaPipe.{MediaPacket}
use motown.CircularBuffer.{
  InFlight, Adapter, Effect, sent, MappedPacket, u64, is_ok, update_signalled,
}
use motown.CircularBuffer.Packets.{
  Returned, mapped_packet, post_consume, alloc_start, send_unflushed, send_media_packet,
  reset_packet,
}
use motown.CircularBuffer.Signal.{update_signalled-SameRing}
use motown.CircularBuffer.Create.{
  room, padding, next_wr, next_wr_lem, moved, alloc_start_inside, alloc_start_below, next_wr_inside,
}
use motown.CircularBuffer.Order.{
  distance_from, Ascends, Ascends-weaken, Ascends-drop, Ascends-front, Ascends-last,
  Ascends-snoc_twice, Ascends-advance,
}
use motown.CircularBuffer.Sequence.{
  IsSequential, marks, ends, end_of, packet_end, SameRing-IsSequential, marks-append,
  AllMade-append, AllMade-front, ends-append, mapped_packet-IsMade, distance_grows,
}

-- The positions with those of a last packet apart.
marks_snoc :
    (n z : ℕ) (es : List ℕ) (ps : List MappedPacket) (p : MappedPacket)
    → es ++ (marks n (ps ++ (p ∷ [])) ++ (z ∷ []))
      ≡ (es ++ marks n ps) ++ (p.cancel_wr ∷ (end_of n p ∷ (z ∷ [])))
marks_snoc n z es ps p =
    ap (λ t. es ++ (t ++ (z ∷ []))) (marks-append n ps (p ∷ []))
    ∙ (ap (λ t. es ++ t) (append_assoc (marks n ps) (p.cancel_wr ∷ (end_of n p ∷ [])) (z ∷ []))
        ∙ sym (append_assoc es (marks n ps) (p.cancel_wr ∷ (end_of n p ∷ (z ∷ [])))))

pub created-IsSequential :
    (size : ℕ) (no_wrap : Bool) (a : Adapter) (ps : List MappedPacket)
    → IsSequential a ps
    → size < a.buffer_size
    → padding size no_wrap a + size ≤ room a
    → IsSequential
        (update_signalled (moved (u64 (alloc_start size no_wrap a + size) % a.buffer_size) a)).0
        (ps ++ (mapped_packet (alloc_start size no_wrap a) size a ∷ []))
unfolding mapped_packet
created-IsSequential size no_wrap a ps v small fits =
    let n = a.buffer_size in
    let start = alloc_start size no_wrap a in
    let p = mapped_packet start size a in
    let inside = alloc_start_inside size no_wrap a v.ready in
    let below = alloc_start_below size no_wrap a v.ready small in
    let wr = u64 (start + size) % n in
    let wr_is : wr ≡ next_wr (start + size) n =
      next_wr_lem (start + size) n v.ready.size_bound below in
    let next_inside : next_wr (start + size) n < n = next_wr_inside (start + size) n below in
    let (made, end_is) = mapped_packet-IsMade start size a inside small v.ready.size_bound in
    let grows = distance_grows size no_wrap a v.ready fits in
    let old : Ascends n a.rd 0 ((ends a.in_flight ++ marks n ps) ++ (a.wr ∷ [])) =
      subst (Ascends n a.rd 0) (sym (append_assoc (ends a.in_flight) (marks n ps) (a.wr ∷ [])))
        v.ordered in
    let longer =
      Ascends-snoc_twice n a.rd 0 (ends a.in_flight ++ marks n ps) a.wr (end_of n p) wr old
        (rw end_is next_inside) (rw wr_is next_inside) (rw end_is grows)
        (rw (end_is, wr_is) (omega arith)) in
    let same = update_signalled-SameRing (moved wr a) in
    SameRing-IsSequential (moved wr a) (update_signalled (moved wr a)).0 (ps ++ (p ∷ [])) same
      (record {
        ready = record {
          no_fault = v.ready.no_fault;
          not_busy = v.ready.not_busy;
          size_bound = v.ready.size_bound;
          rd_inside = v.ready.rd_inside;
          wr_inside = rw wr_is next_inside;
        };
        bound = v.bound;
        made = AllMade-append n a.flush_generation ps (p ∷ []) v.made (made, tt);
        ordered = subst (Ascends n a.rd 0) (sym (marks_snoc n wr (ends a.in_flight) ps p)) longer;
      })

-- SendMediaPacket of the oldest packet.
pub record Sends (callback : Option ℕ) (a : Adapter) (ps : List MappedPacket) (r : Option Returned)
    : Type 0 where
  pub packet : MappedPacket
  pub after_send : Adapter
  pub effects : List Effect
  pub returns : r ≡ some (MediaResult.ok, some packet, after_send, effects)
  pub in_order : IsSequential after_send ps

send_unflushed-Sends :
    (callback : Option ℕ) (p : MappedPacket) (m : MediaPacket) (post : ℕ) (a : Adapter)
    (ps : List MappedPacket)
    → IsSequential a (p ∷ ps)
    → p.packet ≡ some m
    → post_consume m ≡ some post
    → post ≤ a.buffer_size
    → p.flush_generation ≡ a.flush_generation
    → Sends callback a ps (send_unflushed callback p m post [] a)
unfolding send_unflushed
send_unflushed-Sends callback p m post a ps v filled consumed inside generation =
    let no_fault = v.ready.no_fault in
    let not_busy = v.ready.not_busy in
    let end = if post == a.buffer_size then 0 else post in
    let live : (not (is_ok a.internal_state) || not (p.flush_generation == a.flush_generation))
        ≡ false =
      ground arith in
    let fits : (a.flush_in_progress || ltb a.buffer_size post) ≡ false = ground arith in
    let end_is : end_of a.buffer_size p ≡ end = rw (filled, consumed) refl in
    let x : InFlight = record {
      post_consume_rd = end;
      seq_num = a.seq_num_gen;
      callback = callback;
    } in
    let b : Adapter = record a {
      seq_num_gen = (a.seq_num_gen + 1) % 2 ^ 32;
      in_flight = a.in_flight ++ (x ∷ []);
    } in
    let rest = marks a.buffer_size ps ++ (a.wr ∷ []) in
    let dropped : Ascends a.buffer_size a.rd 0 (ends a.in_flight ++ (end ∷ rest)) =
      subst (λ t. Ascends a.buffer_size a.rd 0 (ends a.in_flight ++ (t ∷ rest))) end_is
        (Ascends-drop a.buffer_size a.rd 0 (ends a.in_flight) p.cancel_wr
          (end_of a.buffer_size p ∷ rest) v.ordered) in
    let appended : ends (a.in_flight ++ (x ∷ [])) ++ rest ≡ ends a.in_flight ++ (end ∷ rest) =
      ap (λ t. t ++ rest) (ends-append a.in_flight (x ∷ []))
      ∙ append_assoc (ends a.in_flight) (end ∷ []) rest in
    record {
      packet = reset_packet p;
      after_send = b;
      effects = sent m a.seq_num_gen ∷ [];
      returns = rw (live, fits) refl;
      in_order = record {
        ready = record {
          no_fault = v.ready.no_fault;
          not_busy = v.ready.not_busy;
          size_bound = v.ready.size_bound;
          rd_inside = v.ready.rd_inside;
          wr_inside = v.ready.wr_inside;
        };
        bound = v.bound;
        made = v.made.1;
        ordered = subst (Ascends a.buffer_size a.rd 0) (sym appended) dropped;
      };
    }

-- With packets in order, the oldest one is sent.
pub send_media_packet-Sends :
    (callback : Option ℕ) (p : MappedPacket) (a : Adapter) (ps : List MappedPacket)
    → IsSequential a (p ∷ ps)
    → Sends callback a ps (send_media_packet callback p a)
unfolding send_media_packet send_unflushed reset_packet
send_media_packet-Sends callback p a ps v =
    let made = v.made.0 in
    elim (Option-cases p.packet) [
      | inl e ↦ absurd (none-ne-some (ap packet_end (sym e) ∙ made.consumed))
      | inr (m, e) ↦
          let consumed : post_consume m ≡ some made.post = ap packet_end (sym e) ∙ made.consumed in
          let bound = v.bound in
          let sends =
            send_unflushed-Sends callback p m made.post a ps v e consumed made.inside
              made.generation in
          let sends_is : send_media_packet callback p a
              ≡ send_unflushed callback p m made.post [] a =
            rw (e, consumed, bound, send_media_packet) refl in
          subst (Sends callback a ps) (sym sends_is) sends
    ]

pub cancelled-IsSequential :
    (p : MappedPacket) (a : Adapter) (ps : List MappedPacket)
    → IsSequential a (ps ++ (p ∷ []))
    → IsSequential (update_signalled (record a { wr = p.cancel_wr })).0 ps
cancelled-IsSequential p a ps v =
    let n = a.buffer_size in
    let front = ends a.in_flight ++ marks n ps in
    let moved_list : Ascends n a.rd 0 (front ++ (p.cancel_wr ∷ (end_of n p ∷ (a.wr ∷ [])))) =
      subst (Ascends n a.rd 0) (marks_snoc n a.wr (ends a.in_flight) ps p) v.ordered in
    let parted : Ascends n a.rd 0 ((front ++ (p.cancel_wr ∷ [])) ++ (end_of n p ∷ (a.wr ∷ []))) =
      subst (Ascends n a.rd 0)
        (sym (append_assoc front (p.cancel_wr ∷ []) (end_of n p ∷ (a.wr ∷ [])))) moved_list in
    let shorter =
      Ascends-front n a.rd 0 (front ++ (p.cancel_wr ∷ [])) (end_of n p ∷ (a.wr ∷ [])) parted in
    let (inside, far) = Ascends-last n a.rd 0 front p.cancel_wr shorter in
    let b = record a { wr = p.cancel_wr } in
    SameRing-IsSequential (moved p.cancel_wr a) (update_signalled (moved p.cancel_wr a)).0 ps
      (update_signalled-SameRing (moved p.cancel_wr a))
      (record {
        ready = record {
          no_fault = v.ready.no_fault;
          not_busy = v.ready.not_busy;
          size_bound = v.ready.size_bound;
          rd_inside = v.ready.rd_inside;
          wr_inside = inside;
        };
        bound = v.bound;
        made = (AllMade-front n a.flush_generation ps (p ∷ []) v.made).0;
        ordered =
            subst (Ascends n a.rd 0)
              (append_assoc (ends a.in_flight) (marks n ps) (p.cancel_wr ∷ [])) shorter;
      })

-- The adapter with a new read pointer, and without the packet that it comes from.
abbrev pub freed : ℕ → List InFlight → Adapter → Adapter
freed rd rest a = record a { rd = rd; in_flight = rest }

pub freed-IsSequential :
    (x : InFlight) (rest : List InFlight) (a : Adapter) (ps : List MappedPacket)
    → IsSequential a ps
    → a.in_flight ≡ x ∷ rest
    → IsSequential (freed x.post_consume_rd rest a) ps
freed-IsSequential x rest a ps v e =
    let n = a.buffer_size in
    let behind = ends rest ++ (marks n ps ++ (a.wr ∷ [])) in
    let (inside, far, h) : Ascends n a.rd 0 (x.post_consume_rd ∷ behind) =
      subst (λ t. Ascends n a.rd 0 (ends t ++ (marks n ps ++ (a.wr ∷ [])))) e v.ordered in
    let d = distance_from n a.rd x.post_consume_rd in
    let nearer =
      Ascends-advance n a.rd x.post_consume_rd d behind v.ready.rd_inside inside (omega arith) h in
    record {
      ready = record {
        no_fault = v.ready.no_fault;
        not_busy = v.ready.not_busy;
        size_bound = v.ready.size_bound;
        rd_inside = inside;
        wr_inside = v.ready.wr_inside;
      };
      bound = v.bound;
      made = v.made;
      ordered = Ascends-weaken n x.post_consume_rd (d - d) 0 behind (omega arith) nearer;
    }
