-- ===== src/MediaPipe/Packets.antt =====
-- SendPacket against a description of the packets that a buffer holds.
use motown.Base.{
  ℕ, ◌+◌, ◌≤◌, ◌≡◌, ◌∙◌, ◌⊎◌, inl, inr, Option, none, some, List, [], ◌∷◌, arith, Option-cases,
}
use motown.MediaPipe.{
  PacketRegion, MediaPacket, MediaPipe, packet_received, packet_state, reset_pipe, check_region,
  check_regions, extra_regions, send_in_buffer, send_packet,
}

-- A region that is present, and lies in a buffer of the size.
abbrev pub Fits : ℕ → Option PacketRegion → Type 0
Fits size none = ⊥
Fits size (some r) = r.offset + r.length ≤ size

abbrev pub AllFit : ℕ → List (Option PacketRegion) → Type 0
AllFit size [] = Unit
AllFit size (r ∷ rs) = Fits size r × AllFit size rs

-- A packet all of whose regions lie in the buffer.
abbrev pub Accepts : ℕ → MediaPacket → Type 0
Accepts size packet = Fits size packet.payload × AllFit size (extra_regions packet)

pub Fits-check_region :
    (size i : ℕ) (r : Option PacketRegion) → check_region size i r ≡ none → Fits size r
unfolding check_region
Fits-check_region size i none h = cc
Fits-check_region size i (some r) h = ground arith

check_region-Fits :
    (size i : ℕ) (r : Option PacketRegion) → Fits size r → check_region size i r ≡ none
unfolding check_region
check_region-Fits size i none f = absurd f
check_region-Fits size i (some r) f = ground arith

pub AllFit-check_regions :
    (size i : ℕ) (r : Option PacketRegion) (rs : List (Option PacketRegion))
    → check_regions size i r rs ≡ none
    → Fits size r × AllFit size rs
unfolding check_regions
AllFit-check_regions size i r [] h = (Fits-check_region size i r h, tt)
AllFit-check_regions size i r (next ∷ rest) h = elim (Option-cases (check_region size i r)) [
  | inl e ↦
      let h' = (rw (e, check_regions) at h) in
      (Fits-check_region size i r e, AllFit-check_regions size (i + 1) next rest h')
  | inr (x, e) ↦ (let h' = (rw (e, check_regions) at h) in absurd (cc))
]

check_regions-AllFit :
    (size i : ℕ) (r : Option PacketRegion) (rs : List (Option PacketRegion))
    → Fits size r
    → AllFit size rs
    → check_regions size i r rs ≡ none
unfolding check_regions
check_regions-AllFit size i r [] f fs = check_region-Fits size i r f
check_regions-AllFit size i r (next ∷ rest) f fs =
    rw (check_region-Fits size i r f, check_regions)
      (check_regions-AllFit size (i + 1) next rest fs.0 fs.1)

pub send_packet-none :
    (packet : MediaPacket) (callback : ℕ) (p : MediaPipe)
    → p.buffer ≡ none
    → send_packet packet callback p ≡ reset_pipe p
unfolding send_packet
send_packet-none packet callback p held = rw held

send_packet_held :
    (packet : MediaPacket) (callback size : ℕ) (p : MediaPipe)
    → p.buffer ≡ some size
    → send_packet packet callback p ≡ send_in_buffer size packet callback p
unfolding send_packet
send_packet_held packet callback size p held = rw held

-- With a buffer of the size, SendPacket hands on the packet, with that buffer, and changes nothing
-- else, where all of its regions are present and lie in the buffer; and where they do not, it
-- resets the pipe.
pub send_packet_lem :
    (packet : MediaPacket) (callback size : ℕ) (p : MediaPipe)
    → p.buffer ≡ some size
    → (Accepts size packet
        × (send_packet packet callback p
            ≡ (p, packet_received (packet_state packet size callback) ∷ [])))
      ⊎ (¬ Accepts size packet × (send_packet packet callback p ≡ reset_pipe p))
unfolding send_in_buffer
send_packet_lem packet callback size p held =
    let opened = send_packet_held packet callback size p held in
    elim (Option-cases (check_regions size 0 packet.payload (extra_regions packet))) [
      | inl e ↦ inl (
        AllFit-check_regions size 0 packet.payload (extra_regions packet) e,
        opened ∙ (rw (send_in_buffer, e)),
      )
      | inr (x, e) ↦ inr (
        λ (a : Accepts size packet).
            let all = check_regions-AllFit size 0 packet.payload (extra_regions packet) a.0 a.1 in
            absurd (cc),
        opened ∙ (rw (send_in_buffer, e)),
      )
    ]
