-- ===== src/AudioPipe/Packets.antt =====
-- What the audio pipe hands to its track.
use motown.Base.{
  ℕ, ◌*◌, ◌^◌, ◌≤◌, ◌<◌, ◌≡◌, refl, ◌∙◌, ◌⊎◌, inl, inr, Option, none, some, List, ◌∷◌, arith,
  Option-cases, Bool-cases, true, false,
}
use motown.Base.Int.{ℤ, pos, ltb_ℤ, ◌+ℤ◌}
use motown.MediaPipe.{MediaPacket, PacketRegion, PacketState, extra_regions}
use motown.MediaPipe.Packets.{Accepts}
use motown.AudioPipe.{
  AudioPipe, Track, AudioRegion, AudioEffect, frac_frame, max_frames, Counted, null_region, refused,
  counted, count_regions, start_of, deliver, hand_over, end_of, reset_audio, on_packet_received,
  no_timestamp, is_no_timestamp,
}
use motown.AudioPipe.Frames.{payload_bytes, Placed, Whole, count_regions-Whole}

-- All the regions of a packet, the payload first.
abbrev pub regions_of : MediaPacket → List (Option PacketRegion)
regions_of packet = packet.payload ∷ extra_regions packet

-- A packet that is delivered from some start on, with whole frames that are all of its bytes, where
-- its end is an int64_t.
pub record Delivered (track : Track) (state : PacketState) (p : AudioPipe)
    (o : Option (AudioPipe × List AudioEffect)) : Type 0 where
  pub regions : List AudioRegion
  pub frame_count : ℕ
  pub start : ℤ
  pub started : start_of track state.packet p ≡ some start
  pub result :
      ((ltb_ℤ (end_of frame_count start) (pos (2 ^ 63)) ≡ true)
        × (o ≡ some (hand_over state regions frame_count start p)))
      ⊎ ((ltb_ℤ (end_of frame_count start) (pos (2 ^ 63)) ≡ false) × (o ≡ none))
  pub bytes : frame_count * track.bytes_per_frame ≡ payload_bytes (regions_of state.packet)
  pub bounded : frame_count ≤ max_frames
  pub placed : Placed (regions_of state.packet) regions

-- The end of OnPacketReceived, after the loop.
finish : Track → PacketState → AudioPipe → Counted → Option (AudioPipe × List AudioEffect)
finish track state p c = elim c as (λ c. Option (AudioPipe × List AudioEffect)) [
  | null_region ↦ none
  | refused ↦ some (reset_audio p)
  | counted regions frame_count ↦
      elim (start_of track state.packet p) as (λ o. Option (AudioPipe × List AudioEffect)) [
        | none ↦ some (reset_audio p)
        | some start ↦ deliver state regions frame_count start p
      ]
]

deliver_lem :
    (state : PacketState) (regions : List AudioRegion) (frame_count : ℕ) (start : ℤ) (p : AudioPipe)
    → ((ltb_ℤ (end_of frame_count start) (pos (2 ^ 63)) ≡ true)
        × (deliver state regions frame_count start p
            ≡ some (hand_over state regions frame_count start p)))
      ⊎ ((ltb_ℤ (end_of frame_count start) (pos (2 ^ 63)) ≡ false)
          × (deliver state regions frame_count start p ≡ none))
unfolding deliver
deliver_lem state regions frame_count start p =
    elim (Bool-cases (ltb_ℤ (end_of frame_count start) (pos (2 ^ 63)))) [
      | inl e ↦ inl (e, rw (e) refl)
      | inr e ↦ inr (e, rw (e) refl)
    ]

finish-Delivered :
    (track : Track) (state : PacketState) (p : AudioPipe) (c : Counted)
    → Whole track.bytes_per_frame 0 (regions_of state.packet) c
    → (finish track state p c ≡ some (reset_audio p))
      ⊎ Delivered track state p (finish track state p c)
unfolding finish
finish-Delivered track state p null_region w = absurd w
finish-Delivered track state p refused w = inl refl
finish-Delivered track state p (counted regions total) w =
    elim (Option-cases (start_of track state.packet p)) [
      | inl e ↦ inl (rw (e, finish))
      | inr (start, e) ↦ inr (record {
        regions = regions;
        frame_count = total;
        start = start;
        started = e;
        result = rw (e, finish) (deliver_lem state regions total start p);
        bytes = w.0 ∙ omega arith;
        bounded = w.1;
        placed = w.2;
      })
    ]

-- For a packet whose regions lie in its buffer, of less than 2 ^ 31 bytes, and frames that are not
-- empty, OnPacketReceived uses no null region, and resets the pipe or delivers the packet from the
-- start that its timestamp or the packet before gives: then its frames are all the bytes of its
-- regions, they are no more than kMaxFrames, each region is at its place in the buffer, and the
-- length of each is a number of frames, at most kMaxFrames, as a fixed point number that is not
-- cut off. The packet is handed over where the sum of its start and its frames is less than 2 ^
-- 63; else that sum leaves int64_t, which is undefined.
pub on_packet_received-Delivered :
    (track : Track) (state : PacketState) (p : AudioPipe)
    → Accepts state.buffer state.packet
    → state.buffer < 2 ^ 31
    → 0 < track.bytes_per_frame
    → (on_packet_received track state p ≡ some (reset_audio p))
      ⊎ Delivered track state p (on_packet_received track state p)
unfolding on_packet_received finish
on_packet_received-Delivered track state p a hs hf =
    finish-Delivered track state p (count_regions track.bytes_per_frame 0 (regions_of state.packet))
      (count_regions-Whole track.bytes_per_frame 0 state.buffer (regions_of state.packet) hf
        (omega arith) hs a)

-- A packet without a timestamp starts where the one that was delivered before it ends.
pub start_of-hand_over :
    (track : Track) (state : PacketState) (regions : List AudioRegion) (frame_count : ℕ) (start : ℤ)
    (p : AudioPipe) (packet : MediaPacket)
    → packet.pts ≡ no_timestamp
    → start_of track packet (hand_over state regions frame_count start p).0
      ≡ some (start +ℤ pos (frame_count * frac_frame))
unfolding start_of hand_over is_no_timestamp
start_of-hand_over track state regions frame_count start p packet e = rw e
