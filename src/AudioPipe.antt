-- ===== src/AudioPipe.antt =====
-- AudioPipe of services/media/audio/audio_pipe.{h,cc}, which derives from MediaPipeBase.
pub mod Frames
pub mod Packets
mod Tests
use motown.Base.{
  ℕ, ◌+◌, ◌-◌, ◌*◌, ◌/◌, ◌%◌, ◌^◌, Bool, true, false, ◌&&◌, not, Option, none, some, List, [], ◌∷◌,
  ◌++◌, ltb, ◌==◌, if◌then◌else◌,
}
use motown.Base.Int.{ℤ, pos, ltb_ℤ, ◌+ℤ◌}
use motown.LinearTransform.{Ratio, LinearTransform, do_forward_transform}
use motown.MediaPipe.{
  no_timestamp, PacketRegion, MediaPacket, PacketState, MediaPipe, reset_pipe, extra_regions,
}

-- The state that AudioPipe adds to MediaPipeBase: next_pts_ where next_pts_known_, and
-- prime_callback_.
pub record AudioPipe : Type 0 where
  pub media : MediaPipe
  pub next_pts : Option ℤ
  pub prime_callback : Option ℕ

-- What AudioPipe asks of its AudioTrackImpl: BytesPerFrame and FractionalFrameToMediaTimeRatio.
pub record Track : Type 0 where
  pub bytes_per_frame : ℕ
  pub frame_to_media_ratio : Ratio

-- AudioPacketRef::Region, with the offset in the buffer for the pointer.
pub record AudioRegion : Type 0 where
  pub base : ℕ
  pub frac_frame_len : ℕ

-- AudioPacketRef, which holds the state of the packet.
pub record AudioPacket : Type 0 where
  pub state : PacketState
  pub regions : List AudioRegion
  pub start_pts : ℤ
  pub end_pts : ℤ

-- What the pipe does to others: a packet for the track, and a prime callback that it runs. `reset` is
-- its call of Reset.
pub data AudioEffect : Type 0 where
  track_packet : AudioPacket → AudioEffect
  primed : ℕ → AudioEffect
  reset : AudioEffect

-- AudioTrackImpl::PTS_FRACTIONAL_BITS, as a factor.
abbrev pub frac_frame : ℕ
frac_frame = 2 ^ 12

-- kMaxFrames.
abbrev pub max_frames : ℕ
max_frames = (2 ^ 32 - 1) / frac_frame

abbrev pub eq_ℤ : ℤ → ℤ → Bool
eq_ℤ a b = not (ltb_ℤ a b) && not (ltb_ℤ b a)

-- What the loop of OnPacketReceived comes to: a null region, which it does not look for, the end by
-- Reset, or the regions with their frame count.
pub data Counted : Type 0 where
  null_region : Counted
  refused : Counted
  counted : List AudioRegion → ℕ → Counted

-- One round of the loop: the running count of frames, a uint32_t, with those of the region.
pub count_frames : ℕ → ℕ → PacketRegion → Option ℕ
count_frames frame_size frame_count r =
    let frame_count' = (frame_count + r.length / frame_size) % 2 ^ 32 in
    if ltb 1 frame_size && not (r.length % frame_size == 0)
    then none
    else if ltb max_frames frame_count'
    then none
    else some frame_count'

abbrev pub audio_region : PacketRegion → ℕ → AudioRegion
audio_region r frame_count = record {
  base = r.offset;
  frac_frame_len = frame_count * frac_frame % 2 ^ 32;
}

-- A region in front of those that the rest of the loop gives.
pub with_region : AudioRegion → Counted → Counted
with_region r null_region = null_region
with_region r refused = refused
with_region r (counted rs frame_count) = counted (r ∷ rs) frame_count

-- The loop of OnPacketReceived, over the payload and the extra regions.
pub count_regions : ℕ → ℕ → List (Option PacketRegion) → Counted
count_regions frame_size frame_count [] = counted [] frame_count
count_regions frame_size frame_count (none ∷ rest) = null_region
count_regions frame_size frame_count (some r ∷ rest) =
    elim (count_frames frame_size frame_count r) as (λ o. Counted) [
      | none ↦ refused
      | some frame_count' ↦
          with_region (audio_region r frame_count') (count_regions frame_size frame_count' rest)
    ]

pub is_no_timestamp : ℤ → Bool
is_no_timestamp pts = eq_ℤ pts no_timestamp

-- The starting PTS; `none` is an overflow.
pub start_of : Track → MediaPacket → AudioPipe → Option ℤ
start_of track packet p =
    if is_no_timestamp packet.pts
    then some (elim p.next_pts as (λ o. ℤ) [ none ↦ pos 0 | some pts ↦ pts ])
    else do_forward_transform
        (record { ratio = track.frame_to_media_ratio; a_zero = pos 0; b_zero = pos 0 }) packet.pts

-- next_pts_, after a packet of so many frames.
abbrev pub end_of : ℕ → ℤ → ℤ
end_of frame_count start = start +ℤ pos (frame_count * frac_frame)

-- The packet for the track, and the answer to a prime request.
pub hand_over : PacketState → List AudioRegion → ℕ → ℤ → AudioPipe → AudioPipe × List AudioEffect
hand_over state regions frame_count start p =
    let next = end_of frame_count start in
    (
      record p { next_pts = some next; prime_callback = none },
      track_packet (record { state = state; regions = regions; start_pts = start; end_pts = next })
          ∷ (elim p.prime_callback as (λ o. List AudioEffect) [
            | none ↦ []
            | some callback ↦ primed callback ∷ []
          ]),
    )

-- The end of OnPacketReceived; `none` is a sum that leaves int64_t, whose behaviour is undefined.
pub deliver :
    PacketState → List AudioRegion → ℕ → ℤ → AudioPipe → Option (AudioPipe × List AudioEffect)
deliver state regions frame_count start p =
    if ltb_ℤ (end_of frame_count start) (pos (2 ^ 63))
    then some (hand_over state regions frame_count start p)
    else none

-- Reset, by the derived class.
pub reset_audio : AudioPipe → AudioPipe × List AudioEffect
reset_audio p = (record p { media = (reset_pipe p.media).0 }, reset ∷ [])

-- OnPacketReceived; `none` is the use of a null region, or an end that leaves int64_t.
pub on_packet_received : Track → PacketState → AudioPipe → Option (AudioPipe × List AudioEffect)
on_packet_received track state p =
    elim (count_regions track.bytes_per_frame 0 (state.packet.payload ∷ extra_regions state.packet))
      as (λ c. Option (AudioPipe × List AudioEffect)) [
        | null_region ↦ none
        | refused ↦ some (reset_audio p)
        | counted regions frame_count ↦
            elim (start_of track state.packet p) as (λ o. Option (AudioPipe × List AudioEffect)) [
              | none ↦ some (reset_audio p)
              | some start ↦ deliver state regions frame_count start p
            ]
      ]

-- OnPrimeRequested.
pub on_prime_requested : ℕ → AudioPipe → AudioPipe × List AudioEffect
on_prime_requested callback p = (
  record p { prime_callback = some callback },
  elim p.prime_callback as (λ o. List AudioEffect) [ none ↦ [] | some old ↦ primed old ∷ [] ],
)

-- OnFlushRequested; the track's answer is handed on.
pub on_flush_requested : Bool → AudioPipe → Bool × AudioPipe
on_flush_requested accepted p = (accepted, record p { next_pts = none })
