-- ===== src/AudioPipe/Tests.antt =====
-- The audio pipe at concrete packets.
use motown.Base.{ℕ, ◌*◌, ◌<◌, ◌≡◌, ◌⊎◌, refl, false, true, none, some, [], ◌∷◌, arith}
use motown.MediaPipe.{PacketRegion, PacketState, packet_state, extra_regions}
use motown.AudioPipe.{
  AudioPipe, Track, audio_region, frac_frame, refused, counted, count_regions, count_frames,
  on_packet_received, reset_audio, no_timestamp,
}
use motown.AudioPipe.Frames.{count_regions_running}
use motown.AudioPipe.Packets.{Delivered, on_packet_received-Delivered}

abbrev region : ℕ → ℕ → PacketRegion
region offset length = record { offset = offset; length = length }

-- Two regions, of 3 and of 2 frames of 4 bytes.
abbrev packet : PacketState
packet =
    packet_state
      (record {
        pts = no_timestamp;
        end_of_stream = false;
        payload = some (region 16 12);
        extra_payload = some (some (region 0 8) ∷ []);
      })
      64 1

abbrev stereo : Track
stereo = record {
  bytes_per_frame = 4;
  frame_to_media_ratio = record { numerator = 3; denominator = 62500 };
}

abbrev pipe : AudioPipe
pipe = record {
  media = record { bound = true; buffer = some 64 };
  next_pts = none;
  prime_callback = some 9;
}

half_frame : count_regions 4 0 (some (region 0 6) ∷ []) ≡ refused
unfolding count_regions count_frames
half_frame = refl

on_packet_received-Delivered_example :
    (on_packet_received stereo packet pipe ≡ some (reset_audio pipe))
    ⊎ Delivered stereo packet pipe (on_packet_received stereo packet pipe)
unfolding extra_regions
on_packet_received-Delivered_example =
    on_packet_received-Delivered stereo packet pipe (omega arith) (omega arith) (omega arith)

count_regions_running_example :
    (count_regions 4 0 (some (region 16 12) ∷ some (region 0 8) ∷ [])
      ≡ counted (audio_region (region 16 12) 3 ∷ audio_region (region 0 8) 5 ∷ []) 5)
    × (2 * frac_frame < (audio_region (region 0 8) 5).frac_frame_len)
count_regions_running_example =
    count_regions_running 4 3 2 (region 16 12) (region 0 8) (omega arith) (omega arith)
      (omega arith) refl refl
