-- ===== src/Mixer/Tests.antt =====
-- Runs of the mixers, and the properties at concrete arguments.
use motown.Base.{ℕ, ◌*◌, ◌∣◌, ◌≡◌, ◌↔◌, refl, arith, Bool, true, false, Option, none, some}
use motown.Base.Int.{ℤ, pos, negsuc, ◌+ℤ◌}
use motown.LinearTransform.{make_ratio, reduce_parts, euclid}
use motown.Lpcm.{store, shift_right, low_bits}
use motown.MediaTypes.{AudioSampleFormat, AudioMediaTypeDetails}
use motown.Mixer.{
  unity, Layout, signed_16, Mixed, point, linear, point_mix, point_mix_with, point_rounds,
  point_frame, skip_muted, scaler_of, scale_sample, dst_mix, scaled, times, to_int32, normalize,
  mix_channels, read_sample, dst_per_src, sample_type_of, select_layout, select_mixer, lt_unity,
  gt_unity,
}
use motown.Mixer.Loops.{Mixes}
use motown.Mixer.Point.{mixed_sample, point_mix-Mixes}
use motown.Mixer.Select.{select_mixer-point}

abbrev mono : Layout
mono = record { sample_type = signed_16; src_channels = 1; dst_channels = 1 }

abbrev ramp : ℕ → ℤ
ramp n = pos (n * 100)

abbrev start : Mixed
start = record { dst_offset = 1; src_offset = 2048; dst = λ q. pos 7 }

-- What is left of a call: its result, the two offsets and a sample.
abbrev seen : Option (Bool × Mixed) → ℕ → Option (Bool × ℕ × ℕ × ℤ)
seen none q = none
seen (some (b, m)) q = some (b, m.dst_offset, m.src_offset, m.dst q)

three_frames :
    seen (point_mix mono unity true ramp 8 12288 4096 start) 2 ≡ some (true, 4, 14336, pos 107)
unfolding point_mix point_mix_with point_rounds point_frame scaler_of scale_sample dst_mix normalize
    mix_channels read_sample dst_per_src store ◌+ℤ◌
three_frames = refl

full_destination :
    seen (point_mix mono unity false ramp 3 12288 4096 start) 2 ≡ some (false, 3, 10240, pos 100)
unfolding point_mix point_mix_with point_rounds point_frame scaler_of scale_sample dst_mix normalize
    mix_channels read_sample dst_per_src store ◌+ℤ◌
full_destination = refl

muted_frames : seen (point_mix mono 5 true ramp 8 12288 4096 start) 2 ≡ some (true, 4, 14336, pos 7)
unfolding point_mix point_mix_with scaler_of skip_muted
muted_frames = refl

-- At the smallest scale that is not muted, a negative sample is still -1.
scaled_negative : scale_sample lt_unity (negsuc 0) 8191 ≡ negsuc 0
unfolding scale_sample scaled times to_int32 shift_right low_bits
scaled_negative = refl

clipped : scale_sample gt_unity (pos 30000) (2 * unity) ≡ pos 32767
unfolding scale_sample scaled times to_int32 shift_right low_bits
clipped = refl

abbrev format : ℕ → ℕ → AudioMediaTypeDetails
format channels rate = record {
  sample_format = AudioSampleFormat.signed_16;
  channels = channels;
  frames_per_second = rate;
}

upsampled :
    select_mixer (format 1 24000) (some (format 2 48000))
    ≡ some (point (record { sample_type = signed_16; src_channels = 1; dst_channels = 2 }))
unfolding select_mixer select_layout sample_type_of make_ratio reduce_parts euclid
upsampled = refl

downsampled : select_mixer (format 1 48000) (some (format 1 24000)) ≡ some (linear mono)
unfolding select_mixer select_layout sample_type_of make_ratio reduce_parts euclid
downsampled = refl

point_mix-Mixes_example :
    Mixes mono
      (mixed_sample (scaler_of unity) true unity)
      ramp
      8
      12288
      4096
      start
      (point_mix mono unity true ramp 8 12288 4096 start)
point_mix-Mixes_example =
    point_mix-Mixes mono unity true ramp 8 12288 4096 start (omega arith) (omega arith)
      (omega arith) (omega arith)

select_mixer-point_example :
    (select_mixer (format 1 24000) (some (format 1 48000)) ≡ some (point mono))
    ↔ ((select_layout (format 1 24000) (format 1 48000) ≡ some mono) × (24000 ∣ 48000))
select_mixer-point_example =
    select_mixer-point (format 1 24000) (format 1 48000) mono (omega arith) (omega arith)
