-- ===== src/Mixer/Linear/Tests.antt =====
-- A run of the linear sampler, and its property at concrete arguments.
use mathlib.Core.Option.{bind}
use motown.Base.{ℕ, ◌-◌, ◌*◌, ◌≡◌, refl, arith, Bool, true, false, Option, none, some}
use motown.Base.Int.{ℤ, pos, negsuc, ◌+ℤ◌, ◌-ℤ◌}
use motown.Lpcm.{store, shift_right}
use motown.Mixer.{
  unity, Layout, signed_16, scaler_of, scale_sample, times, dst_mix, normalize, mix_channels,
  read_sample, dst_per_src,
}
use motown.Mixer.Linear.{
  LinearState, linear_mix, linear_mix_with, advance_linear, mix_loops, linear_rounds, advance_frame,
  mix_final, hold_last, skip_frames, frame_before, frame_within, hold_frame, interpolate,
}
use motown.Mixer.Point.{mixed_sample}
use motown.Mixer.Linear.Ends.{LinearMixes, linear_mix-Mixes}

abbrev mono : Layout
mono = record { sample_type = signed_16; src_channels = 1; dst_channels = 1 }

abbrev ramp : ℕ → ℤ
ramp n = pos (n * 100)

abbrev linear_start : LinearState
linear_start = record {
  dst_offset = 0;
  src_offset = negsuc 2047;
  dst = λ q. pos 7;
  filter_data = λ d. pos 0;
}

-- What is left of a call of the linear sampler.
abbrev linear_seen : Option (Bool × LinearState) → ℕ → Option (Bool × ℕ × ℤ × ℤ)
linear_seen none q = none
linear_seen (some (b, m)) q = some (b, m.dst_offset, m.src_offset, m.dst q)

interpolated :
    linear_seen (linear_mix mono unity false ramp 8 12288 4096 linear_start) 1
    ≡ some (true, 3, pos 10240, pos 50)
unfolding linear_mix linear_mix_with advance_linear mix_loops linear_rounds advance_frame mix_final
    hold_last frame_before frame_within hold_frame interpolate times shift_right scaler_of
    scale_sample dst_mix normalize mix_channels read_sample dst_per_src store bind ◌+ℤ◌
interpolated = refl

-- The destination is full after two frames, and the position is past the whole source: the result says
-- that the source is still needed.
full_at_end :
    linear_seen
      (linear_mix mono 5 false ramp 2 16384 8192 (record linear_start { src_offset = pos 0 }))
      1
    ≡ some (false, 2, pos 16384, pos 7)
unfolding linear_mix linear_mix_with advance_linear skip_frames mix_final hold_last hold_frame
    scaler_of mix_channels bind ◌+ℤ◌ ◌-ℤ◌
full_at_end = refl

linear_mix-Mixes_example :
    LinearMixes mono
      (mixed_sample (scaler_of unity) false unity)
      ramp
      8
      (12288 - 4096)
      4096
      linear_start
      (linear_mix mono unity false ramp 8 12288 4096 linear_start)
linear_mix-Mixes_example =
    linear_mix-Mixes mono unity false ramp 8 12288 4096 linear_start (omega arith) (omega arith)
      (omega arith) (omega arith) (omega arith)
