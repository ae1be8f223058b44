-- ===== src/Mixer/Linear/Final.antt =====
-- The final frame of a call of LinearSampler::Mix.
use motown.Base.{
  ◌⊎◌, ℕ, ◌*◌, sym, ◌+◌, ◌^◌, ◌≤◌, ◌<◌, ◌≡◌, refl, inl, inr, arith, ltb, Bool-cases, Bool, false,
  ◌&&◌, not,
}
use motown.Base.Int.{ℤ, pos, ltb_ℤ, ◌≤ℤ◌, ◌+ℤ◌}
use motown.Mixer.Point.{mixed_sample}
use motown.Mixer.Linear.Samples.{linear_sample, mix_channels_kept, frame_last-linear_sample}
use motown.Mixer.{mix_channels, muted, lt_unity, eq_unity, gt_unity, Layout, Scaler, dst_mix}
use motown.Mixer.Linear.{LinearState, mix_final, final_frame}
use motown.Mixer.Linear.Timing.{Passes, Went, Went-on, Went-one, advance_frame-some, ◌<ℤ◌}
use motown.Mixer.Linear.Calls.{Went-below}

past_last :
    (z : ℤ) (send step : ℕ)
    → ltb_ℤ z (pos send) ≡ false
    → 0 < step
    → pos (send + 1) ≤ℤ z +ℤ pos step
unfolding ◌+ℤ◌
past_last z send step h hs = ground arith

-- The final frame has the samples of its position.
final_frame-linear_sample :
    (l : Layout) (accumulate : Bool) (scale : ℕ) (src held : ℕ → ℤ) (send : ℕ) (k : LinearState)
    (scaler : Scaler)
    → ltb_ℤ k.src_offset (pos 0) ≡ false
    → ltb_ℤ k.src_offset (pos send) ≡ false
    → final_frame l scaler (dst_mix scaler accumulate scale) src k
      ≡ mix_channels
          (linear_sample l src held send k.src_offset)
          (mixed_sample scaler accumulate scale)
          l.dst_channels
          0
          (k.dst_offset * l.dst_channels)
          k.dst
unfolding mixed_sample
final_frame-linear_sample l accumulate scale src held send k muted after behind = sym (
    mix_channels_kept (linear_sample l src held send k.src_offset) l.dst_channels 0
      (k.dst_offset * l.dst_channels) k.dst)
final_frame-linear_sample l accumulate scale src held send k lt_unity after behind =
    frame_last-linear_sample l (dst_mix lt_unity accumulate scale) src held send k after behind
final_frame-linear_sample l accumulate scale src held send k eq_unity after behind =
    frame_last-linear_sample l (dst_mix eq_unity accumulate scale) src held send k after behind
final_frame-linear_sample l accumulate scale src held send k gt_unity after behind =
    frame_last-linear_sample l (dst_mix gt_unity accumulate scale) src held send k after behind

module _ (l : Layout) (scaler : Scaler) (accumulate : Bool) (scale : ℕ) (src held : ℕ → ℤ)
    (dst_frames send step : ℕ) where
  abbrev code_mix : ℤ → ℤ → ℤ
  code_mix = dst_mix scaler accumulate scale

  abbrev mix : ℤ → ℤ → ℤ
  mix = mixed_sample scaler accumulate scale

  abbrev sample : ℤ → ℕ → ℤ
  sample = linear_sample l src held send

  pub mix_final-Passes :
      (m k : LinearState)
      → 0 < step
      → send + 1 + step ≤ 2 ^ 31
      → Went l.dst_channels mix sample dst_frames step send m k
      → (k.dst_offset ≡ dst_frames) ⊎ (pos send ≤ℤ k.src_offset)
      → Passes l.dst_channels mix sample dst_frames step
          (send + 1)
          m
          (mix_final l scaler code_mix src dst_frames (pos send) step k)
  unfolding mix_final
  mix_final-Passes m k hs fits w ended =
      let before =
        Went-below l.dst_channels mix sample dst_frames step (send + 1) send m k (omega arith) w in
      elim (Bool-cases (
        ltb k.dst_offset dst_frames
        && not (ltb_ℤ k.src_offset (pos send))
        && not (ltb_ℤ (pos send) k.src_offset))) [
          | inl exact ↦
              let room : k.dst_offset < dst_frames = ground arith in
              let inside : k.src_offset <ℤ pos (send + 1) = ground arith in
              let next : LinearState = record k {
                dst_offset = k.dst_offset + 1;
                src_offset = k.src_offset +ℤ pos step;
                dst =
                    mix_channels (sample k.src_offset) mix l.dst_channels 0
                      (k.dst_offset * l.dst_channels) k.dst;
              } in
              let same =
                final_frame-linear_sample l accumulate scale src held send k scaler (ground arith)
                  (ground arith) in
              (
                next,
                rw (exact, same)
                    (advance_frame-some l.dst_channels mix sample dst_frames step (send + 1)
                      next.dst k inside fits),
                Went-on l.dst_channels mix sample dst_frames step (send + 1) m k next before
                    (Went-one l.dst_channels mix sample dst_frames step (send + 1) k room inside),
                inr (past_last k.src_offset send step (ground arith) hs),
              )
          | inr other ↦ (
            k,
            rw (other) refl,
            before,
            elim ended [
              | inl full ↦ inl full
              | inr behind ↦
                  let there = w.dst_went in
                  let fit = w.room in
                  elim (Bool-cases (ltb k.dst_offset dst_frames)) [
                    | inl room ↦ inr (ground arith)
                    | inr full ↦ inl (ground arith)
                  ]
            ],
          )
        ]
