-- ===== src/Mixer/Linear/Calls.antt =====
-- What the loops of LinearSampler::Mix pass, and a call with them or without them.
use mathlib.Core.Option.{bind}
use motown.Base.{◌⊎◌, ℕ, ◌+◌, ◌-◌, ◌^◌, ◌≤◌, ◌<◌, ◌≡◌, refl, inl, inr, arith, Bool-cases, Bool}
use motown.Base.Int.{ℤ, pos, neg_part, ltb_ℤ, ◌+ℤ◌, ◌≤ℤ◌}
use motown.Mixer.Point.{mixed_sample}
use motown.Mixer.Linear.Samples.{
  linear_sample, frame_before-linear_sample, frame_within-linear_sample,
}
use motown.Mixer.{dst_mix, Layout, Scaler, muted, lt_unity, eq_unity, gt_unity}
use motown.Mixer.Linear.{
  LinearState, linear_rounds, frame_before, frame_within, hold_frame, mix_loops, advance_linear,
}
use motown.Mixer.Linear.Timing.{Passes, Went, Went-on, rounds-Went}
use motown.Mixer.Linear.Skip.{skip-Passes}

module _ (channels : ℕ) (mix : ℤ → ℤ → ℤ) (sample : ℤ → ℕ → ℤ) (dst_frames step limit : ℕ) where
  -- The held frame changes nothing of the offsets.
  Went-held :
      (f : ℕ → ℤ) (m k : LinearState)
      → Went channels mix sample dst_frames step limit (record m { filter_data = f }) k
      → Went channels mix sample dst_frames step limit m k
  Went-held f m k w = record {
    frames = w.frames;
    dst_went = w.dst_went;
    src_went = w.src_went;
    room = w.room;
    available = w.available;
    mixed = w.mixed;
  }

  -- What lies in front of a limit lies in front of a later one.
  pub Went-below :
      (earlier : ℕ) (m k : LinearState)
      → earlier ≤ limit
      → Went channels mix sample dst_frames step earlier m k
      → Went channels mix sample dst_frames step limit m k
  Went-below earlier m k le w = record {
    frames = w.frames;
    dst_went = w.dst_went;
    src_went = w.src_went;
    room = w.room;
    available = λ j h. let v = w.available j h in omega arith;
    mixed = w.mixed;
  }

stays_inside : (z : ℤ) (step : ℕ) → pos 0 ≤ℤ z → pos 0 ≤ℤ z +ℤ pos step
unfolding ◌+ℤ◌
stays_inside z step h = ground arith

module _ (l : Layout) (mix : ℤ → ℤ → ℤ) (src held : ℕ → ℤ) (dst_frames step send : ℕ) where
  -- The second loop, from a position in the source on.
  within-Passes :
      (m : LinearState)
      → (m.dst_offset ≡ dst_frames) ⊎ (pos 0 ≤ℤ m.src_offset)
      → m.dst_offset ≤ dst_frames
      → send + step ≤ 2 ^ 31
      → Passes l.dst_channels mix (linear_sample l src held send) dst_frames step send m (
          linear_rounds
            (frame_within l mix src)
            dst_frames
            (pos send)
            step
            (dst_frames - m.dst_offset)
            m)
  within-Passes m enter le fits =
      rounds-Went l.dst_channels mix (linear_sample l src held send) dst_frames step send
        (frame_within l mix src) (λ z. pos 0 ≤ℤ z) (λ z h. stays_inside z step h) m.filter_data
        (λ n g inside before.
          frame_within-linear_sample l mix src held send n (ground arith) (ground arith))
        (dst_frames - m.dst_offset) m refl enter refl le fits

  -- The first loop, with the first frame of the source held.
  before-Passes :
      (m : LinearState)
      → m.filter_data ≡ hold_frame l src 0 l.dst_channels held
      → m.dst_offset ≤ dst_frames
      → step ≤ 2 ^ 31
      → Passes l.dst_channels mix
          (linear_sample l src held send)
          dst_frames
          step
          0
          m
          (linear_rounds (frame_before l mix) dst_frames (pos 0) step (dst_frames - m.dst_offset) m)
  before-Passes m e le fits =
      rounds-Went l.dst_channels mix (linear_sample l src held send) dst_frames step 0
        (frame_before l mix) (λ z. z ≡ z) (λ z h. refl) (hold_frame l src 0 l.dst_channels held)
        (λ n g any before. frame_before-linear_sample l mix src held send n g (ground arith))
        (dst_frames - m.dst_offset) m e (inr refl) refl le (omega arith)

module _ (l : Layout) (mix : ℤ → ℤ → ℤ) (src : ℕ → ℤ) (dst_frames step send : ℕ) where
  loops-Passes :
      (m : LinearState)
      → m.dst_offset ≤ dst_frames
      → send + step ≤ 2 ^ 31
      → Passes l.dst_channels mix
          (linear_sample l src m.filter_data send)
          dst_frames
          step
          send
          m
          (mix_loops l mix src dst_frames (pos send) step m)
  unfolding mix_loops bind
  loops-Passes m le fits = elim (Bool-cases (ltb_ℤ m.src_offset (pos 0))) [
    | inl before ↦
        let sample = linear_sample l src m.filter_data send in
        let held : LinearState = record m {
          filter_data = hold_frame l src 0 l.dst_channels m.filter_data;
        } in
        let a =
          before-Passes l mix src m.filter_data dst_frames step send held refl le (omega arith) in
        let went = Went-held l.dst_channels mix sample dst_frames step send held.filter_data m a.0 (
          Went-below l.dst_channels mix sample dst_frames step send 0 held a.0 (omega arith) a.2) in
        let passed = went.dst_went in
        let fitting = went.room in
        let b =
          within-Passes l mix src m.filter_data dst_frames step send a.0 a.3 (omega arith) fits in
        (
          b.0,
          rw (before, a.1) b.1,
          Went-on l.dst_channels mix sample dst_frames step send m a.0 b.0 went b.2,
          b.3,
        )
    | inr after ↦
        let b =
          within-Passes l mix src m.filter_data dst_frames step send m (inr (ground arith)) le
            fits in
        (b.0, rw (after) b.1, b.2, b.3)
  ]

module _ (l : Layout) (accumulate : Bool) (scale : ℕ) (src : ℕ → ℤ) (dst_frames step send : ℕ)
    (m : LinearState) where
  -- With its loops or without them, the call passes the same frames.
  pub advance_linear-Passes :
      (scaler : Scaler)
      → 0 < step
      → m.dst_offset < dst_frames
      → send + 4096 + step ≤ 2 ^ 31
      → neg_part m.src_offset < 4096
      → Passes l.dst_channels
          (mixed_sample scaler accumulate scale)
          (linear_sample l src m.filter_data send)
          dst_frames
          step
          send
          m
          (advance_linear l scaler
            (dst_mix scaler accumulate scale)
            src
            dst_frames
            (pos send)
            step
            m)
  unfolding advance_linear mixed_sample
  advance_linear-Passes muted hs room fits held =
      skip-Passes l.dst_channels (linear_sample l src m.filter_data send) dst_frames step send m hs
        room fits held
  advance_linear-Passes lt_unity hs room fits held =
      loops-Passes l (dst_mix lt_unity accumulate scale) src dst_frames step send m (omega arith)
        (omega arith)
  advance_linear-Passes eq_unity hs room fits held =
      loops-Passes l (dst_mix eq_unity accumulate scale) src dst_frames step send m (omega arith)
        (omega arith)
  advance_linear-Passes gt_unity hs room fits held =
      loops-Passes l (dst_mix gt_unity accumulate scale) src dst_frames step send m (omega arith)
        (omega arith)
