-- ===== src/Mixer/Point.antt =====
-- What a call of PointSampler::Mix does.
use motown.Base.{ℕ, ◌+◌, ◌^◌, ◌≤◌, ◌<◌, arith, lt→ltb, Bool}
use motown.Base.Int.{ℤ}
use motown.Mixer.{
  Layout, Scaler, muted, lt_unity, eq_unity, gt_unity, Mixed, dst_mix, scaler_of, point_mix,
  point_mix_with,
}
use motown.Mixer.Loops.{Mixes, looped-Mixes, skipped-Mixes}

-- The sample that is left where an old sample and one of the source meet.
unfoldable pub mixed_sample : Scaler → Bool → ℕ → ℤ → ℤ → ℤ
mixed_sample muted accumulate scale old sample = old
mixed_sample scaler accumulate scale old sample = dst_mix scaler accumulate scale old sample

point_mix_with-Mixes :
    (l : Layout) (s : Scaler) (accumulate : Bool) (scale : ℕ) (src : ℕ → ℤ)
    (dst_frames frac_src_frames step : ℕ) (m : Mixed)
    → 0 < step
    → frac_src_frames + step ≤ 2 ^ 31
    → m.src_offset < frac_src_frames
    → m.dst_offset ≤ dst_frames
    → Mixes l
        (mixed_sample s accumulate scale)
        src
        dst_frames
        frac_src_frames
        step
        m
        (point_mix_with l s accumulate scale src dst_frames frac_src_frames step m)
unfolding point_mix_with mixed_sample
point_mix_with-Mixes l muted accumulate scale src dst_frames frac_src_frames step m hs fits inside
      le =
    let whole = lt→ltb frac_src_frames (2 ^ 31) (omega arith) in
    rw (whole, lt→ltb m.src_offset frac_src_frames inside)
      (skipped-Mixes l src dst_frames frac_src_frames step m hs fits inside le)
point_mix_with-Mixes l lt_unity accumulate scale src dst_frames frac_src_frames step m hs fits
      inside le =
    let whole = lt→ltb frac_src_frames (2 ^ 31) (omega arith) in
    rw (whole, lt→ltb m.src_offset frac_src_frames inside)
      (looped-Mixes l src dst_frames frac_src_frames step m (dst_mix lt_unity accumulate scale) hs
        fits le)
point_mix_with-Mixes l eq_unity accumulate scale src dst_frames frac_src_frames step m hs fits
      inside le =
    let whole = lt→ltb frac_src_frames (2 ^ 31) (omega arith) in
    rw (whole, lt→ltb m.src_offset frac_src_frames inside)
      (looped-Mixes l src dst_frames frac_src_frames step m (dst_mix eq_unity accumulate scale) hs
        fits le)
point_mix_with-Mixes l gt_unity accumulate scale src dst_frames frac_src_frames step m hs fits
      inside le =
    let whole = lt→ltb frac_src_frames (2 ^ 31) (omega arith) in
    rw (whole, lt→ltb m.src_offset frac_src_frames inside)
      (looped-Mixes l src dst_frames frac_src_frames step m (dst_mix gt_unity accumulate scale) hs
        fits le)

-- For a step that is not 0, a source that, with a step more, ends within int32_t, a position in
-- the source, and a destination offset that is not past the end of the destination,
-- PointSampler::Mix mixes, at any scale, some frames one after another, each of which starts in
-- the source and has room in the destination, until the destination is full or the source is used
-- up, which it returns; the samples of these frames are mixed with those of the source at their
-- positions, or left alone where the scale is muted, and all the others stay as they were.
pub point_mix-Mixes :
    (l : Layout) (scale : ℕ) (accumulate : Bool) (src : ℕ → ℤ) (dst_frames frac_src_frames step : ℕ)
    (m : Mixed)
    → 0 < step
    → frac_src_frames + step ≤ 2 ^ 31
    → m.src_offset < frac_src_frames
    → m.dst_offset ≤ dst_frames
    → Mixes l
        (mixed_sample (scaler_of scale) accumulate scale)
        src
        dst_frames
        frac_src_frames
        step
        m
        (point_mix l scale accumulate src dst_frames frac_src_frames step m)
unfolding point_mix
point_mix-Mixes l scale accumulate src dst_frames frac_src_frames step m hs fits inside le =
    point_mix_with-Mixes l (scaler_of scale) accumulate scale src dst_frames frac_src_frames step m
      hs fits inside le
