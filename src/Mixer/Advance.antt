-- ===== src/Mixer/Advance.antt =====
-- How far PointSampler::Mix goes, with and without the loop.
use native.Mathlib.Nat.{mod-eq_of_lt}
use motown.Base.{
  ℕ, zero, suc, ◌+◌, ◌-◌, ◌*◌, ◌^◌, ◌≤◌, ◌<◌, ◌≡◌, refl, inl, inr, arith, min, ltb, lt→ltb, ne→==,
  Bool-cases, some, false,
}
use motown.Base.Int.{ℤ}
use motown.Mixer.{Layout, Mixed, point_frame, point_rounds, skip_muted}
use motown.Mixer.Counts.{frames_in, frames_in_none, frames_in-suc, frames_in_below}
use motown.Mixer.Frames.{next_frame, run_frames}

min-suc : (a b : ℕ) → min (a + 1) (suc b) ≡ suc (min a b)
min-suc a b = ground arith

module _ (l : Layout) (mix : ℤ → ℤ → ℤ) (src : ℕ → ℤ) (dst_frames frac_src_frames step : ℕ) where
  -- The loop mixes as many frames as both buffers have.
  pub point_rounds-run_frames :
      (left : ℕ) (m : Mixed)
      → left ≡ dst_frames - m.dst_offset
      → 0 < step
      → frac_src_frames + step ≤ 2 ^ 31
      → point_rounds (point_frame l mix src) dst_frames frac_src_frames step left m
        ≡ some
            (run_frames l mix src step (min (frames_in frac_src_frames m.src_offset step) left) m)
  unfolding point_rounds run_frames
  point_rounds-run_frames zero m e hs fits =
      let none_left : min (frames_in frac_src_frames m.src_offset step) 0 ≡ 0 = omega arith in
      rw (none_left) refl
  point_rounds-run_frames (suc left) m e hs fits =
      elim (Bool-cases (ltb m.src_offset frac_src_frames)) [
        | inl inside ↦
            let more =
              point_rounds-run_frames left (next_frame l mix src step m) (omega arith) hs fits in
            let rounds = frames_in-suc frac_src_frames m.src_offset step hs (ground arith) in
            let inc = min-suc (frames_in frac_src_frames (m.src_offset + step) step) left in
            let room = lt→ltb m.dst_offset dst_frames (omega arith) in
            let small = lt→ltb (m.src_offset + step) (2 ^ 31) (ground arith) in
            rw (room, inside, small, rounds, inc) more
        | inr outside ↦
            let rounds = frames_in_none frac_src_frames m.src_offset step hs (ground arith) in
            let none_left : min 0 (suc left) ≡ 0 = omega arith in
            let room = lt→ltb m.dst_offset dst_frames (omega arith) in
            rw (room, outside, rounds, none_left) refl
      ]

-- These frames do not pass the end of the source by more than a step.
pub advance_fits :
    (end offset step n : ℕ)
    → 0 < step
    → offset < end
    → n ≤ frames_in end offset step
    → offset + n * step < end + step
advance_fits end offset step zero h inside le = grind arith
advance_fits end offset step (suc n) h inside le =
    let last = frames_in_below end offset step n h (omega arith) in grind arith

-- The count of the muted mixer is the one of the loop.
module _ (dst_frames frac_src_frames step : ℕ) (m : Mixed) where
  pub skip_muted-advance :
      0 < step
      → frac_src_frames + step ≤ 2 ^ 31
      → m.src_offset < frac_src_frames
      → m.dst_offset < dst_frames
      → skip_muted dst_frames frac_src_frames step m
        ≡ some (record m {
          dst_offset =
              m.dst_offset
              + min (frames_in frac_src_frames m.src_offset step) (dst_frames - m.dst_offset);
          src_offset =
              m.src_offset
              + min (frames_in frac_src_frames m.src_offset step) (dst_frames - m.dst_offset)
                * step;
        })
  unfolding skip_muted
  skip_muted-advance hs fits inside room =
      let n = min (frames_in frac_src_frames m.src_offset step) (dst_frames - m.dst_offset) in
      let whole =
        mod-eq_of_lt {n = frac_src_frames - m.src_offset + step - 1} {m = 2 ^ 32} (omega arith) in
      let behind = advance_fits frac_src_frames m.src_offset step n hs inside (omega arith) in
      let small = lt→ltb (m.src_offset + n * step) (2 ^ 31) (omega arith) in
      rw (whole, lt→ltb m.dst_offset dst_frames room, small, ne→== step 0 (omega arith)) refl

  -- Without room, it leaves the positions alone.
  pub skip_muted_full :
      ltb m.dst_offset dst_frames ≡ false → skip_muted dst_frames frac_src_frames step m ≡ some m
  unfolding skip_muted
  skip_muted_full h = rw (h) refl
