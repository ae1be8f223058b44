-- ===== src/Mixer/Loops.antt =====
-- What the loop of PointSampler::Mix does, and what the count in place of it.
use motown.Base.{
  ◌⊎◌, ℕ, ◌+◌, ◌-◌, ◌*◌, ◌^◌, ◌≤◌, ◌<◌, ◌≡◌, refl, inl, inr, arith, min, ltb, leb, Bool-cases,
  Option, some, Bool,
}
use motown.Base.Int.{ℤ}
use motown.Mixer.{Layout, Mixed, consumes, point_frame, point_rounds, skip_muted}
use motown.Mixer.Counts.{frames_in, frames_in_reach, frames_in_below}
use motown.Mixer.Frames.{
  point_sample, run_frames, run_frames_dst_offset, run_frames_src_offset, run_frames_other,
  run_frames_written,
}
use motown.Mixer.Advance.{point_rounds-run_frames, skip_muted-advance, skip_muted_full}

-- A call mixes some frames: each starts in the source and has room in the destination, and either the
-- destination is full or the source is used up after them, which the result tells. The samples of
-- these frames are mixed, and the others stay.
pub record Mixes (l : Layout) (value : ℤ → ℤ → ℤ) (src : ℕ → ℤ)
    (dst_frames frac_src_frames step : ℕ) (m : Mixed) (out : Option (Bool × Mixed)) : Type 0 where
  pub frames : ℕ
  pub left : Mixed
  pub returned : out ≡ some (leb frac_src_frames left.src_offset, left)
  pub room : m.dst_offset + frames ≤ dst_frames
  pub available : (j : ℕ) → j < frames → m.src_offset + j * step < frac_src_frames
  pub ended :
      (m.dst_offset + frames ≡ dst_frames) ⊎ (frac_src_frames ≤ m.src_offset + frames * step)
  pub dst_advanced : left.dst_offset ≡ m.dst_offset + frames
  pub src_advanced : left.src_offset ≡ m.src_offset + frames * step
  pub written :
      (j c : ℕ)
      → j < frames
      → c < l.dst_channels
      → left.dst ((m.dst_offset + j) * l.dst_channels + c)
        ≡ value
            (m.dst ((m.dst_offset + j) * l.dst_channels + c))
            (point_sample l src (m.src_offset + j * step) c)
  pub others :
      (q : ℕ)
      → (q < m.dst_offset * l.dst_channels) ⊎ ((m.dst_offset + frames) * l.dst_channels ≤ q)
      → left.dst q ≡ m.dst q

module _ (l : Layout) (src : ℕ → ℤ) (dst_frames frac_src_frames step : ℕ) (m : Mixed) where
  -- Where the count stops, one of the buffers is used up.
  ended_of_count :
      (f : ℕ)
      → frac_src_frames ≤ m.src_offset + f * step
      → m.dst_offset ≤ dst_frames
      → (m.dst_offset + min f (dst_frames - m.dst_offset) ≡ dst_frames)
        ⊎ (frac_src_frames ≤ m.src_offset + min f (dst_frames - m.dst_offset) * step)
  ended_of_count f reached le = elim (Bool-cases (leb f (dst_frames - m.dst_offset))) [
    | inl small ↦
        let same : min f (dst_frames - m.dst_offset) ≡ f = ground arith in inr (rw (same) reached)
    | inr large ↦ inl (ground arith)
  ]

  abbrev both_have : ℕ
  both_have = min (frames_in frac_src_frames m.src_offset step) (dst_frames - m.dst_offset)

  loop-Mixes :
      (value : ℤ → ℤ → ℤ)
      → 0 < step
      → m.dst_offset ≤ dst_frames
      → Mixes l value src dst_frames frac_src_frames step m (
          some (
            leb frac_src_frames (run_frames l value src step both_have m).src_offset,
            run_frames l value src step both_have m,
          ))
  loop-Mixes value hs le = record {
    frames = both_have;
    left = run_frames l value src step both_have m;
    returned = refl;
    room = omega arith;
    available = λ j h. frames_in_below frac_src_frames m.src_offset step j hs (omega arith);
    ended =
        ended_of_count (frames_in frac_src_frames m.src_offset step)
          (frames_in_reach frac_src_frames m.src_offset step hs) le;
    dst_advanced = run_frames_dst_offset l value src step both_have m;
    src_advanced = run_frames_src_offset l value src step both_have m;
    written = λ j c h k. run_frames_written l value src step both_have m j c h k;
    others = λ q h. run_frames_other l value src step both_have m q h;
  }

  abbrev skipped : Mixed
  skipped = record m {
    dst_offset = m.dst_offset + both_have;
    src_offset = m.src_offset + both_have * step;
  }

  muted-Mixes :
      0 < step
      → m.dst_offset ≤ dst_frames
      → Mixes l
          (λ old sample. old)
          src
          dst_frames
          frac_src_frames
          step
          m
          (some (leb frac_src_frames skipped.src_offset, skipped))
  muted-Mixes hs le = record {
    frames = both_have;
    left = skipped;
    returned = refl;
    room = omega arith;
    available = λ j h. frames_in_below frac_src_frames m.src_offset step j hs (omega arith);
    ended =
        ended_of_count (frames_in frac_src_frames m.src_offset step)
          (frames_in_reach frac_src_frames m.src_offset step hs) le;
    dst_advanced = refl;
    src_advanced = refl;
    written = λ j c h k. refl;
    others = λ q h. refl;
  }

  full-Mixes :
      dst_frames ≡ m.dst_offset
      → Mixes l
          (λ old sample. old)
          src
          dst_frames
          frac_src_frames
          step
          m
          (some (leb frac_src_frames m.src_offset, m))
  full-Mixes e = record {
    frames = 0;
    left = m;
    returned = refl;
    room = omega arith;
    available = λ j h. absurd (omega arith);
    ended = inl (omega arith);
    dst_advanced = omega arith;
    src_advanced = grind arith;
    written = λ j c h k. refl;
    others = λ q h. refl;
  }

  pub looped-Mixes :
      (value : ℤ → ℤ → ℤ)
      → 0 < step
      → frac_src_frames + step ≤ 2 ^ 31
      → m.dst_offset ≤ dst_frames
      → Mixes l value src dst_frames frac_src_frames step m (
          consumes frac_src_frames (
            point_rounds
              (point_frame l value src)
              dst_frames
              frac_src_frames
              step
              (dst_frames - m.dst_offset)
              m))
  looped-Mixes value hs fits le =
      rw
        (point_rounds-run_frames l value src dst_frames frac_src_frames step
          (dst_frames - m.dst_offset) m refl hs fits)
        (loop-Mixes value hs le)

  pub skipped-Mixes :
      0 < step
      → frac_src_frames + step ≤ 2 ^ 31
      → m.src_offset < frac_src_frames
      → m.dst_offset ≤ dst_frames
      → Mixes l
          (λ old sample. old)
          src
          dst_frames
          frac_src_frames
          step
          m
          (consumes frac_src_frames (skip_muted dst_frames frac_src_frames step m))
  skipped-Mixes hs fits inside le = elim (Bool-cases (ltb m.dst_offset dst_frames)) [
    | inl room ↦
        rw (skip_muted-advance dst_frames frac_src_frames step m hs fits inside (ground arith))
          (muted-Mixes hs le)
    | inr full ↦
        rw (skip_muted_full dst_frames frac_src_frames step m full) (full-Mixes (ground arith))
  ]
