-- ===== src/Mixer/Linear/Ends.antt =====
-- The end of a call of LinearSampler::Mix.
use mathlib.Core.Option.{bind}
use motown.Base.{
  ◌⊎◌, ℕ, subst, ◌+◌, ◌-◌, ◌^◌, ◌≤◌, ◌<◌, ◌≡◌, refl, inl, inr, arith, ltb, leb, lt→ltb, Bool-cases,
  Option, some, Bool, true, ◌&&◌, not,
}
use motown.Base.Int.{ℤ, pos, pos_part, neg_part, ltb_ℤ, ◌≤ℤ◌}
use motown.Mixer.Point.{mixed_sample}
use motown.Mixer.Linear.Samples.{linear_sample, held_sample}
use motown.Mixer.{Layout, Scaler, scaler_of}
use motown.Mixer.Linear.{
  read_channel, LinearState, hold_last, hold_frame, frame_at, linear_mix_with, linear_mix,
}
use motown.Mixer.Linear.Timing.{Went, ◌<ℤ◌}
use motown.Mixer.Linear.Calls.{advance_linear-Passes}
use motown.Mixer.Linear.Final.{mix_final-Passes}

-- A call passes frames one after another, each of which starts at or in front of the last frame of
-- the source and has room in the destination, until the destination is full or the position is behind
-- that frame, and mixes the samples of their positions. Its result is true where the source is used
-- up and the destination has room left; and then it holds the last frame.
pub record LinearMixes (l : Layout) (mix : ℤ → ℤ → ℤ) (src : ℕ → ℤ) (dst_frames send step : ℕ)
    (m : LinearState) (out : Option (Bool × LinearState)) : Type 0 where
  pub left : LinearState
  pub returned :
      out ≡ some (not (ltb_ℤ left.src_offset (pos send)) && ltb left.dst_offset dst_frames, left)
  pub went :
      Went l.dst_channels mix
        (linear_sample l src m.filter_data send)
        dst_frames
        step
        (send + 1)
        m
        left
  pub ended : (left.dst_offset ≡ dst_frames) ⊎ (pos send <ℤ left.src_offset)
  pub held :
      (c : ℕ)
      → pos send ≤ℤ left.src_offset
      → c < l.dst_channels
      → left.filter_data c ≡ read_channel l src (frame_at l send) c

le→leb : (a b : ℕ) → a ≤ b → leb a b ≡ true
le→leb a b h = ground arith

module _ (l : Layout) (scaler : Scaler) (accumulate : Bool) (scale : ℕ) (src held : ℕ → ℤ)
    (dst_frames send step : ℕ) where
  abbrev mix : ℤ → ℤ → ℤ
  mix = mixed_sample scaler accumulate scale

  abbrev Ended : LinearState → Type 0
  Ended k = (k.dst_offset ≡ dst_frames) ⊎ (pos send <ℤ k.src_offset)

  Ended-behind :
      (k : LinearState) → (k.dst_offset ≡ dst_frames) ⊎ (pos (send + 1) ≤ℤ k.src_offset) → Ended k
  Ended-behind k (inl full) = inl full
  Ended-behind k (inr behind) = inr (omega arith)

  hold_last-Mixes :
      (m k : LinearState)
      → m.filter_data ≡ held
      → Went l.dst_channels mix
          (linear_sample l src m.filter_data send)
          dst_frames
          step
          (send + 1)
          m
          k
      → (k.dst_offset ≡ dst_frames) ⊎ (pos (send + 1) ≤ℤ k.src_offset)
      → LinearMixes l mix src dst_frames send step m
          (some (hold_last l src dst_frames (pos send) k))
  unfolding hold_last
  hold_last-Mixes m k e w ended = elim (Bool-cases (ltb_ℤ k.src_offset (pos send))) [
    | inl before ↦ record {
      left = k;
      returned = rw (before) refl;
      went = w;
      ended = Ended-behind k ended;
      held = λ c h lt. absurd (ground arith);
    }
    | inr after ↦ record {
      left = record k {
        filter_data = hold_frame l src (frame_at l (pos_part (pos send))) 0 k.filter_data;
      };
      returned = rw (after) refl;
      went = record {
        frames = w.frames;
        dst_went = w.dst_went;
        src_went = w.src_went;
        room = w.room;
        available = w.available;
        mixed = w.mixed;
      };
      ended = Ended-behind k ended;
      held = λ c h lt.
          let first : 0 + c ≡ c = omega arith in
          subst
            (λ q.
              hold_frame l src (frame_at l send) 0 k.filter_data q
              ≡ read_channel l src (frame_at l send) c)
            first (held_sample l src (frame_at l send) 0 k.filter_data c lt);
    }
  ]

-- For a step that is not 0, a source of one frame or more that, with a step more, ends within
-- int32_t, a position less than a frame in front of the source or behind its start, and a
-- destination with room, LinearSampler::Mix comes to its end at any scale, muted or not: it passes
-- some frames, each of which starts at or in front of the last frame of the source and has room in
-- the destination, until the destination is full or the position is behind that frame. The
-- destination is the one that these frames leave one after another where the sample of a position
-- is interpolated between the held frame and the first one, or between two frames of the source,
-- or is that of its last frame; a muted call leaves it alone. It returns true where the position
-- is at or behind the last frame and the destination has room left, and false else, so also where
-- the destination is full and the position is past the whole source; and where it is at or behind
-- it, it holds that frame for the next call.
pub linear_mix-Mixes :
    (l : Layout) (scale : ℕ) (accumulate : Bool) (src : ℕ → ℤ) (dst_frames frac_src_frames step : ℕ)
    (m : LinearState)
    → 0 < step
    → 4096 ≤ frac_src_frames
    → frac_src_frames + step ≤ 2 ^ 31
    → neg_part m.src_offset < 4096
    → m.dst_offset < dst_frames
    → LinearMixes l
        (mixed_sample (scaler_of scale) accumulate scale)
        src
        dst_frames
        (frac_src_frames - 4096)
        step
        m
        (linear_mix l scale accumulate src dst_frames frac_src_frames step m)
unfolding linear_mix linear_mix_with bind
linear_mix-Mixes l scale accumulate src dst_frames frac_src_frames step m hs whole fits held room =
    let send = frac_src_frames - 4096 in
    let s = scaler_of scale in
    let a =
      advance_linear-Passes l accumulate scale src dst_frames step send m s hs room (omega arith)
        held in
    let b =
      mix_final-Passes l s accumulate scale src m.filter_data dst_frames send step m a.0 hs
        (omega arith) a.2 a.3 in
    rw
      (
        lt→ltb m.dst_offset dst_frames room,
        le→leb 4096 frac_src_frames whole,
        lt→ltb frac_src_frames (2 ^ 31) (omega arith),
        lt→ltb (neg_part m.src_offset) 4096 held,
        a.1,
        b.1,
      )
      (hold_last-Mixes l s accumulate scale src m.filter_data dst_frames send step m b.0 refl b.2
        b.3)
