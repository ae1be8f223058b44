-- ===== src/Mixer/Linear/Skip.antt =====
-- What a muted call of LinearSampler::Mix passes.
use native.Mathlib.Nat.{mod-eq_of_lt}
use motown.Base.{
  ◌⊎◌, ℕ, ◌+◌, ◌-◌, ◌*◌, ◌%◌, ◌^◌, ◌≤◌, ◌<◌, ◌≡◌, refl, ◌∙◌, inl, inr, arith, min, leb, lt→ltb,
  ne→==, Bool-cases, true, sym,
}
use motown.Base.Int.{ℤ, pos, pos_part, neg_part, ltb_ℤ, ◌+ℤ◌, ◌-ℤ◌, ◌≤ℤ◌}
use motown.Mixer.Linear.Samples.{mixed_frames_kept}
use motown.Mixer.Counts.{frames_in, frames_in_reach, frames_in_below}
use motown.Mixer.Advance.{advance_fits}
use motown.Mixer.Linear.{LinearState, skip_frames}
use motown.Mixer.Linear.Timing.{Passes, ◌<ℤ◌, Went, Went-nowhere}

-- How far it is to a limit, and what a move by so much brings.
distance_to :
    (z : ℤ) (limit : ℕ)
    → z <ℤ pos limit
    → pos_part z + pos_part (pos limit -ℤ z) ≡ limit + neg_part z
unfolding ◌-ℤ◌
distance_to z limit h = ground arith

moved_below :
    (z : ℤ) (d limit a : ℕ) → pos_part z + d ≡ limit + neg_part z → a < d → z +ℤ pos a <ℤ pos limit
unfolding ◌+ℤ◌
moved_below z d limit a e h = ground arith

moved_past :
    (z : ℤ) (d limit a : ℕ) → pos_part z + d ≡ limit + neg_part z → d ≤ a → pos limit ≤ℤ z +ℤ pos a
unfolding ◌+ℤ◌
moved_past z d limit a e h = ground arith

-- A count that one of the buffers limits.
count_ends :
    (z : ℤ) (d limit step f first dst_frames : ℕ)
    → pos_part z + d ≡ limit + neg_part z
    → d ≤ 0 + f * step
    → first ≤ dst_frames
    → (first + min f (dst_frames - first) ≡ dst_frames)
      ⊎ (pos limit ≤ℤ z +ℤ pos (min f (dst_frames - first) * step))
count_ends z d limit step f first dst_frames e reach le =
    elim (Bool-cases (leb f (dst_frames - first))) [
      | inl few ↦
          let same : min f (dst_frames - first) ≡ f = ground arith in
          inr (rw (same) (moved_past z d limit (f * step) e (omega arith)))
      | inr many ↦ inl (ground arith)
    ]

module _ (channels : ℕ) (sample : ℤ → ℕ → ℤ) (dst_frames step limit : ℕ) where
  pub skip-Passes :
      (m : LinearState)
      → 0 < step
      → m.dst_offset < dst_frames
      → limit + 4096 + step ≤ 2 ^ 31
      → neg_part m.src_offset < 4096
      → Passes channels
          (λ old t. old)
          sample
          dst_frames
          step
          limit
          m
          (skip_frames dst_frames (pos limit) step m)
  unfolding skip_frames
  skip-Passes m hs room fits held = elim (Bool-cases (ltb_ℤ m.src_offset (pos limit))) [
    | inr after ↦ (
      m,
      rw (after, lt→ltb m.dst_offset dst_frames room) refl,
      Went-nowhere channels (λ old t. old) sample dst_frames step limit m (omega arith),
      inr (ground arith),
    )
    | inl before ↦
        let d = pos_part (pos limit -ℤ m.src_offset) in
        let avail = min (frames_in d 0 step) (dst_frames - m.dst_offset) in
        let between : pos_part m.src_offset + d ≡ limit + neg_part m.src_offset =
          distance_to m.src_offset limit (ground arith) in
        let whole : (d + step - 1) % 2 ^ 32 ≡ d - 0 + step - 1 =
          mod-eq_of_lt {n = d + step - 1} {m = 2 ^ 32} (omega arith) ∙ omega arith in
        let distance_pos : 0 < d = ground arith in
        let behind = advance_fits d 0 step avail hs distance_pos (omega arith) in
        let small : ltb_ℤ (m.src_offset +ℤ pos (avail * step)) (pos (2 ^ 31)) ≡ true =
          lt→ltb (pos_part (m.src_offset +ℤ pos (avail * step)) + 0)
            (2 ^ 31 + neg_part (m.src_offset +ℤ pos (avail * step)))
            (moved_below m.src_offset (d + (2 ^ 31 - limit)) (2 ^ 31) (avail * step) (omega arith)
              (omega arith)) in
        let reach = frames_in_reach d 0 step hs in
        let k : LinearState = record m {
          dst_offset = m.dst_offset + avail;
          src_offset = m.src_offset +ℤ pos (avail * step);
        } in
        let went : Went channels (λ old t. old) sample dst_frames step limit m k = record {
          frames = avail;
          dst_went = refl;
          src_went = refl;
          room = omega arith;
          available = λ j h.
              let v = frames_in_below d 0 step j hs (omega arith) in
              moved_below m.src_offset d limit (j * step) between (omega arith);
          mixed =
              sym (mixed_frames_kept channels sample step avail m.dst_offset m.src_offset m.dst);
        } in
        (
          k,
          rw (before, lt→ltb m.dst_offset dst_frames room, whole, ne→== step 0 (omega arith), small)
              refl,
          went,
          count_ends m.src_offset d limit step (frames_in d 0 step) m.dst_offset dst_frames between
              reach (omega arith),
        )
  ]
