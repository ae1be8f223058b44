-- ===== src/Mixer/Frames.antt =====
-- What the mixers write for one frame, and for several frames.
use native.Mathlib.Nat.{mul-le-mul}
use motown.Base.{
  ◌⊎◌, ℕ, zero, suc, ◌+◌, ◌*◌, ◌/◌, ◌≤◌, ◌<◌, ◌≡◌, ◌≢◌, refl, ap, subst, ◌∙◌, inl, inr, arith,
}
use motown.Base.Int.{ℤ}
use motown.Lpcm.{store}
use motown.Lpcm.Copied.{store_self, store_other}
use motown.Mixer.{Layout, dst_per_src, read_sample, mix_channels, Mixed, point_frame, frac_one}

module _ (sample : ℕ → ℤ) (mix : ℤ → ℤ → ℤ) where
  -- What the loop over the channels leaves alone.
  pub mix_channels_other :
      (left c base : ℕ) (out : ℕ → ℤ) (q : ℕ)
      → ((i : ℕ) → i < left → base + c + i ≢ q)
      → mix_channels sample mix left c base out q ≡ out q
  unfolding mix_channels
  mix_channels_other zero c base out q away = refl
  mix_channels_other (suc left) c base out q away =
      mix_channels_other left (c + 1) base (store out (base + c) (mix (out (base + c)) (sample c)))
        q (λ i h e. away (suc i) (omega arith) (omega arith))
      ∙ store_other out (base + c) (mix (out (base + c)) (sample c)) q
          (λ e. away 0 (omega arith) (omega arith))

  -- What it writes.
  pub mix_channels_written :
      (left c base : ℕ) (out : ℕ → ℤ) (i : ℕ)
      → i < left
      → mix_channels sample mix left c base out (base + c + i)
        ≡ mix (out (base + c + i)) (sample (c + i))
  unfolding mix_channels
  mix_channels_written zero c base out i h = absurd (omega arith)
  mix_channels_written (suc left) c base out zero h =
      let place : base + c + 0 ≡ base + c = omega arith in
      let same : c + 0 ≡ c = omega arith in
      rw (place, same)
        (mix_channels_other left (c + 1) base
            (store out (base + c) (mix (out (base + c)) (sample c))) (base + c)
            (λ j k e. absurd (omega arith))
          ∙ store_self out (base + c) (mix (out (base + c)) (sample c)))
  mix_channels_written (suc left) c base out (suc i) h =
      let place : base + c + suc i ≡ base + (c + 1) + i = omega arith in
      let same : c + suc i ≡ c + 1 + i = omega arith in
      rw (place, same)
        (mix_channels_written left (c + 1) base
            (store out (base + c) (mix (out (base + c)) (sample c))) i (omega arith)
          ∙ ap (λ v. mix v (sample (c + 1 + i)))
              (store_other out (base + c) (mix (out (base + c)) (sample c)) (base + (c + 1) + i)
                (λ e. absurd (omega arith))))

row_after : (a d : ℕ) → (a + 1) * d ≡ a * d + d
row_after a d = grind arith

rows_le : (a b d : ℕ) → a ≤ b → a * d ≤ b * d
rows_le a b d h = mul-le-mul {n₂ = b} {m₂ = d} h (omega arith)

-- What PointSampler reads for a channel at a position of the source.
abbrev pub point_sample : Layout → (ℕ → ℤ) → ℕ → ℕ → ℤ
point_sample l src pos c = read_sample l src (pos / frac_one * l.src_channels + c / dst_per_src l)

module _ (l : Layout) (mix : ℤ → ℤ → ℤ) (src : ℕ → ℤ) where
  point_frame_other :
      (m : Mixed) (q : ℕ)
      → (q < m.dst_offset * l.dst_channels) ⊎ ((m.dst_offset + 1) * l.dst_channels ≤ q)
      → point_frame l mix src m q ≡ m.dst q
  unfolding point_frame
  point_frame_other m q out =
      let row = row_after m.dst_offset l.dst_channels in
      mix_channels_other (point_sample l src m.src_offset) mix l.dst_channels 0
        (m.dst_offset * l.dst_channels) m.dst q (λ i h e. absurd (omega arith))

  point_frame_written :
      (m : Mixed) (c : ℕ)
      → c < l.dst_channels
      → point_frame l mix src m (m.dst_offset * l.dst_channels + c)
        ≡ mix (m.dst (m.dst_offset * l.dst_channels + c)) (point_sample l src m.src_offset c)
  unfolding point_frame
  point_frame_written m c h =
      let same : m.dst_offset * l.dst_channels + 0 + c ≡ m.dst_offset * l.dst_channels + c =
        omega arith in
      let first : 0 + c ≡ c = omega arith in
      let start = m.dst_offset * l.dst_channels in
      subst
        (λ p. point_frame l mix src m p ≡ mix (m.dst p) (point_sample l src m.src_offset (0 + c)))
        same
        (mix_channels_written (point_sample l src m.src_offset) mix l.dst_channels 0 start m.dst c
          h)
      ∙ ap (λ t. mix (m.dst (start + c)) (point_sample l src m.src_offset t)) first

  abbrev pub next_frame : ℕ → Mixed → Mixed
  next_frame step m = record {
    dst_offset = m.dst_offset + 1;
    src_offset = m.src_offset + step;
    dst = point_frame l mix src m;
  }

  -- Several frames after one another, `step` apart in the source.
  unfoldable pub run_frames : ℕ → ℕ → Mixed → Mixed
  run_frames step zero m = m
  run_frames step (suc n) m = run_frames step n (next_frame step m)

  pub run_frames_dst_offset :
      (step n : ℕ) (m : Mixed) → (run_frames step n m).dst_offset ≡ m.dst_offset + n
  unfolding run_frames
  run_frames_dst_offset step zero m = omega arith
  run_frames_dst_offset step (suc n) m =
      run_frames_dst_offset step n (next_frame step m) ∙ omega arith

  pub run_frames_src_offset :
      (step n : ℕ) (m : Mixed) → (run_frames step n m).src_offset ≡ m.src_offset + n * step
  unfolding run_frames
  run_frames_src_offset step zero m = grind arith
  run_frames_src_offset step (suc n) m =
      run_frames_src_offset step n (next_frame step m) ∙ grind arith

  -- The other frames keep their samples.
  pub run_frames_other :
      (step n : ℕ) (m : Mixed) (q : ℕ)
      → (q < m.dst_offset * l.dst_channels) ⊎ ((m.dst_offset + n) * l.dst_channels ≤ q)
      → (run_frames step n m).dst q ≡ m.dst q
  unfolding run_frames
  run_frames_other step zero m q out = refl
  run_frames_other step (suc n) m q out =
      let row = row_after m.dst_offset l.dst_channels in
      let later = rows_le (m.dst_offset + 1) (m.dst_offset + suc n) l.dst_channels (omega arith) in
      let same : m.dst_offset + 1 + n ≡ m.dst_offset + suc n = omega arith in
      elim out as (λ _. (run_frames step n (next_frame step m)).dst q ≡ m.dst q) [
        | inl h ↦
            run_frames_other step n (next_frame step m) q (inl (omega arith))
            ∙ point_frame_other m q (inl h)
        | inr h ↦
            run_frames_other step n (next_frame step m) q (inr (rw (same) h))
            ∙ point_frame_other m q (inr (omega arith))
      ]

  -- Each frame mixes the samples at its own position.
  pub run_frames_written :
      (step n : ℕ) (m : Mixed) (j c : ℕ)
      → j < n
      → c < l.dst_channels
      → (run_frames step n m).dst ((m.dst_offset + j) * l.dst_channels + c)
        ≡ mix
            (m.dst ((m.dst_offset + j) * l.dst_channels + c))
            (point_sample l src (m.src_offset + j * step) c)
  unfolding run_frames
  run_frames_written step zero m j c h k = absurd (omega arith)
  run_frames_written step (suc n) m zero c h k =
      let row = row_after m.dst_offset l.dst_channels in
      let first : m.dst_offset + 0 ≡ m.dst_offset = omega arith in
      let start : m.src_offset + 0 * step ≡ m.src_offset = grind arith in
      rw (first, start)
        (run_frames_other step n (next_frame step m) (m.dst_offset * l.dst_channels + c)
            (inl (omega arith))
          ∙ point_frame_written m c k)
  run_frames_written step (suc n) m (suc j) c h k =
      let row = row_after m.dst_offset l.dst_channels in
      let later = rows_le (m.dst_offset + 1) (m.dst_offset + 1 + j) l.dst_channels (omega arith) in
      let next : m.dst_offset + suc j ≡ m.dst_offset + 1 + j = omega arith in
      let further : m.src_offset + suc j * step ≡ m.src_offset + step + j * step = grind arith in
      let at_next = (m.dst_offset + 1 + j) * l.dst_channels + c in
      rw (next, further)
        (run_frames_written step n (next_frame step m) j c (omega arith) k
          ∙ ap (λ v. mix v (point_sample l src (m.src_offset + step + j * step) c))
              (point_frame_other m at_next (inr (omega arith))))
