-- ===== src/Mixer/Linear/Samples.antt =====
-- The samples that LinearSampler::Mix mixes at a position.
use mathlib.Core.Path.{fun_ext}
use motown.Base.{
  ℕ, zero, suc, ◌+◌, ◌*◌, ◌/◌, ◌%◌, ◌<◌, ◌≡◌, refl, ap, subst, ◌∙◌, arith, ◌==◌, if◌then◌else◌,
  Bool-cases, inl, inr, true, false, ==_iff,
}
use motown.Base.Int.{ℤ, pos, pos_part, neg_part, ltb_ℤ, ◌+ℤ◌}
use motown.Lpcm.{store}
use motown.Mixer.{frac_one, Layout, dst_per_src, read_sample, mix_channels}
use motown.Mixer.Frames.{mix_channels_other, mix_channels_written}
use motown.Mixer.Linear.Timing.{mixed_frames}
use motown.Mixer.Linear.{
  LinearState, interpolate, read_channel, frame_at, hold_frame, frame_before, frame_within,
  frame_last,
}

-- Between the held frame and the first one, between two frames of the source, or at its last frame.
pub linear_sample : Layout → (ℕ → ℤ) → (ℕ → ℤ) → ℕ → ℤ → ℕ → ℤ
linear_sample l src held send z c =
    let i = frame_at l (pos_part z) in
    if ltb_ℤ z (pos 0)
    then interpolate (read_channel l src 0 c) (held c) (neg_part z)
    else if ltb_ℤ z (pos send)
    then interpolate (read_channel l src i c)
        (read_sample l src (i + c / dst_per_src l + l.src_channels)) (pos_part z % frac_one)
    else read_channel l src i c

store_same : (out : ℕ → ℤ) (p : ℕ) → store out p (out p) ≡ out
unfolding store
store_same out p = fun_ext (λ q. elim (Bool-cases (p == q)) [
  | inl e ↦ rw (e) (ap out ((==_iff p q).0 e))
  | inr e ↦ rw (e) refl
])

-- Where nothing is mixed, the samples stay.
pub mix_channels_kept :
    (sample : ℕ → ℤ) (left c base : ℕ) (out : ℕ → ℤ)
    → mix_channels sample (λ old t. old) left c base out ≡ out
unfolding mix_channels
mix_channels_kept sample zero c base out = refl
mix_channels_kept sample (suc left) c base out =
    mix_channels_kept sample left (c + 1) base (store out (base + c) (out (base + c)))
    ∙ store_same out (base + c)

pub mixed_frames_kept :
    (channels : ℕ) (sample : ℤ → ℕ → ℤ) (step n d : ℕ) (z : ℤ) (out : ℕ → ℤ)
    → mixed_frames channels (λ old t. old) sample step n d z out ≡ out
unfolding mixed_frames
mixed_frames_kept channels sample step zero d z out = refl
mixed_frames_kept channels sample step (suc n) d z out =
    mixed_frames_kept channels sample step n (d + 1) (z +ℤ pos step)
      (mix_channels (sample z) (λ old t. old) channels 0 (d * channels) out)
    ∙ mix_channels_kept (sample z) channels 0 (d * channels) out

-- Only the samples of the channels count.
pub mix_channels_same :
    (s t : ℕ → ℤ) (mix : ℤ → ℤ → ℤ) (left c base : ℕ) (out : ℕ → ℤ)
    → ((i : ℕ) → i < left → s (c + i) ≡ t (c + i))
    → mix_channels s mix left c base out ≡ mix_channels t mix left c base out
unfolding mix_channels
mix_channels_same s t mix zero c base out h = refl
mix_channels_same s t mix (suc left) c base out h =
    let first : s c ≡ t c =
      subst (λ k. s k ≡ t k) (let none_more : c + 0 ≡ c = omega arith in none_more)
        (h 0 (omega arith)) in
    mix_channels_same s t mix left (c + 1) base (store out (base + c) (mix (out (base + c)) (s c)))
      (λ i k.
        let next : c + suc i ≡ c + 1 + i = omega arith in
        subst (λ p. s p ≡ t p) next (h (suc i) (omega arith)))
    ∙ ap (λ v. mix_channels t mix left (c + 1) base (store out (base + c) (mix (out (base + c)) v)))
        first

module _ (l : Layout) (src : ℕ → ℤ) (i place : ℕ) (f : ℕ → ℤ) where
  pub held_sample :
      (c : ℕ) → c < l.dst_channels → hold_frame l src i place f (place + c) ≡ read_channel l src i c
  unfolding hold_frame
  held_sample c h =
      let there : place + 0 + c ≡ place + c = omega arith in
      let first : 0 + c ≡ c = omega arith in
      subst (λ q. hold_frame l src i place f q ≡ read_channel l src i (0 + c)) there
        (mix_channels_written (read_channel l src i) (λ old t. t) l.dst_channels 0 place f c h)
      ∙ ap (read_channel l src i) first

  not_held : (q : ℕ) → q < place → hold_frame l src i place f q ≡ f q
  unfolding hold_frame
  not_held q h =
      mix_channels_other (read_channel l src i) (λ old t. t) l.dst_channels 0 place f q
        (λ k lt e. absurd (omega arith))

module _ (l : Layout) (mix : ℤ → ℤ → ℤ) (src held : ℕ → ℤ) (send : ℕ) (m : LinearState) where
  abbrev row : ℕ → ℤ
  row =
      mix_channels (linear_sample l src held send m.src_offset) mix l.dst_channels 0
        (m.dst_offset * l.dst_channels) m.dst

  pub frame_before-linear_sample :
      m.filter_data ≡ hold_frame l src 0 l.dst_channels held
      → ltb_ℤ m.src_offset (pos 0) ≡ true
      → frame_before l mix m ≡ row
  unfolding frame_before linear_sample
  frame_before-linear_sample e before =
      mix_channels_same
        (λ c.
          interpolate (m.filter_data (l.dst_channels + c)) (m.filter_data c)
            (neg_part m.src_offset))
        (linear_sample l src held send m.src_offset) mix l.dst_channels 0
        (m.dst_offset * l.dst_channels) m.dst
        (λ c h.
          let next =
            ap (λ f. f (l.dst_channels + (0 + c))) e
            ∙ held_sample l src 0 l.dst_channels held (0 + c) (omega arith) in
          let last =
            ap (λ f. f (0 + c)) e ∙ not_held l src 0 l.dst_channels held (0 + c) (omega arith) in
          rw (before) (
            ap (λ v. interpolate v (m.filter_data (0 + c)) (neg_part m.src_offset)) next
            ∙ ap (λ v. interpolate (read_channel l src 0 (0 + c)) v (neg_part m.src_offset)) last))

  pub frame_within-linear_sample :
      ltb_ℤ m.src_offset (pos 0) ≡ false
      → ltb_ℤ m.src_offset (pos send) ≡ true
      → frame_within l mix src m ≡ row
  unfolding frame_within linear_sample
  frame_within-linear_sample after before =
      let i = frame_at l (pos_part m.src_offset) in
      mix_channels_same
        (λ c.
          interpolate (read_channel l src i c)
            (read_sample l src (i + c / dst_per_src l + l.src_channels))
            (pos_part m.src_offset % frac_one))
        (linear_sample l src held send m.src_offset) mix l.dst_channels 0
        (m.dst_offset * l.dst_channels) m.dst (λ c h. rw (after, before) refl)

  pub frame_last-linear_sample :
      ltb_ℤ m.src_offset (pos 0) ≡ false
      → ltb_ℤ m.src_offset (pos send) ≡ false
      → frame_last l mix src m ≡ row
  unfolding frame_last linear_sample
  frame_last-linear_sample after behind =
      mix_channels_same (read_channel l src (frame_at l (pos_part m.src_offset)))
        (linear_sample l src held send m.src_offset) mix l.dst_channels 0
        (m.dst_offset * l.dst_channels) m.dst (λ c h. rw (after, behind) refl)
