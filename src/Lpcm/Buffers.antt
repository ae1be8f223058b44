-- ===== src/Lpcm/Buffers.antt =====
-- What Interleave and the reformatter write.
use native.Mathlib.Nat.{mod-lt, div-add-mod, mul-le-mul, div-lt_iff_lt-mul}
use motown.Base.{
  ℕ, ◌+◌, ◌*◌, ◌/◌, ◌%◌, ◌≤◌, ◌<◌, ◌≡◌, ap, subst, ◌∙◌, inl, inr, some, arith, ltb, if◌then◌else◌,
  Bool-cases,
}
use motown.Lpcm.{copy_channels, interleave, reformat}
use motown.Lpcm.Copied.{copy_channels_other, copy_channels_written}

-- The position of a channel's sample in interleaved frames.
abbrev pub sample_of : ℕ → ℕ → ℕ → ℕ
sample_of channels channel frame = channel + frame * channels

-- The samples of `frames` frames lie in front of the position frames * channels.
sample_below :
    (channels frames c m : ℕ) → c < channels → m < frames → c + m * channels < frames * channels
sample_below channels frames c m h k =
    let mono : (m + 1) * channels ≤ frames * channels =
      mul-le-mul {n₂ = frames} {m₂ = channels} (omega arith) (omega arith) in
    let more : (m + 1) * channels ≡ m * channels + channels = grind arith in omega arith

-- For one channel or more, the loops of the reformatter convert each of the samples of the frames,
-- in place, and leave the rest of the output as it was.
pub reformat-converts {ℓ κ} :
    {A : Type ℓ} {B : Type κ} (copy : A → B) (channels frames : ℕ) (input : ℕ → A) (out : ℕ → B)
    (p : ℕ)
    → 0 < channels
    → reformat copy channels frames input out p
      ≡ (if ltb p (frames * channels) then copy (input p) else out p)
unfolding reformat
reformat-converts copy channels frames input out p hc =
    elim (Bool-cases (ltb p (frames * channels))) [
      | inl e ↦
          let row : p / channels < frames = (div-lt_iff_lt-mul hc).1 (ground arith) in
          let col = mod-lt p hc in
          let there : 0 + p % channels + p / channels * channels ≡ p =
            omega (arith, div-add-mod p channels) in
          let here : 0 + p % channels * 1 + p / channels * channels ≡ p =
            omega (arith, div-add-mod p channels) in
          rw e (
            subst
              (λ q.
                copy_channels copy channels frames input 0 1 channels out 0 channels q
                ≡ copy (input p))
              there
              (copy_channels_written copy input channels frames 0 1 channels out 0 channels
                  (p % channels) (p / channels) (omega arith) col row
                ∙ ap (λ q. copy (input q)) here))
      | inr e ↦ rw e (
          copy_channels_other copy input channels frames 0 1 channels out 0 channels p
            (λ c m h k same. absurd (ground (arith, sample_below channels frames c m h k))))
    ]

-- What Interleave makes of the channels of the input, which are one behind the other.
pub record Interleaved {ℓ} {A : Type ℓ} (channels stride frames : ℕ) (input out result : ℕ → A)
    : Type ℓ where
  pub written :
      (channel frame : ℕ)
      → channel < channels
      → frame < frames
      → result (sample_of channels channel frame) ≡ input (channel * stride + frame)
  pub other : (p : ℕ) → frames * channels ≤ p → result p ≡ out p

-- For an input of whole frames, at least as many as are asked for, of which there is one, and a
-- channel or more, Interleave writes the sample of each channel and frame to its place in the
-- frame, and leaves the rest of the output as it was.
pub interleave-Interleaved {ℓ} :
    {A : Type ℓ} (channels bytes_per_frame in_byte_count frames : ℕ) (input out : ℕ → A)
    → 0 < channels
    → 0 < frames
    → 0 < in_byte_count
    → in_byte_count % bytes_per_frame ≡ 0
    → frames * bytes_per_frame ≤ in_byte_count
    → (result : ℕ → A) × (interleave channels bytes_per_frame input in_byte_count out frames
        ≡ some result)
      × Interleaved channels (in_byte_count / bytes_per_frame) frames input out result
unfolding interleave
interleave-Interleaved channels bytes_per_frame in_byte_count frames input out hc hf hi whole fits =
    let stride = in_byte_count / bytes_per_frame in
    (
      copy_channels (λ x. x) channels frames input 0 stride 1 out 0 channels,
      ground arith,
      record {
        written = λ c m h k.
            let there : sample_of channels c m ≡ 0 + c + m * channels = omega arith in
            let here : 0 + c * stride + m * 1 ≡ c * stride + m = omega arith in
            ap (copy_channels (λ x. x) channels frames input 0 stride 1 out 0 channels) there
            ∙ copy_channels_written (λ x. x) input channels frames 0 stride 1 out 0 channels c m
                (omega arith) h k
            ∙ ap input here;
        other = λ p h.
            copy_channels_other (λ x. x) input channels frames 0 stride 1 out 0 channels p
              (λ c m q k same. absurd (omega (arith, sample_below channels frames c m q k)));
      },
    )
