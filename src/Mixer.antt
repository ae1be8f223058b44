-- ===== src/Mixer.antt =====
-- The mixers of services/media/audio/platform/generic/mixers, and Mixer::Select of
-- services/media/audio/platform/generic/mixer.cc. A failed check, a division by 0 and a position that
-- leaves int32_t are `none`.
pub mod Frames
pub mod Counts
pub mod Loops
pub mod Point
pub mod Advance
pub mod Select
pub mod Linear
mod Tests
use motown.Base.{
  ℕ, zero, suc, ◌+◌, ◌-◌, ◌*◌, ◌/◌, ◌%◌, ◌^◌, min, Bool, true, false, ◌&&◌, ◌||◌, not, Option, none,
  some, ltb, leb, ◌==◌, if◌then◌else◌,
}
use motown.Base.Int.{ℤ, pos, negsuc, pos_part, sub_ℕ, ltb_ℤ, ◌+ℤ◌}
use motown.Lpcm.{shift_right, low_bits, store}
use motown.LinearTransform.{Ratio, make_ratio}
use motown.MediaTypes.{AudioSampleFormat, AudioMediaTypeDetails}

-- Mixer::FRAC_ONE.
abbrev pub frac_one : ℕ
frac_one = 2 ^ 12

-- Gain::UNITY, and Gain::MuteThreshold(15).
abbrev pub unity : ℕ
unity = 2 ^ 28

abbrev pub mute_threshold : ℕ
mute_threshold = 2 ^ 13 - 1

-- The types of the samples that the mixers read.
pub data SampleType : Type 0 where
  unsigned_8 signed_16 : SampleType

-- SampleNormalizer::Read.
pub normalize : SampleType → ℤ → ℤ
normalize unsigned_8 z = sub_ℕ (pos_part z * 2 ^ 8) 0x8000
normalize signed_16 z = z

-- ScalerType.
pub data Scaler : Type 0 where
  muted lt_unity eq_unity gt_unity : Scaler

-- The product of a sample and a scale, as an int64_t.
pub times : ℤ → ℕ → ℤ
times (pos n) s = pos (n * s)
times (negsuc n) s = sub_ℕ 0 ((n + 1) * s)

-- The cast to int32_t.
pub to_int32 : ℤ → ℤ
to_int32 z =
    let u = low_bits z (2 ^ 32) in if ltb u (2 ^ 31) then pos u else negsuc (2 ^ 32 - 1 - u)

pub scaled : ℤ → ℕ → ℤ
scaled val scale = to_int32 (shift_right (times val scale) (2 ^ 28))

-- SampleScaler::Scale.
pub scale_sample : Scaler → ℤ → ℕ → ℤ
scale_sample muted val scale = pos 0
scale_sample lt_unity val scale = scaled val scale
scale_sample eq_unity val scale = val
scale_sample gt_unity val scale =
    let z = scaled val scale in
    if ltb_ℤ (pos (2 ^ 15 - 1)) z
    then pos (2 ^ 15 - 1)
    else if ltb_ℤ z (negsuc (2 ^ 15 - 1))
    then negsuc (2 ^ 15 - 1)
    else z

-- DstMixer::Mix.
pub dst_mix : Scaler → Bool → ℕ → ℤ → ℤ → ℤ
dst_mix scaler false scale dst sample = scale_sample scaler sample scale
dst_mix scaler true scale dst sample = scale_sample scaler sample scale +ℤ dst

-- The parameters of the templates.
pub record Layout : Type 0 where
  pub sample_type : SampleType
  pub src_channels : ℕ
  pub dst_channels : ℕ

abbrev pub folds : Layout → Bool
folds l = l.src_channels == 2 && l.dst_channels == 1

-- SrcReader::DstPerSrc and SrcReader::Read.
pub dst_per_src : Layout → ℕ
dst_per_src l = if folds l then 1 else l.dst_channels / l.src_channels

pub read_sample : Layout → (ℕ → ℤ) → ℕ → ℤ
read_sample l src i =
    if folds l
    then shift_right (normalize l.sample_type (src i) +ℤ normalize l.sample_type (src (i + 1))) 2
    else normalize l.sample_type (src i)

-- The samples of a frame, one for each channel that is left.
pub mix_channels : (ℕ → ℤ) → (ℤ → ℤ → ℤ) → ℕ → ℕ → ℕ → (ℕ → ℤ) → ℕ → ℤ
mix_channels sample mix zero c base out = out
mix_channels sample mix (suc left) c base out =
    mix_channels sample mix left (c + 1) base
      (store out (base + c) (mix (out (base + c)) (sample c)))

-- What a mixer leaves: dst_offset, frac_src_offset and the destination.
pub record Mixed : Type 0 where
  pub dst_offset : ℕ
  pub src_offset : ℕ
  pub dst : ℕ → ℤ

-- The frame that PointSampler mixes at a destination and a source offset.
pub point_frame : Layout → (ℤ → ℤ → ℤ) → (ℕ → ℤ) → Mixed → ℕ → ℤ
point_frame l mix src m =
    mix_channels
      (λ c. read_sample l src (m.src_offset / frac_one * l.src_channels + c / dst_per_src l)) mix
      l.dst_channels 0 (m.dst_offset * l.dst_channels) m.dst

-- The loop of PointSampler, which has as many rounds as there are destination frames left.
pub point_rounds : (Mixed → ℕ → ℤ) → ℕ → ℕ → ℕ → ℕ → Mixed → Option Mixed
point_rounds frame dst_frames frac_src_frames step zero m = some m
point_rounds frame dst_frames frac_src_frames step (suc left) m =
    let more =
      point_rounds frame dst_frames frac_src_frames step left (record {
        dst_offset = m.dst_offset + 1;
        src_offset = m.src_offset + step;
        dst = frame m;
      }) in
    if ltb m.dst_offset dst_frames && ltb m.src_offset frac_src_frames
    then (if ltb (m.src_offset + step) (2 ^ 31) then more else none)
    else some m

-- The count of PointSampler where it is muted.
pub skip_muted : ℕ → ℕ → ℕ → Mixed → Option Mixed
skip_muted dst_frames frac_src_frames step m =
    let src_avail = ((frac_src_frames - m.src_offset + step - 1) % 2 ^ 32) / step in
    let avail = min src_avail (dst_frames - m.dst_offset) in
    if ltb m.dst_offset dst_frames
    then if step == 0 || not (ltb (m.src_offset + avail * step) (2 ^ 31))
      then none
      else some
          (record m { dst_offset = m.dst_offset + avail; src_offset = m.src_offset + avail * step })
    else some m

-- What PointSampler::Mix returns.
abbrev pub consumes : ℕ → Option Mixed → Option (Bool × Mixed)
consumes frac_src_frames none = none
consumes frac_src_frames (some m) = some (leb frac_src_frames m.src_offset, m)

-- PointSampler::Mix with its template parameters.
pub point_mix_with :
    Layout → Scaler → Bool → ℕ → (ℕ → ℤ) → ℕ → ℕ → ℕ → Mixed → Option (Bool × Mixed)
point_mix_with l muted accumulate scale src dst_frames frac_src_frames step m =
    if ltb frac_src_frames (2 ^ 31) && ltb m.src_offset frac_src_frames
    then consumes frac_src_frames (skip_muted dst_frames frac_src_frames step m)
    else none
point_mix_with l scaler accumulate scale src dst_frames frac_src_frames step m =
    if ltb frac_src_frames (2 ^ 31) && ltb m.src_offset frac_src_frames
    then consumes frac_src_frames (
        point_rounds (point_frame l (dst_mix scaler accumulate scale) src) dst_frames
          frac_src_frames step (dst_frames - m.dst_offset) m)
    else none

-- The choice of the template parameters.
pub scaler_of : ℕ → Scaler
scaler_of scale =
    if scale == unity
    then eq_unity
    else if ltb scale mute_threshold
    then muted
    else if ltb scale unity
    then lt_unity
    else gt_unity

-- PointSampler::Mix.
pub point_mix : Layout → ℕ → Bool → (ℕ → ℤ) → ℕ → ℕ → ℕ → Mixed → Option (Bool × Mixed)
point_mix l scale accumulate src dst_frames frac_src_frames step m =
    point_mix_with l (scaler_of scale) accumulate scale src dst_frames frac_src_frames step m

-- The mixers.
pub data Chosen : Type 0 where
  no_op : Chosen
  point linear : Layout → Chosen

-- SelectPSM and SelectLSM.
pub sample_type_of : AudioSampleFormat → Option SampleType
sample_type_of AudioSampleFormat.unsigned_8 = some unsigned_8
sample_type_of AudioSampleFormat.signed_16 = some signed_16
sample_type_of _ = none

abbrev pub one_or_two : ℕ → Bool
one_or_two n = n == 1 || n == 2

pub select_layout : AudioMediaTypeDetails → AudioMediaTypeDetails → Option Layout
select_layout src dst = elim (sample_type_of src.sample_format) as (λ o. Option Layout) [
  | none ↦ none
  | some t ↦
      if one_or_two dst.channels && one_or_two src.channels
      then some
          (record { sample_type = t; src_channels = src.channels; dst_channels = dst.channels })
      else none
]

-- Mixer::Select.
pub select_mixer : AudioMediaTypeDetails → Option AudioMediaTypeDetails → Option Chosen
select_mixer src none = some no_op
select_mixer src (some dst) =
    let ratio = make_ratio src.frames_per_second dst.frames_per_second in
    elim (select_layout src dst) as (λ o. Option Chosen) [
      | none ↦ none
      | some l ↦ some (if ratio.numerator == 1 then point l else linear l)
    ]
