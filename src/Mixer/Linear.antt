-- ===== src/Mixer/Linear.antt =====
-- The linear sampler of services/media/audio/platform/generic/mixers/linear_sampler.cc.
pub mod Timing
pub mod Samples
pub mod Skip
pub mod Calls
pub mod Final
pub mod Ends
mod Tests
use mathlib.Core.Option.{bind}
use motown.Base.{
  ℕ, zero, suc, ◌+◌, ◌-◌, ◌*◌, ◌/◌, ◌%◌, ◌^◌, min, Bool, true, false, ◌&&◌, ◌||◌, not, Option, none,
  some, ltb, leb, ◌==◌, if◌then◌else◌,
}
use motown.Base.Int.{ℤ, pos, pos_part, neg_part, ltb_ℤ, ◌+ℤ◌, ◌-ℤ◌}
use motown.Lpcm.{shift_right}
use motown.Mixer.{
  frac_one, Scaler, muted, times, dst_mix, Layout, dst_per_src, read_sample, mix_channels,
  scaler_of,
}

-- LinearSamplerImpl::Interpolate.
pub interpolate : ℤ → ℤ → ℕ → ℤ
interpolate a b alpha = shift_right (times a (frac_one - alpha) +ℤ times b alpha) (2 ^ 12)

-- What a call of Mix changes: dst_offset, frac_src_offset, the destination and filter_data_.
pub record LinearState : Type 0 where
  pub dst_offset : ℕ
  pub src_offset : ℤ
  pub dst : ℕ → ℤ
  pub filter_data : ℕ → ℤ

-- LinearSamplerImpl::Reset.
pub reset_filter : LinearState → LinearState
reset_filter m = record m { filter_data = λ d. pos 0 }

-- The samples of a frame that starts at sample i of the source.
abbrev pub read_channel : Layout → (ℕ → ℤ) → ℕ → ℕ → ℤ
read_channel l src i c = read_sample l src (i + c / dst_per_src l)

-- The first sample of the frame at a position.
abbrev pub frame_at : Layout → ℕ → ℕ
frame_at l offset = offset / frac_one * l.src_channels

-- The samples of a frame that are stored in filter_data_ from a place on.
pub hold_frame : Layout → (ℕ → ℤ) → ℕ → ℕ → (ℕ → ℤ) → ℕ → ℤ
hold_frame l src i place filter_data =
    mix_channels (read_channel l src i) (λ old sample. sample) l.dst_channels 0 place filter_data

-- The frame between the held one and the first one of the source.
pub frame_before : Layout → (ℤ → ℤ → ℤ) → LinearState → ℕ → ℤ
frame_before l mix m =
    mix_channels
      (λ c.
        interpolate (m.filter_data (l.dst_channels + c)) (m.filter_data c) (neg_part m.src_offset))
      mix l.dst_channels 0 (m.dst_offset * l.dst_channels) m.dst

-- The frame between two of the source.
pub frame_within : Layout → (ℤ → ℤ → ℤ) → (ℕ → ℤ) → LinearState → ℕ → ℤ
frame_within l mix src m =
    let i = frame_at l (pos_part m.src_offset) in
    mix_channels
      (λ c.
        interpolate (read_channel l src i c)
          (read_sample l src (i + c / dst_per_src l + l.src_channels))
          (pos_part m.src_offset % frac_one))
      mix l.dst_channels 0 (m.dst_offset * l.dst_channels) m.dst

-- The last frame of the source.
pub frame_last : Layout → (ℤ → ℤ → ℤ) → (ℕ → ℤ) → LinearState → ℕ → ℤ
frame_last l mix src m =
    mix_channels (read_channel l src (frame_at l (pos_part m.src_offset))) mix l.dst_channels 0
      (m.dst_offset * l.dst_channels) m.dst

-- The offsets after a frame.
pub advance_frame : ℕ → (ℕ → ℤ) → LinearState → Option LinearState
advance_frame step dst m =
    let next = m.src_offset +ℤ pos step in
    if ltb_ℤ next (pos (2 ^ 31))
    then some (record m { dst_offset = m.dst_offset + 1; src_offset = next; dst = dst })
    else none

-- A loop of Mix up to a position; the first one tests its condition at the end, but holds at the start.
pub linear_rounds : (LinearState → ℕ → ℤ) → ℕ → ℤ → ℕ → ℕ → LinearState → Option LinearState
linear_rounds frame dst_frames limit step zero m = some m
linear_rounds frame dst_frames limit step (suc left) m =
    let more =
      bind (advance_frame step (frame m) m) (linear_rounds frame dst_frames limit step left) in
    if ltb m.dst_offset dst_frames && ltb_ℤ m.src_offset limit then more else some m

-- Both loops.
pub mix_loops : Layout → (ℤ → ℤ → ℤ) → (ℕ → ℤ) → ℕ → ℤ → ℕ → LinearState → Option LinearState
mix_loops l mix src dst_frames send step m =
    bind
      (if ltb_ℤ m.src_offset (pos 0)
        then linear_rounds (frame_before l mix) dst_frames (pos 0) step (dst_frames - m.dst_offset)
            (record m { filter_data = hold_frame l src 0 l.dst_channels m.filter_data })
        else some m)
      (λ k.
        linear_rounds (frame_within l mix src) dst_frames send step (dst_frames - k.dst_offset) k)

-- The count in place of the loops.
pub skip_frames : ℕ → ℤ → ℕ → LinearState → Option LinearState
skip_frames dst_frames send step m =
    let src_avail = ((pos_part (send -ℤ m.src_offset) + step - 1) % 2 ^ 32) / step in
    let avail = min src_avail (dst_frames - m.dst_offset) in
    let next = m.src_offset +ℤ pos (avail * step) in
    if ltb m.dst_offset dst_frames && ltb_ℤ m.src_offset send
    then if step == 0 || not (ltb_ℤ next (pos (2 ^ 31)))
      then none
      else some (record m { dst_offset = m.dst_offset + avail; src_offset = next })
    else some m

pub advance_linear :
    Layout → Scaler → (ℤ → ℤ → ℤ) → (ℕ → ℤ) → ℕ → ℤ → ℕ → LinearState → Option LinearState
advance_linear l muted mix src dst_frames send step m = skip_frames dst_frames send step m
advance_linear l scaler mix src dst_frames send step m = mix_loops l mix src dst_frames send step m

-- The sample of the final frame.
abbrev pub final_frame : Layout → Scaler → (ℤ → ℤ → ℤ) → (ℕ → ℤ) → LinearState → ℕ → ℤ
final_frame l muted mix src m = m.dst
final_frame l scaler mix src m = frame_last l mix src m

pub mix_final :
    Layout → Scaler → (ℤ → ℤ → ℤ) → (ℕ → ℤ) → ℕ → ℤ → ℕ → LinearState → Option LinearState
mix_final l scaler mix src dst_frames send step m =
    if ltb m.dst_offset dst_frames && not (ltb_ℤ m.src_offset send) && not (ltb_ℤ send m.src_offset)
    then advance_frame step (final_frame l scaler mix src m) m
    else some m

-- The end of Mix.
pub hold_last : Layout → (ℕ → ℤ) → ℕ → ℤ → LinearState → Bool × LinearState
hold_last l src dst_frames send m = if ltb_ℤ m.src_offset send then (false, m) else (
  ltb m.dst_offset dst_frames,
  record m { filter_data = hold_frame l src (frame_at l (pos_part send)) 0 m.filter_data },
)

-- LinearSamplerImpl::Mix with its template parameters.
pub linear_mix_with :
    Layout → Scaler → Bool → ℕ → (ℕ → ℤ) → ℕ → ℕ → ℕ → LinearState → Option (Bool × LinearState)
linear_mix_with l scaler accumulate scale src dst_frames frac_src_frames step m =
    let mix = dst_mix scaler accumulate scale in
    let send = pos (frac_src_frames - frac_one) in
    if ltb m.dst_offset dst_frames
      && leb frac_one frac_src_frames
      && ltb frac_src_frames (2 ^ 31)
      && ltb (neg_part m.src_offset) frac_one
    then bind (advance_linear l scaler mix src dst_frames send step m) (λ k.
      bind (mix_final l scaler mix src dst_frames send step k)
        (λ k. some (hold_last l src dst_frames send k)))
    else none

-- LinearSamplerImpl::Mix.
pub linear_mix : Layout → ℕ → Bool → (ℕ → ℤ) → ℕ → ℕ → ℕ → LinearState → Option (Bool × LinearState)
linear_mix l scale accumulate src dst_frames frac_src_frames step m =
    linear_mix_with l (scaler_of scale) accumulate scale src dst_frames frac_src_frames step m
