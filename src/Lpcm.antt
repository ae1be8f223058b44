-- ===== src/Lpcm.antt =====
-- The samples of services/media/framework/util/lpcm_util.cc and
-- services/media/framework/parts/lpcm_reformatter.cc.
pub mod Samples
pub mod Copied
pub mod Buffers
mod Tests
use motown.Base.{
  ℕ, zero, suc, ◌+◌, ◌-◌, ◌*◌, ◌/◌, ◌%◌, ◌^◌, Bool, true, false, ◌&&◌, not, Option, none, some, ltb,
  leb, ◌==◌, if◌then◌else◌,
}
use motown.Base.Int.{ℤ, pos, negsuc, ltb_ℤ}

-- z >> k, where d is 2 ^ k.
unfoldable pub shift_right : ℤ → ℕ → ℤ
shift_right (pos n) d = pos (n / d)
shift_right (negsuc n) d = negsuc (n / d)

-- The lower bits of z, where m is 2 to their number.
unfoldable pub low_bits : ℤ → ℕ → ℕ
low_bits (pos n) m = n % m
low_bits (negsuc n) m = m - 1 - n % m

-- The cast to int16_t.
pub to_int16 : ℤ → ℤ
to_int16 z =
    let u = low_bits z (2 ^ 16) in if ltb u (2 ^ 15) then pos u else negsuc (2 ^ 16 - 1 - u)

-- The byte u ^ 0x80: the top bit of a byte flips by an addition of 0x80.
pub flip_byte : ℕ → ℕ
flip_byte u = (u + 128) % 256

-- Clamp(val, min, max).
pub clamp : ℤ → ℤ → ℤ → ℤ
clamp val least greatest =
    if ltb_ℤ greatest val then greatest else if ltb_ℤ val least then least else val

-- Clamp(int32_t).
pub clamp_24 : ℤ → ℤ
clamp_24 val = clamp val (pos (2 ^ 23)) (negsuc (2 ^ 23 - 1))

-- CopySample between the formats of integers; a sample of 8 bits is unsigned.
pub u8_from_s16 : ℤ → ℕ
u8_from_s16 source = flip_byte (low_bits (shift_right source (2 ^ 8)) 256)

pub u8_from_s24 : ℤ → ℕ
u8_from_s24 source = flip_byte (low_bits (shift_right (clamp_24 source) (2 ^ 16)) 256)

pub s16_from_u8 : ℕ → ℤ
s16_from_u8 source = to_int16 (pos (flip_byte source * 2 ^ 8))

pub s16_from_s24 : ℤ → ℤ
s16_from_s24 source = to_int16 (shift_right (clamp_24 source) (2 ^ 8))

pub s24_from_u8 : ℕ → ℤ
s24_from_u8 source = pos (flip_byte source * 2 ^ 16)

pub s24_from_s16 : ℤ → ℤ
s24_from_s16 (pos n) = pos (n * 2 ^ 8)
s24_from_s16 (negsuc n) = negsuc ((n + 1) * 2 ^ 8 - 1)

-- A buffer is a function from the index of a sample to its value.
unfoldable pub store {ℓ} : {B : Type ℓ} → (ℕ → B) → ℕ → B → ℕ → B
store out p v q = if p == q then v else out q

module _ {ℓ κ} {A : Type ℓ} {B : Type κ} where
  -- The inner loop: `count` samples from in[i] on, `in_step` apart, to out[j] on, `out_step` apart.
  pub copy_samples : (A → B) → ℕ → (ℕ → A) → ℕ → ℕ → (ℕ → B) → ℕ → ℕ → ℕ → B
  copy_samples copy zero input i in_step out j out_step = out
  copy_samples copy (suc count) input i in_step out j out_step =
      copy_samples copy count input (i + in_step) in_step (store out j (copy (input i)))
        (j + out_step) out_step

  -- The outer loop, over the channels that are left: the next one starts `channel_step` samples later
  -- in the input, and one sample later in the output.
  pub copy_channels : (A → B) → ℕ → ℕ → (ℕ → A) → ℕ → ℕ → ℕ → (ℕ → B) → ℕ → ℕ → ℕ → B
  copy_channels copy zero frames input i channel_step in_step out j out_step = out
  copy_channels copy (suc left) frames input i channel_step in_step out j out_step =
      copy_channels copy left frames input (i + channel_step) channel_step in_step
        (copy_samples copy frames input i in_step out j out_step) (j + 1) out_step

-- LpcmUtilImpl::Interleave; `none` is a failed DCHECK.
pub interleave {ℓ} : {A : Type ℓ} → ℕ → ℕ → (ℕ → A) → ℕ → (ℕ → A) → ℕ → Option (ℕ → A)
interleave channels bytes_per_frame input in_byte_count out frame_count =
    if not (in_byte_count == 0)
      && not (frame_count == 0)
      && not (channels == 0)
      && in_byte_count % bytes_per_frame == 0
      && leb (frame_count * bytes_per_frame) in_byte_count
    then some (
        copy_channels (λ x. x) channels frame_count input 0 (in_byte_count / bytes_per_frame) 1 out
          0 channels)
    else none

-- The loops of LpcmReformatterImpl::TransformPacket: both types have the channels of the input.
pub reformat {ℓ κ} : {A : Type ℓ} {B : Type κ} → (A → B) → ℕ → ℕ → (ℕ → A) → (ℕ → B) → ℕ → B
reformat copy channels frame_count input out =
    copy_channels copy channels frame_count input 0 1 channels out 0 channels
