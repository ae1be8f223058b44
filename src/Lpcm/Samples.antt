-- ===== src/Lpcm/Samples.antt =====
-- Conversions of single samples.
use motown.Base.{ℕ, ◌+◌, ◌-◌, ◌*◌, ◌%◌, ◌^◌, ◌≤◌, ◌<◌, ◌≡◌, refl, true, arith}
use motown.Base.Int.{ℤ, pos, negsuc, ltb_ℤ}
use motown.Lpcm.{
  shift_right, low_bits, to_int16, flip_byte, clamp, clamp_24, u8_from_s16, s16_from_u8,
  s16_from_s24, s24_from_u8,
}

-- A sample of 8 bits comes back from 16 bits.
pub u8_from_s16-s16_from_u8 : (v : ℕ) → v < 256 → u8_from_s16 (s16_from_u8 v) ≡ v
unfolding u8_from_s16 s16_from_u8 flip_byte to_int16 low_bits shift_right
u8_from_s16-s16_from_u8 v h = ground arith

-- Every sample of 24 bits above the least one becomes the least sample of 16 bits.
pub s16_from_s24_constant :
    (v : ℤ) → ltb_ℤ (negsuc (2 ^ 23 - 1)) v ≡ true → s16_from_s24 v ≡ negsuc (2 ^ 15 - 1)
unfolding s16_from_s24 clamp_24 clamp shift_right to_int16 low_bits
s16_from_s24_constant v h = rw h

-- A sample of 8 bits below the middle becomes one that 24 bits do not hold.
pub s24_from_u8_too_large : (v : ℕ) → v < 128 → (w : ℕ) × (s24_from_u8 v ≡ pos w) × (2 ^ 23 ≤ w)
unfolding s24_from_u8 flip_byte
s24_from_u8_too_large v h = ((v + 128) % 256 * 2 ^ 16, refl, omega arith)
