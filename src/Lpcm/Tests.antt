-- ===== src/Lpcm/Tests.antt =====
-- Samples and buffers at concrete inputs.
use motown.Base.{ℕ, ◌+◌, ◌*◌, ◌/◌, ◌≡◌, refl, some, arith, ltb, if◌then◌else◌}
use motown.Base.Int.{ℤ, pos, negsuc}
use motown.Lpcm.{s16_from_u8, flip_byte, to_int16, low_bits, interleave, reformat}
use motown.Lpcm.Buffers.{reformat-converts, Interleaved, interleave-Interleaved}

quiet : s16_from_u8 127 ≡ negsuc 255
unfolding s16_from_u8 flip_byte to_int16 low_bits
quiet = refl

abbrev ramp : ℕ → ℕ
ramp p = p + 3

abbrev silence : ℕ → ℤ
silence p = pos 0

reformat-converts_example :
    reformat s16_from_u8 2 5 ramp silence 7
    ≡ (if ltb 7 (5 * 2) then s16_from_u8 (ramp 7) else silence 7)
reformat-converts_example = reformat-converts s16_from_u8 2 5 ramp silence 7 (omega arith)

interleave-Interleaved_example :
    (result : ℕ → ℕ) × (interleave 2 4 ramp 12 ramp 3 ≡ some result)
    × Interleaved 2 (12 / 4) 3 ramp ramp result
interleave-Interleaved_example =
    interleave-Interleaved 2 4 12 3 ramp ramp (omega arith) (omega arith) (omega arith)
      (omega arith) (omega arith)
