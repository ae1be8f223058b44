-- ===== src/Stream/Created.antt =====
-- What AudioStreamType::Create makes.
use Prim.Native.String.{String}
use motown.Base.{ℕ, ◌≡◌, ◌≢◌, refl, Option, some}
use motown.Stream.{Bytes, SampleFormat, Details, sample_size_from_format, create_audio}

-- A format with a sample size gives the type that was asked for.
pub create_audio_lem :
    (encoding : String) (parameters : Option Bytes) (f : SampleFormat) (c r : ℕ)
    → f ≢ SampleFormat.any
    → create_audio encoding parameters f c r
      ≡ some (record {
        encoding = encoding;
        encoding_parameters = parameters;
        details = Details.audio (record { sample_format = f; channels = c; frames_per_second = r });
      })
unfolding create_audio sample_size_from_format
create_audio_lem e p SampleFormat.any c r sized = elim (sized refl) [ ]
create_audio_lem e p SampleFormat.unsigned_8 c r sized = refl
create_audio_lem e p SampleFormat.signed_16 c r sized = refl
create_audio_lem e p SampleFormat.signed_24_in_32 c r sized = refl
create_audio_lem e p SampleFormat.float c r sized = refl
