-- ===== src/Conversion/Tests.antt =====
-- Runs of the converters.
use Prim.Native.String.{String}
use motown.Base.{List, Option, ◌≡◌, ◌≢◌, refl, none, some, [], ◌∷◌}
use motown.Stream
use motown.Conversion.Types.{from_stream_type, to_stream_type}
use motown.Conversion.Types.RoundTrip.{format_of, to_stream_type-from_stream_type}
use motown.Conversion.Sets.{to_set}
use motown.Conversion.Metadata.{Metadata}

abbrev cd_audio : Stream.StreamType
cd_audio = record {
  encoding = "lpcm";
  encoding_parameters = some (1 ∷ 2 ∷ []);
  details = Stream.Details.audio (record {
    sample_format = Stream.SampleFormat.signed_16;
    channels = 2;
    frames_per_second = 44100;
  });
}

format_known : format_of cd_audio.details ≢ some Stream.SampleFormat.any
unfolding format_of
format_known e = cc

to_stream_type-from_stream_type_example :
    to_stream_type (from_stream_type (some cd_audio)) ≡ some (some cd_audio)
to_stream_type-from_stream_type_example = to_stream_type-from_stream_type cd_audio format_known

abbrev any_audio : Stream.StreamTypeSet
any_audio = record {
  encodings = "lpcm" ∷ ("vorbis" ∷ []);
  details = Stream.SetDetails.audio (record {
    sample_format = Stream.SampleFormat.any;
    channels = record { min = 1; max = 2 };
    frames_per_second = record { min = 8000; max = 48000 };
  });
}

abbrev names : List String → List String
names l = l

null_set : to_set names none ≡ some none
unfolding to_set
null_set = refl

abbrev song : Metadata
song = record {
  duration_ns = 1000;
  title = "Dancing in the Street";
  artist = "Martha and the Vandellas";
  album = "";
  publisher = "Gordy";
  genre = "";
  composer = "";
}

abbrev to_std : Option String → String
to_std none = ""
to_std (some s) = s
