-- ===== src/Pipeline/Tests.antt =====
-- Runs of the pipeline builder.
use motown.Base.{Option, none, some, List, [], ◌∷◌}
use motown.Stream.{
  SampleFormat, AudioDetails, Details, StreamType, AudioSetDetails, SetDetails, StreamTypeSet,
}
use motown.Pipeline.{lpcm, find_best}
use motown.Pipeline.Best.{IsBest, find_best-IsBest}

abbrev stereo : AudioDetails
stereo = record { sample_format = SampleFormat.float; channels = 2; frames_per_second = 48000 }

abbrev raw : StreamType
raw = record { encoding = lpcm; encoding_parameters = none; details = Details.audio stereo }

abbrev vorbis : StreamType
vorbis = record { encoding = "vorbis"; encoding_parameters = none; details = Details.audio stereo }

abbrev accepted : AudioSetDetails
accepted = record {
  sample_format = SampleFormat.signed_16;
  channels = record { min = 1; max = 2 };
  frames_per_second = record { min = 8000; max = 48000 };
}

abbrev sets : List StreamTypeSet
sets =
    record { encodings = "vorbis" ∷ []; details = SetDetails.text }
    ∷ (record { encodings = lpcm ∷ []; details = SetDetails.audio accepted } ∷ [])

-- A decoder library whose decoders all give the same type.
abbrev create_decoder : StreamType → Option StreamType
create_decoder t = some raw

find_best-IsBest_example : IsBest stereo sets (find_best stereo sets)
find_best-IsBest_example = find_best-IsBest stereo sets
