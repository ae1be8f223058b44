-- ===== src/Pipeline.antt =====
-- BuildConversionPipeline of services/media/framework/util/conversion_pipeline_builder.cc.
pub mod Best
pub mod Build
pub mod Compressed
mod Tests
use Prim.Native.String.{String}
use package.text.Mathlib.Text.{◌==◌ as str_eq}
use motown.Base.{
  ℕ, zero, suc, ◌+◌, Bool, true, false, ◌||◌, not, Option, none, some, List, [], ◌∷◌, ◌++◌, ltb,
  if◌then◌else◌,
}
use motown.Stream.{
  SampleFormat, any, unsigned_8, signed_16, signed_24_in_32, float, AudioDetails, Details,
  StreamType, AudioSetDetails, SetDetails, StreamTypeSet, same_format, includes_encoding, contains,
  range_contains, create_audio,
}

-- StreamType::kAudioEncodingLpcm.
abbrev pub lpcm : String
lpcm = "lpcm"

-- The switch of Score over the sample format; its default case is kAny, which the test above it
-- excludes.
pub format_score : SampleFormat → ℕ
format_score any = 0
format_score unsigned_8 = 0
format_score signed_16 = 1
format_score signed_24_in_32 = 2
format_score float = 3

-- The sample formats that need no conversion.
pub format_matches : AudioDetails → AudioSetDetails → Bool
format_matches in_type out_set =
    same_format in_type.sample_format out_set.sample_format || same_format out_set.sample_format any

-- Score.
pub score : AudioDetails → AudioSetDetails → ℕ
score in_type out_set =
    let format =
      1 + (if format_matches in_type out_set then 10 else format_score out_set.sample_format) in
    if range_contains out_set.channels in_type.channels
    then (if range_contains out_set.frames_per_second in_type.frames_per_second
        then format + 10 + 50
        else 0)
    else 0

-- The guard of FindBestLpcm: an audio set that includes the LPCM encoding.
pub lpcm_details : List String → SetDetails → Option AudioSetDetails
lpcm_details encodings (SetDetails.audio a) =
    if includes_encoding encodings lpcm then some a else none
lpcm_details encodings (SetDetails.video v) = none
lpcm_details encodings SetDetails.text = none
lpcm_details encodings SetDetails.subpicture = none

pub lpcm_set : StreamTypeSet → Option AudioSetDetails
lpcm_set set = lpcm_details set.encodings set.details

-- The loop of FindBestLpcm over the best set so far and its score.
pub find_best_from :
    AudioDetails → Option AudioSetDetails → ℕ → List StreamTypeSet → Option AudioSetDetails
find_best_from in_type best best_score [] = best
find_best_from in_type best best_score (set ∷ rest) =
    elim (lpcm_set set) as (λ o. Option AudioSetDetails) [
      | none ↦ find_best_from in_type best best_score rest
      | some a ↦
          (let better = find_best_from in_type (some a) (score in_type a) rest in
            let same = find_best_from in_type best best_score rest in
            if ltb best_score (score in_type a) then better else same)
    ]

-- FindBestLpcm; `none` is the null pointer.
pub find_best : AudioDetails → List StreamTypeSet → Option AudioSetDetails
find_best in_type sets = find_best_from in_type none 0 sets

-- The parts that the builder connects to the output, in order.
pub data Part : Type 0 where
  decoder : StreamType → Part
  lpcm_reformatter : AudioDetails → AudioSetDetails → Part

-- AddResult, with what the call leaves behind: the parts connected so far, and *out_type. A program
-- that is stopped, by NOTREACHED or by the sample size of an unknown format, is `aborted`.
pub data AddResult : Type 0 where
  failed : List Part → AddResult
  progressed : List Part → StreamType → AddResult
  finished : List Part → StreamType → AddResult
  aborted : AddResult

-- The test of AddTransformsForCompressedAudio for an audio set that contains the type.
pub accepts : AudioDetails → SetDetails → Bool
accepts in_type (SetDetails.audio a) = contains a in_type
accepts in_type (SetDetails.video v) = false
accepts in_type SetDetails.text = false
accepts in_type SetDetails.subpicture = false

pub any_accepts : AudioDetails → List StreamTypeSet → Bool
any_accepts in_type [] = false
any_accepts in_type (set ∷ rest) = accepts in_type set.details || any_accepts in_type rest

-- AddTransformsForLpcm for one set.
pub add_for_lpcm_set : AudioDetails → AudioSetDetails → List Part → AddResult
add_for_lpcm_set in_type out_set parts =
    let parts' =
      if format_matches in_type out_set
      then parts
      else parts ++ (lpcm_reformatter in_type out_set ∷ []) in
    let format =
      if same_format out_set.sample_format any
      then in_type.sample_format
      else out_set.sample_format in
    if not (range_contains out_set.channels in_type.channels)
    then aborted
    else if not (range_contains out_set.frames_per_second in_type.frames_per_second)
    then aborted
    else elim (create_audio lpcm none format in_type.channels in_type.frames_per_second)
        as (λ o. AddResult) [ none ↦ aborted | some out ↦ finished parts' out ]

-- AddTransformsForLpcm for several sets.
pub add_for_lpcm : AudioDetails → List StreamTypeSet → List Part → AddResult
add_for_lpcm in_type sets parts = elim (find_best in_type sets) as (λ o. AddResult) [
  | none ↦ aborted
  | some out_set ↦ add_for_lpcm_set in_type out_set parts
]

-- What the builder did: true with the output's new end and type, false with the pipeline as it was,
-- or an abort.
pub data Outcome : Type 0 where
  built : List Part → StreamType → Outcome
  not_built : List Part → Outcome
  stopped : Outcome

-- Decoder::Create, with output_stream_type() of the decoder it made, is FFmpeg's: `none` is any
-- result but kOk.
module _ (create_decoder : StreamType → Option StreamType) where
  -- AddTransformsForCompressedAudio.
  pub add_for_compressed : StreamType → AudioDetails → List StreamTypeSet → List Part → AddResult
  add_for_compressed in_type details sets parts =
      if any_accepts details sets
      then finished parts in_type
      else elim (find_best details sets) as (λ o. AddResult) [
        | none ↦ failed parts
        | some best ↦ elim (create_decoder in_type) as (λ o. AddResult) [
          | none ↦ failed parts
          | some out ↦ progressed (parts ++ (decoder in_type ∷ [])) out
        ]
      ]

  -- AddTransforms; a medium other than audio reaches a NOTREACHED.
  pub add_for : StreamType → Details → List StreamTypeSet → List Part → AddResult
  add_for in_type (Details.audio a) sets parts =
      if str_eq in_type.encoding lpcm
      then add_for_lpcm a sets parts
      else add_for_compressed in_type a sets parts
  add_for in_type (Details.video v) sets parts = aborted
  add_for in_type Details.text sets parts = aborted
  add_for in_type Details.subpicture sets parts = aborted

  pub add_transforms : StreamType → List StreamTypeSet → List Part → AddResult
  add_transforms in_type sets parts = add_for in_type in_type.details sets parts

  -- The loop of BuildConversionPipeline. A failure removes all the parts that were connected to the
  -- output. `none` is the end of the fuel.
  pub build_from : ℕ → StreamType → List StreamTypeSet → List Part → Option Outcome
  build_from zero in_type sets parts = none
  build_from (suc fuel) in_type sets parts =
      elim (add_transforms in_type sets parts) as (λ o. Option Outcome) [
        | failed parts' ↦ some (not_built [])
        | progressed parts' out ↦ build_from fuel out sets parts'
        | finished parts' out ↦ some (built parts' out)
        | aborted ↦ some stopped
      ]

  -- BuildConversionPipeline, on an output to which nothing is connected.
  pub build : ℕ → StreamType → List StreamTypeSet → Option Outcome
  build fuel in_type sets = build_from fuel in_type sets []
