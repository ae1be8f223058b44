-- ===== src/Pipeline/Build.antt =====
-- What BuildConversionPipeline delivers.
use package.text.Mathlib.Text.{◌==◌ as str_eq}
use motown.Base.{
  ℕ, suc, ◌<◌, ◌≡◌, ◌≢◌, refl, true, Option, none, some, List, [], ◌∷◌, ◌++◌, if◌then◌else◌,
}
use motown.Stream.{
  SampleFormat, AudioDetails, Details, StreamType, AudioSetDetails, StreamTypeSet, same_format,
  range_contains,
}
use motown.Stream.Created.{create_audio_lem}
use motown.Pipeline.{
  lpcm, format_matches, score, find_best, Part, AddResult, add_for_lpcm_set, add_for_lpcm, Outcome,
  add_for, add_transforms, build_from,
}
use motown.Pipeline.Best.{Offered, Bounded, IsBest, find_best-IsBest, score_positive}

-- The type that an LPCM type becomes for one of the sets.
abbrev pub target : AudioDetails → AudioSetDetails → StreamType
target a s = record {
  encoding = lpcm;
  encoding_parameters = none;
  details = Details.audio (record {
    sample_format =
        if same_format s.sample_format SampleFormat.any then a.sample_format else s.sample_format;
    channels = a.channels;
    frames_per_second = a.frames_per_second;
  });
}

-- The parts that this takes: a reformatter where the set asks for another sample format.
abbrev pub conversion : AudioDetails → AudioSetDetails → List Part → List Part
conversion a s parts =
    if format_matches a s then parts else parts ++ (Part.lpcm_reformatter a s ∷ [])

-- The audio is brought into one of the offered sets, which has its channels and its frame rate.
abbrev pub Fitted : AudioDetails → List StreamTypeSet → List Part → List Part → StreamType → Type 0
Fitted a sets parts parts' out =
    (s : AudioSetDetails) × Offered s sets
    × (range_contains s.channels a.channels ≡ true)
    × (range_contains s.frames_per_second a.frames_per_second ≡ true)
    × (out ≡ target a s)
    × (parts' ≡ conversion a s parts)

-- Or there is no such set, and the program is stopped.
abbrev Added : AudioDetails → List StreamTypeSet → List Part → AddResult → Type 0
Added a sets parts AddResult.aborted = Bounded a sets 0
Added a sets parts (AddResult.finished parts' out) = Fitted a sets parts parts' out
Added a sets parts (AddResult.progressed parts' out) = ⊥
Added a sets parts (AddResult.failed parts') = ⊥

abbrev pub Converted : AudioDetails → List StreamTypeSet → List Part → Outcome → Type 0
Converted a sets parts (Outcome.built parts' out) = Fitted a sets parts parts' out
Converted a sets parts Outcome.stopped = Bounded a sets 0
Converted a sets parts (Outcome.not_built parts') = ⊥

target_known :
    (f g : SampleFormat)
    → f ≢ SampleFormat.any
    → (if same_format g SampleFormat.any then f else g) ≢ SampleFormat.any
unfolding same_format
target_known f SampleFormat.any known e = known e
target_known f SampleFormat.unsigned_8 known e = cc
target_known f SampleFormat.signed_16 known e = cc
target_known f SampleFormat.signed_24_in_32 known e = cc
target_known f SampleFormat.float known e = cc

add_for_lpcm_set_lem :
    (a : AudioDetails) (s : AudioSetDetails) (parts : List Part)
    → a.sample_format ≢ SampleFormat.any
    → 0 < score a s
    → add_for_lpcm_set a s parts ≡ AddResult.finished (conversion a s parts) (target a s)
unfolding add_for_lpcm_set
add_for_lpcm_set_lem a s parts known pos =
    let (channels, rate) = (score_positive a s).0 pos in
    rw (
      channels,
      rate,
      create_audio_lem lpcm none
          (if same_format s.sample_format SampleFormat.any
            then a.sample_format
            else s.sample_format)
          a.channels a.frames_per_second (target_known a.sample_format s.sample_format known),
    )

best-Added :
    (a : AudioDetails) (sets : List StreamTypeSet) (parts : List Part)
    → a.sample_format ≢ SampleFormat.any
    → (o : Option AudioSetDetails) → IsBest a sets o
    → Added a sets parts (elim o as (λ o. AddResult) [
      | none ↦ AddResult.aborted
      | some out_set ↦ add_for_lpcm_set a out_set parts
    ])
best-Added a sets parts known none best = best
best-Added a sets parts known (some s) (offered, pos, most) =
    let (channels, rate) = (score_positive a s).0 pos in
    rw (add_for_lpcm_set_lem a s parts known pos, Added) (s, offered, channels, rate, refl, refl)

add_for_lpcm-Added :
    (a : AudioDetails) (sets : List StreamTypeSet) (parts : List Part)
    → a.sample_format ≢ SampleFormat.any
    → Added a sets parts (add_for_lpcm a sets parts)
unfolding add_for_lpcm
add_for_lpcm-Added a sets parts known =
    best-Added a sets parts known (find_best a sets) (find_best-IsBest a sets)

-- A type with the LPCM encoding, and a sample format that has a size.
pub record IsLpcm (t : StreamType) (a : AudioDetails) : Type 0 where
  pub details : t.details ≡ Details.audio a
  pub encoding : str_eq t.encoding lpcm ≡ true
  pub known : a.sample_format ≢ SampleFormat.any

module _ (create_decoder : StreamType → Option StreamType) where
  add_transforms_lpcm :
      (t : StreamType) (a : AudioDetails) (sets : List StreamTypeSet) (parts : List Part)
      → IsLpcm t a
      → add_transforms create_decoder t sets parts ≡ add_for_lpcm a sets parts
  unfolding add_transforms add_for
  add_transforms_lpcm t a sets parts is = rw (is.details, add_for, is.encoding)

  Added-Converted :
      (fuel : ℕ) (a : AudioDetails) (sets : List StreamTypeSet) (parts : List Part) (r : AddResult)
      → Added a sets parts r
      → (o : Outcome) × ((elim r as (λ o. Option Outcome) [
        | AddResult.failed parts' ↦ some (Outcome.not_built [])
        | AddResult.progressed parts' out ↦ build_from create_decoder fuel out sets parts'
        | AddResult.finished parts' out ↦ some (Outcome.built parts' out)
        | AddResult.aborted ↦ some Outcome.stopped
      ])
          ≡ some o)
        × Converted a sets parts o
  Added-Converted fuel a sets parts AddResult.aborted h = (Outcome.stopped, refl, h)
  Added-Converted fuel a sets parts (AddResult.finished parts' out) h =
      (Outcome.built parts' out, refl, h)
  Added-Converted fuel a sets parts (AddResult.progressed parts' out) h = elim h [ ]
  Added-Converted fuel a sets parts (AddResult.failed parts') h = elim h [ ]

  pub build_from-lpcm :
      (fuel : ℕ) (t : StreamType) (a : AudioDetails) (sets : List StreamTypeSet) (parts : List Part)
      → IsLpcm t a
      → (o : Outcome) × (build_from create_decoder (suc fuel) t sets parts ≡ some o)
        × Converted a sets parts o
  unfolding build_from
  build_from-lpcm fuel t a sets parts is =
      rw (add_transforms_lpcm t a sets parts is, build_from)
        (Added-Converted fuel a sets parts (add_for_lpcm a sets parts)
          (add_for_lpcm-Added a sets parts is.known))
