-- ===== src/Conversion/Sets.antt =====
-- The converters of stream type sets of services/media/framework_mojo/mojo_type_conversions.cc.
use Prim.Native.String.{String}
use motown.Base.{◌≡◌, refl, Option, none, some, List}
use motown.Stream
use motown.MediaTypes
use motown.Conversion.Enums.{to_sample_format, from_sample_format}
use motown.Conversion.Enums.Inverse.{to-from_sample_format}

pub from_set_details : Stream.SetDetails → MediaTypes.MediaTypeSetDetails
from_set_details (Stream.SetDetails.audio a) = MediaTypes.MediaTypeSetDetails.audio (record {
  sample_format = from_sample_format a.sample_format;
  min_channels = a.channels.min;
  max_channels = a.channels.max;
  min_frames_per_second = a.frames_per_second.min;
  max_frames_per_second = a.frames_per_second.max;
})
from_set_details (Stream.SetDetails.video v) = MediaTypes.MediaTypeSetDetails.video (record {
  min_width = v.width.min;
  max_width = v.width.max;
  min_height = v.height.min;
  max_height = v.height.max;
})
from_set_details Stream.SetDetails.text = MediaTypes.MediaTypeSetDetails.text
from_set_details Stream.SetDetails.subpicture = MediaTypes.MediaTypeSetDetails.subpicture

pub set_medium : Stream.SetDetails → MediaTypes.MediaTypeMedium
set_medium (Stream.SetDetails.audio a) = MediaTypes.MediaTypeMedium.audio
set_medium (Stream.SetDetails.video v) = MediaTypes.MediaTypeMedium.video
set_medium Stream.SetDetails.text = MediaTypes.MediaTypeMedium.text
set_medium Stream.SetDetails.subpicture = MediaTypes.MediaTypeMedium.subpicture

-- What the switch over the medium makes of the union; `none` is the failed check of an accessor.
pub to_set_details :
    MediaTypes.MediaTypeMedium → MediaTypes.MediaTypeSetDetails → Option Stream.SetDetails
to_set_details MediaTypes.MediaTypeMedium.audio (MediaTypes.MediaTypeSetDetails.audio a) = some (
    Stream.SetDetails.audio (record {
      sample_format = to_sample_format a.sample_format;
      channels = record { min = a.min_channels; max = a.max_channels };
      frames_per_second = record { min = a.min_frames_per_second; max = a.max_frames_per_second };
    }))
to_set_details MediaTypes.MediaTypeMedium.video (MediaTypes.MediaTypeSetDetails.video v) = some (
    Stream.SetDetails.video (record {
      width = record { min = v.min_width; max = v.max_width };
      height = record { min = v.min_height; max = v.max_height };
    }))
to_set_details MediaTypes.MediaTypeMedium.text details = some Stream.SetDetails.text
to_set_details MediaTypes.MediaTypeMedium.subpicture details = some Stream.SetDetails.subpicture
to_set_details MediaTypes.MediaTypeMedium.audio _ = none
to_set_details MediaTypes.MediaTypeMedium.video _ = none

to_set_details_lem :
    (d : Stream.SetDetails) → to_set_details (set_medium d) (from_set_details d) ≡ some d
unfolding to_set_details set_medium from_set_details
to_set_details_lem (Stream.SetDetails.audio a) = rw (to-from_sample_format a.sample_format)
to_set_details_lem (Stream.SetDetails.video v) = refl
to_set_details_lem Stream.SetDetails.text = refl
to_set_details_lem Stream.SetDetails.subpicture = refl

-- The encodings go through Array<String>::From and Array<String>::To, which are not part of the
-- repository.
module _ (strings_from : List String → List String) where
  -- MediaTypeSet from StreamTypeSet; null for null.
  pub from_set : Option Stream.StreamTypeSet → Option MediaTypes.MediaTypeSet
  from_set none = none
  from_set (some s) = some (record {
    medium = set_medium s.details;
    details = from_set_details s.details;
    encodings = strings_from s.encodings;
  })

module _ (strings_to : List String → List String) where
  -- StreamTypeSet from MediaTypeSet.
  unfoldable pub to_set : Option MediaTypes.MediaTypeSet → Option (Option Stream.StreamTypeSet)
  to_set none = some none
  to_set (some m) =
      elim (to_set_details m.medium m.details) as (λ d. Option (Option Stream.StreamTypeSet)) [
        | none ↦ none
        | some d ↦ some (some (record { encodings = strings_to m.encodings; details = d }))
      ]

-- A stream type set sent as a media type set and read back is the same set, `any` formats and null
-- included, when the second conversion of the encodings undoes the first.
pub to_set-from_set :
    (strings_from strings_to : List String → List String)
    → ((names : List String) → strings_to (strings_from names) ≡ names)
    → (s : Option Stream.StreamTypeSet) → to_set strings_to (from_set strings_from s) ≡ some s
unfolding to_set from_set
to_set-from_set strings_from strings_to undo none = refl
to_set-from_set strings_from strings_to undo (some s) =
    rw (to_set_details_lem s.details, to_set, undo s.encodings)
