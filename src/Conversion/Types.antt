-- ===== src/Conversion/Types.antt =====
-- The converters of stream types and of byte arrays of
-- services/media/framework_mojo/mojo_type_conversions.cc.
use motown.Base.{◌≡◌, refl, ap, Option, none, some}
use motown.Stream
use motown.Stream.{create_audio, create_video, create_text, create_subpicture, medium_of}
use motown.MediaTypes
use motown.Conversion.Enums.{
  to_medium, from_medium, to_sample_format, from_sample_format, to_video_profile,
  from_video_profile, to_pixel_format, from_pixel_format, to_color_space, from_color_space,
}
pub mod RoundTrip

-- The converters of byte arrays: null for null, or a copy of all the bytes.
pub from_bytes : Option Stream.Bytes → Option Stream.Bytes
from_bytes none = none
from_bytes (some bytes) = some bytes

pub to_bytes : Option Stream.Bytes → Option Stream.Bytes
to_bytes none = none
to_bytes (some array) = some array

-- The details and the medium that the switch over the medium builds.
pub from_details : Stream.Details → MediaTypes.MediaTypeDetails
from_details (Stream.Details.audio a) = MediaTypes.MediaTypeDetails.audio (record {
  sample_format = from_sample_format a.sample_format;
  channels = a.channels;
  frames_per_second = a.frames_per_second;
})
from_details (Stream.Details.video v) = MediaTypes.MediaTypeDetails.video (record {
  profile = from_video_profile v.profile;
  pixel_format = from_pixel_format v.pixel_format;
  color_space = from_color_space v.color_space;
  width = v.width;
  height = v.height;
  coded_width = v.coded_width;
  coded_height = v.coded_height;
})
from_details Stream.Details.text = MediaTypes.MediaTypeDetails.text
from_details Stream.Details.subpicture = MediaTypes.MediaTypeDetails.subpicture

pub details_medium : Stream.Details → MediaTypes.MediaTypeMedium
details_medium (Stream.Details.audio a) = MediaTypes.MediaTypeMedium.audio
details_medium (Stream.Details.video v) = MediaTypes.MediaTypeMedium.video
details_medium Stream.Details.text = MediaTypes.MediaTypeMedium.text
details_medium Stream.Details.subpicture = MediaTypes.MediaTypeMedium.subpicture

-- MediaType from StreamType; null for null.
pub from_stream_type : Option Stream.StreamType → Option MediaTypes.MediaType
from_stream_type none = none
from_stream_type (some t) = some (record {
  medium = details_medium t.details;
  details = from_details t.details;
  encoding = t.encoding;
  encoding_parameters = from_bytes t.encoding_parameters;
})

-- StreamType from MediaType, by its medium and its union. `none` is the failed check of an accessor
-- of the union, when it holds something else than the medium says, or the abort of a sample size.
pub to_details :
    MediaTypes.MediaType
    → MediaTypes.MediaTypeMedium
    → MediaTypes.MediaTypeDetails
    → Option Stream.StreamType
to_details m MediaTypes.MediaTypeMedium.audio (MediaTypes.MediaTypeDetails.audio a) =
    create_audio m.encoding (to_bytes m.encoding_parameters) (to_sample_format a.sample_format)
      a.channels a.frames_per_second
to_details m MediaTypes.MediaTypeMedium.video (MediaTypes.MediaTypeDetails.video v) = some (
    create_video m.encoding (to_bytes m.encoding_parameters) (record {
      profile = to_video_profile v.profile;
      pixel_format = to_pixel_format v.pixel_format;
      color_space = to_color_space v.color_space;
      width = v.width;
      height = v.height;
      coded_width = v.coded_width;
      coded_height = v.coded_height;
    }))
to_details m MediaTypes.MediaTypeMedium.text details =
    some (create_text m.encoding (to_bytes m.encoding_parameters))
to_details m MediaTypes.MediaTypeMedium.subpicture details =
    some (create_subpicture m.encoding (to_bytes m.encoding_parameters))
to_details m MediaTypes.MediaTypeMedium.audio _ = none
to_details m MediaTypes.MediaTypeMedium.video _ = none

pub to_stream_type : Option MediaTypes.MediaType → Option (Option Stream.StreamType)
to_stream_type none = some none
to_stream_type (some m) =
    elim (to_details m m.medium m.details) as (λ t. Option (Option Stream.StreamType)) [
      | none ↦ none
      | some t ↦ some (some t)
    ]
