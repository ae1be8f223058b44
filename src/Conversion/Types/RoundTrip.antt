-- ===== src/Conversion/Types/RoundTrip.antt =====
-- Stream types sent as media types and read back, and media types that are read and sent again.
use motown.Base.{◌≡◌, ◌≢◌, refl, ap, Option, none, some}
use motown.Stream
use motown.Stream.{
  create_audio, create_video, create_text, create_subpicture, sample_size_from_format,
}
use motown.Stream.Created.{create_audio_lem}
use motown.MediaTypes
use motown.Conversion.Enums.Inverse.{
  to-from_sample_format, to-from_video_profile, to-from_pixel_format, to-from_color_space,
}
use motown.Conversion.Types.{
  from_bytes, to_bytes, from_details, details_medium, from_stream_type, to_details, to_stream_type,
}

pub to-from_bytes : (b : Option Stream.Bytes) → to_bytes (from_bytes b) ≡ b
unfolding to_bytes from_bytes
to-from_bytes none = refl
to-from_bytes (some b) = refl

-- The sample format of an audio type. The constructor of AudioStreamType makes no type with `any`.
unfoldable pub format_of : Stream.Details → Option Stream.SampleFormat
format_of (Stream.Details.audio a) = some a.sample_format
format_of (Stream.Details.video v) = none
format_of Stream.Details.text = none
format_of Stream.Details.subpicture = none

to_details_lem :
    (m : MediaTypes.MediaType) (d : Stream.Details)
    → format_of d ≢ some Stream.SampleFormat.any
    → to_details m (details_medium d) (from_details d)
      ≡ some (record {
        encoding = m.encoding;
        encoding_parameters = to_bytes m.encoding_parameters;
        details = d;
      })
unfolding from_details details_medium to_details format_of create_video create_text
    create_subpicture
to_details_lem m (Stream.Details.audio a) sized = rw (
  to-from_sample_format a.sample_format,
  create_audio_lem m.encoding (to_bytes m.encoding_parameters) a.sample_format a.channels
      a.frames_per_second (λ e. sized (ap some e)),
)
to_details_lem m (Stream.Details.video v) sized = rw (
  to-from_video_profile v.profile,
  to-from_pixel_format v.pixel_format,
  to-from_color_space v.color_space,
)
to_details_lem m Stream.Details.text sized = refl
to_details_lem m Stream.Details.subpicture sized = refl

-- A stream type sent as a media type and read back is the same type, unless it is an audio type of
-- the format `any`.
pub to_stream_type-from_stream_type :
    (t : Stream.StreamType)
    → format_of t.details ≢ some Stream.SampleFormat.any
    → to_stream_type (from_stream_type (some t)) ≡ some (some t)
unfolding to_stream_type from_stream_type
to_stream_type-from_stream_type t sized =
    let m : MediaTypes.MediaType = record {
      medium = details_medium t.details;
      details = from_details t.details;
      encoding = t.encoding;
      encoding_parameters = from_bytes t.encoding_parameters;
    } in
    rw (to_details_lem m t.details sized, to_stream_type, to-from_bytes t.encoding_parameters)
