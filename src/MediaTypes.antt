-- ===== src/MediaTypes.antt =====
-- The wire types of mojo/services/media/common/interfaces (media_types.mojom, media_common.mojom and
-- media_metadata.mojom), which the converters of services/media/framework_mojo produce and read.
use Prim.Native.String.{String}
use motown.Base.{ℕ, Option, List}

pub data MediaTypeMedium : Type 0 where
  audio video text subpicture : MediaTypeMedium

pub data AudioSampleFormat : Type 0 where
  any unsigned_8 signed_16 signed_24_in_32 float : AudioSampleFormat

pub data VideoProfile : Type 0 where
  unknown not_applicable h264_baseline h264_main h264_extended h264_high h264_high10 h264_high422
        h264_high444_predictive h264_scalable_baseline h264_scalable_high h264_stereo_high
        h264_multiview_high :
      VideoProfile

pub data PixelFormat : Type 0 where
  unknown i420 yv12 yv16 yv12a yv24 nv12 nv21 uyvy yuy2 argb xrgb rgb24 rgb32 mjpeg mt21 :
      PixelFormat

pub data ColorSpace : Type 0 where
  unknown not_applicable jpeg hd_rec709 sd_rec601 : ColorSpace

pub data MediaResult : Type 0 where
  ok unknown_error internal_error not_implemented unsupported_operation unsupported_config
        invalid_argument insufficient_resources bad_state buf_overflow flushed busy protocol_error
        already_exists not_found shutting_down connection_lost :
      MediaResult

pub record AudioMediaTypeDetails : Type 0 where
  pub sample_format : AudioSampleFormat
  pub channels : ℕ
  pub frames_per_second : ℕ

pub record VideoMediaTypeDetails : Type 0 where
  pub profile : VideoProfile
  pub pixel_format : PixelFormat
  pub color_space : ColorSpace
  pub width : ℕ
  pub height : ℕ
  pub coded_width : ℕ
  pub coded_height : ℕ

-- The union MediaTypeDetails.
pub data MediaTypeDetails : Type 0 where
  audio : AudioMediaTypeDetails → MediaTypeDetails
  video : VideoMediaTypeDetails → MediaTypeDetails
  text : MediaTypeDetails
  subpicture : MediaTypeDetails

-- The medium and the union are separate: on the wire they may disagree.
pub record MediaType : Type 0 where
  pub medium : MediaTypeMedium
  pub details : MediaTypeDetails
  pub encoding : String
  pub encoding_parameters : Option (List ℕ)

pub record AudioMediaTypeSetDetails : Type 0 where
  pub sample_format : AudioSampleFormat
  pub min_channels : ℕ
  pub max_channels : ℕ
  pub min_frames_per_second : ℕ
  pub max_frames_per_second : ℕ

pub record VideoMediaTypeSetDetails : Type 0 where
  pub min_width : ℕ
  pub max_width : ℕ
  pub min_height : ℕ
  pub max_height : ℕ

-- The union MediaTypeSetDetails.
pub data MediaTypeSetDetails : Type 0 where
  audio : AudioMediaTypeSetDetails → MediaTypeSetDetails
  video : VideoMediaTypeSetDetails → MediaTypeSetDetails
  text : MediaTypeSetDetails
  subpicture : MediaTypeSetDetails

pub record MediaTypeSet : Type 0 where
  pub medium : MediaTypeMedium
  pub details : MediaTypeSetDetails
  pub encodings : List String

-- A nullable string is an option.
pub record MediaMetadata : Type 0 where
  pub duration : ℕ
  pub title : Option String
  pub artist : Option String
  pub album : Option String
  pub publisher : Option String
  pub genre : Option String
  pub composer : Option String
