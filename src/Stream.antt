-- ===== src/Stream.antt =====
-- The stream types of services/media/framework/types.
pub mod Created
use Prim.Native.String.{String}
use package.text.Mathlib.Text.{◌==◌ as str_eq}
use motown.Base.{
  ℕ, ◌*◌, ◌%◌, ◌^◌, ◌/◌, Bool, true, false, ◌&&◌, ◌||◌, Option, none, some, List, [], ◌∷◌, leb,
  if◌then◌else◌,
}

-- StreamType::Medium.
pub data Medium : Type 0 where
  audio video text subpicture : Medium

-- AudioStreamType::SampleFormat.
pub data SampleFormat : Type 0 where
  any unsigned_8 signed_16 signed_24_in_32 float : SampleFormat

-- VideoStreamType::VideoProfile.
pub data VideoProfile : Type 0 where
  unknown not_applicable h264_baseline h264_main h264_extended h264_high h264_high10 h264_high422
        h264_high444_predictive h264_scalable_baseline h264_scalable_high h264_stereo_high
        h264_multiview_high :
      VideoProfile

-- VideoStreamType::PixelFormat.
pub data PixelFormat : Type 0 where
  unknown i420 yv12 yv16 yv12a yv24 nv12 nv21 uyvy yuy2 argb xrgb rgb24 rgb32 mjpeg mt21 :
      PixelFormat

-- VideoStreamType::ColorSpace.
pub data ColorSpace : Type 0 where
  unknown not_applicable jpeg hd_rec709 sd_rec601 : ColorSpace

-- Bytes, by its contents.
abbrev pub Bytes : Type 0
Bytes = List ℕ

-- What AudioStreamType and VideoStreamType add to StreamType.
pub record AudioDetails : Type 0 where
  pub sample_format : SampleFormat
  pub channels : ℕ
  pub frames_per_second : ℕ

pub record VideoDetails : Type 0 where
  pub profile : VideoProfile
  pub pixel_format : PixelFormat
  pub color_space : ColorSpace
  pub width : ℕ
  pub height : ℕ
  pub coded_width : ℕ
  pub coded_height : ℕ

-- The subclass of a StreamType.
pub data Details : Type 0 where
  audio : AudioDetails → Details
  video : VideoDetails → Details
  text : Details
  subpicture : Details

pub record StreamType : Type 0 where
  pub encoding : String
  pub encoding_parameters : Option Bytes
  pub details : Details

pub medium_of : Details → Medium
medium_of (audio a) = Medium.audio
medium_of (video v) = Medium.video
medium_of text = Medium.text
medium_of subpicture = Medium.subpicture

-- SampleSizeFromFormat; `none` is the abort of kAny.
unfoldable pub sample_size_from_format : SampleFormat → Option ℕ
sample_size_from_format any = none
sample_size_from_format unsigned_8 = some 1
sample_size_from_format signed_16 = some 2
sample_size_from_format signed_24_in_32 = some 4
sample_size_from_format float = some 4

-- AudioStreamType::Create, whose constructor asks for the sample size; `none` is the abort.
unfoldable pub create_audio : String → Option Bytes → SampleFormat → ℕ → ℕ → Option StreamType
create_audio encoding parameters sample_format channels frames_per_second =
    elim (sample_size_from_format sample_format) as (λ s. Option StreamType) [
      | none ↦ none
      | some size ↦ some (record {
        encoding = encoding;
        encoding_parameters = parameters;
        details = audio (record {
          sample_format = sample_format;
          channels = channels;
          frames_per_second = frames_per_second;
        });
      })
    ]

-- VideoStreamType::Create.
unfoldable pub create_video : String → Option Bytes → VideoDetails → StreamType
create_video encoding parameters details = record {
  encoding = encoding;
  encoding_parameters = parameters;
  details = video details;
}

-- TextStreamType::Create and SubpictureStreamType::Create.
unfoldable pub create_text : String → Option Bytes → StreamType
create_text encoding parameters = record {
  encoding = encoding;
  encoding_parameters = parameters;
  details = text;
}

unfoldable pub create_subpicture : String → Option Bytes → StreamType
create_subpicture encoding parameters = record {
  encoding = encoding;
  encoding_parameters = parameters;
  details = subpicture;
}

-- Range<uint32_t>.
pub record Range : Type 0 where
  pub min : ℕ
  pub max : ℕ

pub range_contains : Range → ℕ → Bool
range_contains range t = leb range.min t && leb t range.max

-- What the subclasses of StreamTypeSet add to it.
pub record AudioSetDetails : Type 0 where
  pub sample_format : SampleFormat
  pub channels : Range
  pub frames_per_second : Range

pub record VideoSetDetails : Type 0 where
  pub width : Range
  pub height : Range

pub data SetDetails : Type 0 where
  audio : AudioSetDetails → SetDetails
  video : VideoSetDetails → SetDetails
  text : SetDetails
  subpicture : SetDetails

pub record StreamTypeSet : Type 0 where
  pub encodings : List String
  pub details : SetDetails

-- `==` on SampleFormat.
unfoldable pub same_format : SampleFormat → SampleFormat → Bool
same_format any any = true
same_format unsigned_8 unsigned_8 = true
same_format signed_16 signed_16 = true
same_format signed_24_in_32 signed_24_in_32 = true
same_format float float = true
same_format _ _ = false

-- StreamTypeSet::IncludesEncoding.
pub includes_encoding : List String → String → Bool
includes_encoding [] encoding = false
includes_encoding (e ∷ rest) encoding =
    let later = includes_encoding rest encoding in if str_eq e encoding then true else later

-- AudioStreamTypeSet::contains. The channels are tested against the frame rate, as in the source.
pub contains : AudioSetDetails → AudioDetails → Bool
unfolding same_format range_contains
contains set type =
    (same_format set.sample_format type.sample_format || same_format set.sample_format any)
    && range_contains set.channels type.frames_per_second
    && range_contains set.frames_per_second type.frames_per_second
