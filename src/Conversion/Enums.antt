-- ===== src/Conversion/Enums.antt =====
-- The enumeration converters of services/media/framework_mojo/mojo_type_conversions.cc.
use motown.Stream
use motown.MediaTypes
pub mod Inverse

-- services/media/framework/result.h.
pub data Result : Type 0 where
  ok unknown_error internal_error unsupported_operation invalid_argument not_found : Result

-- Convert of a MediaResult.
pub convert_media_result : MediaTypes.MediaResult → Result
convert_media_result MediaTypes.MediaResult.ok = ok
convert_media_result MediaTypes.MediaResult.unknown_error = unknown_error
convert_media_result MediaTypes.MediaResult.internal_error = internal_error
convert_media_result MediaTypes.MediaResult.not_implemented = unsupported_operation
convert_media_result MediaTypes.MediaResult.unsupported_operation = unsupported_operation
convert_media_result MediaTypes.MediaResult.unsupported_config = unknown_error
convert_media_result MediaTypes.MediaResult.invalid_argument = invalid_argument
convert_media_result MediaTypes.MediaResult.insufficient_resources = unknown_error
convert_media_result MediaTypes.MediaResult.bad_state = unknown_error
convert_media_result MediaTypes.MediaResult.buf_overflow = unknown_error
convert_media_result MediaTypes.MediaResult.flushed = unknown_error
convert_media_result MediaTypes.MediaResult.busy = unknown_error
convert_media_result MediaTypes.MediaResult.protocol_error = unknown_error
convert_media_result MediaTypes.MediaResult.already_exists = unknown_error
convert_media_result MediaTypes.MediaResult.not_found = not_found
convert_media_result MediaTypes.MediaResult.shutting_down = unknown_error
convert_media_result MediaTypes.MediaResult.connection_lost = unknown_error

-- Convert of a MediaTypeMedium.
pub to_medium : MediaTypes.MediaTypeMedium → Stream.Medium
to_medium MediaTypes.MediaTypeMedium.audio = Stream.Medium.audio
to_medium MediaTypes.MediaTypeMedium.video = Stream.Medium.video
to_medium MediaTypes.MediaTypeMedium.text = Stream.Medium.text
to_medium MediaTypes.MediaTypeMedium.subpicture = Stream.Medium.subpicture

-- Convert of a framework Medium.
pub from_medium : Stream.Medium → MediaTypes.MediaTypeMedium
from_medium Stream.Medium.audio = MediaTypes.MediaTypeMedium.audio
from_medium Stream.Medium.video = MediaTypes.MediaTypeMedium.video
from_medium Stream.Medium.text = MediaTypes.MediaTypeMedium.text
from_medium Stream.Medium.subpicture = MediaTypes.MediaTypeMedium.subpicture

-- Convert of a AudioSampleFormat.
pub to_sample_format : MediaTypes.AudioSampleFormat → Stream.SampleFormat
to_sample_format MediaTypes.AudioSampleFormat.any = Stream.SampleFormat.any
to_sample_format MediaTypes.AudioSampleFormat.unsigned_8 = Stream.SampleFormat.unsigned_8
to_sample_format MediaTypes.AudioSampleFormat.signed_16 = Stream.SampleFormat.signed_16
to_sample_format MediaTypes.AudioSampleFormat.signed_24_in_32 = Stream.SampleFormat.signed_24_in_32
to_sample_format MediaTypes.AudioSampleFormat.float = Stream.SampleFormat.float

-- Convert of a framework SampleFormat.
pub from_sample_format : Stream.SampleFormat → MediaTypes.AudioSampleFormat
from_sample_format Stream.SampleFormat.any = MediaTypes.AudioSampleFormat.any
from_sample_format Stream.SampleFormat.unsigned_8 = MediaTypes.AudioSampleFormat.unsigned_8
from_sample_format Stream.SampleFormat.signed_16 = MediaTypes.AudioSampleFormat.signed_16
from_sample_format Stream.SampleFormat.signed_24_in_32 =
    MediaTypes.AudioSampleFormat.signed_24_in_32
from_sample_format Stream.SampleFormat.float = MediaTypes.AudioSampleFormat.float

-- Convert of a VideoProfile.
pub to_video_profile : MediaTypes.VideoProfile → Stream.VideoProfile
to_video_profile MediaTypes.VideoProfile.unknown = Stream.VideoProfile.unknown
to_video_profile MediaTypes.VideoProfile.not_applicable = Stream.VideoProfile.not_applicable
to_video_profile MediaTypes.VideoProfile.h264_baseline = Stream.VideoProfile.h264_baseline
to_video_profile MediaTypes.VideoProfile.h264_main = Stream.VideoProfile.h264_main
to_video_profile MediaTypes.VideoProfile.h264_extended = Stream.VideoProfile.h264_extended
to_video_profile MediaTypes.VideoProfile.h264_high = Stream.VideoProfile.h264_high
to_video_profile MediaTypes.VideoProfile.h264_high10 = Stream.VideoProfile.h264_high10
to_video_profile MediaTypes.VideoProfile.h264_high422 = Stream.VideoProfile.h264_high422
to_video_profile MediaTypes.VideoProfile.h264_high444_predictive =
    Stream.VideoProfile.h264_high444_predictive
to_video_profile MediaTypes.VideoProfile.h264_scalable_baseline =
    Stream.VideoProfile.h264_scalable_baseline
to_video_profile MediaTypes.VideoProfile.h264_scalable_high = Stream.VideoProfile.h264_scalable_high
to_video_profile MediaTypes.VideoProfile.h264_stereo_high = Stream.VideoProfile.h264_stereo_high
to_video_profile MediaTypes.VideoProfile.h264_multiview_high =
    Stream.VideoProfile.h264_multiview_high

-- Convert of a framework VideoProfile.
pub from_video_profile : Stream.VideoProfile → MediaTypes.VideoProfile
from_video_profile Stream.VideoProfile.unknown = MediaTypes.VideoProfile.unknown
from_video_profile Stream.VideoProfile.not_applicable = MediaTypes.VideoProfile.not_applicable
from_video_profile Stream.VideoProfile.h264_baseline = MediaTypes.VideoProfile.h264_baseline
from_video_profile Stream.VideoProfile.h264_main = MediaTypes.VideoProfile.h264_main
from_video_profile Stream.VideoProfile.h264_extended = MediaTypes.VideoProfile.h264_extended
from_video_profile Stream.VideoProfile.h264_high = MediaTypes.VideoProfile.h264_high
from_video_profile Stream.VideoProfile.h264_high10 = MediaTypes.VideoProfile.h264_high10
from_video_profile Stream.VideoProfile.h264_high422 = MediaTypes.VideoProfile.h264_high422
from_video_profile Stream.VideoProfile.h264_high444_predictive =
    MediaTypes.VideoProfile.h264_high444_predictive
from_video_profile Stream.VideoProfile.h264_scalable_baseline =
    MediaTypes.VideoProfile.h264_scalable_baseline
from_video_profile Stream.VideoProfile.h264_scalable_high =
    MediaTypes.VideoProfile.h264_scalable_high
from_video_profile Stream.VideoProfile.h264_stereo_high = MediaTypes.VideoProfile.h264_stereo_high
from_video_profile Stream.VideoProfile.h264_multiview_high =
    MediaTypes.VideoProfile.h264_multiview_high

-- Convert of a PixelFormat.
pub to_pixel_format : MediaTypes.PixelFormat → Stream.PixelFormat
to_pixel_format MediaTypes.PixelFormat.unknown = Stream.PixelFormat.unknown
to_pixel_format MediaTypes.PixelFormat.i420 = Stream.PixelFormat.i420
to_pixel_format MediaTypes.PixelFormat.yv12 = Stream.PixelFormat.yv12
to_pixel_format MediaTypes.PixelFormat.yv16 = Stream.PixelFormat.yv16
to_pixel_format MediaTypes.PixelFormat.yv12a = Stream.PixelFormat.yv12a
to_pixel_format MediaTypes.PixelFormat.yv24 = Stream.PixelFormat.yv24
to_pixel_format MediaTypes.PixelFormat.nv12 = Stream.PixelFormat.nv12
to_pixel_format MediaTypes.PixelFormat.nv21 = Stream.PixelFormat.nv21
to_pixel_format MediaTypes.PixelFormat.uyvy = Stream.PixelFormat.uyvy
to_pixel_format MediaTypes.PixelFormat.yuy2 = Stream.PixelFormat.yuy2
to_pixel_format MediaTypes.PixelFormat.argb = Stream.PixelFormat.argb
to_pixel_format MediaTypes.PixelFormat.xrgb = Stream.PixelFormat.xrgb
to_pixel_format MediaTypes.PixelFormat.rgb24 = Stream.PixelFormat.rgb24
to_pixel_format MediaTypes.PixelFormat.rgb32 = Stream.PixelFormat.rgb32
to_pixel_format MediaTypes.PixelFormat.mjpeg = Stream.PixelFormat.mjpeg
to_pixel_format MediaTypes.PixelFormat.mt21 = Stream.PixelFormat.mt21

-- Convert of a framework PixelFormat.
pub from_pixel_format : Stream.PixelFormat → MediaTypes.PixelFormat
from_pixel_format Stream.PixelFormat.unknown = MediaTypes.PixelFormat.unknown
from_pixel_format Stream.PixelFormat.i420 = MediaTypes.PixelFormat.i420
from_pixel_format Stream.PixelFormat.yv12 = MediaTypes.PixelFormat.yv12
from_pixel_format Stream.PixelFormat.yv16 = MediaTypes.PixelFormat.yv16
from_pixel_format Stream.PixelFormat.yv12a = MediaTypes.PixelFormat.yv12a
from_pixel_format Stream.PixelFormat.yv24 = MediaTypes.PixelFormat.yv24
from_pixel_format Stream.PixelFormat.nv12 = MediaTypes.PixelFormat.nv12
from_pixel_format Stream.PixelFormat.nv21 = MediaTypes.PixelFormat.nv21
from_pixel_format Stream.PixelFormat.uyvy = MediaTypes.PixelFormat.uyvy
from_pixel_format Stream.PixelFormat.yuy2 = MediaTypes.PixelFormat.yuy2
from_pixel_format Stream.PixelFormat.argb = MediaTypes.PixelFormat.argb
from_pixel_format Stream.PixelFormat.xrgb = MediaTypes.PixelFormat.xrgb
from_pixel_format Stream.PixelFormat.rgb24 = MediaTypes.PixelFormat.rgb24
from_pixel_format Stream.PixelFormat.rgb32 = MediaTypes.PixelFormat.rgb32
from_pixel_format Stream.PixelFormat.mjpeg = MediaTypes.PixelFormat.mjpeg
from_pixel_format Stream.PixelFormat.mt21 = MediaTypes.PixelFormat.mt21

-- Convert of a ColorSpace.
pub to_color_space : MediaTypes.ColorSpace → Stream.ColorSpace
to_color_space MediaTypes.ColorSpace.unknown = Stream.ColorSpace.unknown
to_color_space MediaTypes.ColorSpace.not_applicable = Stream.ColorSpace.not_applicable
to_color_space MediaTypes.ColorSpace.jpeg = Stream.ColorSpace.jpeg
to_color_space MediaTypes.ColorSpace.hd_rec709 = Stream.ColorSpace.hd_rec709
to_color_space MediaTypes.ColorSpace.sd_rec601 = Stream.ColorSpace.sd_rec601

-- Convert of a framework ColorSpace.
pub from_color_space : Stream.ColorSpace → MediaTypes.ColorSpace
from_color_space Stream.ColorSpace.unknown = MediaTypes.ColorSpace.unknown
from_color_space Stream.ColorSpace.not_applicable = MediaTypes.ColorSpace.not_applicable
from_color_space Stream.ColorSpace.jpeg = MediaTypes.ColorSpace.jpeg
from_color_space Stream.ColorSpace.hd_rec709 = MediaTypes.ColorSpace.hd_rec709
from_color_space Stream.ColorSpace.sd_rec601 = MediaTypes.ColorSpace.sd_rec601
