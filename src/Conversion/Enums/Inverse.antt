-- ===== src/Conversion/Enums/Inverse.antt =====
-- Each enumeration converter is inverse to the other of its pair.
use motown.Base.{◌≡◌, refl}
use motown.Stream
use motown.MediaTypes
use motown.Conversion.Enums.{
  to_sample_format, from_sample_format, to_video_profile, from_video_profile, to_pixel_format,
  from_pixel_format, to_color_space, from_color_space,
}

pub to-from_sample_format : (f : Stream.SampleFormat) → to_sample_format (from_sample_format f) ≡ f
unfolding to_sample_format from_sample_format
to-from_sample_format Stream.SampleFormat.any = refl
to-from_sample_format Stream.SampleFormat.unsigned_8 = refl
to-from_sample_format Stream.SampleFormat.signed_16 = refl
to-from_sample_format Stream.SampleFormat.signed_24_in_32 = refl
to-from_sample_format Stream.SampleFormat.float = refl

pub from-to_sample_format :
    (f : MediaTypes.AudioSampleFormat) → from_sample_format (to_sample_format f) ≡ f
unfolding to_sample_format from_sample_format
from-to_sample_format MediaTypes.AudioSampleFormat.any = refl
from-to_sample_format MediaTypes.AudioSampleFormat.unsigned_8 = refl
from-to_sample_format MediaTypes.AudioSampleFormat.signed_16 = refl
from-to_sample_format MediaTypes.AudioSampleFormat.signed_24_in_32 = refl
from-to_sample_format MediaTypes.AudioSampleFormat.float = refl

pub to-from_video_profile : (f : Stream.VideoProfile) → to_video_profile (from_video_profile f) ≡ f
unfolding to_video_profile from_video_profile
to-from_video_profile Stream.VideoProfile.unknown = refl
to-from_video_profile Stream.VideoProfile.not_applicable = refl
to-from_video_profile Stream.VideoProfile.h264_baseline = refl
to-from_video_profile Stream.VideoProfile.h264_main = refl
to-from_video_profile Stream.VideoProfile.h264_extended = refl
to-from_video_profile Stream.VideoProfile.h264_high = refl
to-from_video_profile Stream.VideoProfile.h264_high10 = refl
to-from_video_profile Stream.VideoProfile.h264_high422 = refl
to-from_video_profile Stream.VideoProfile.h264_high444_predictive = refl
to-from_video_profile Stream.VideoProfile.h264_scalable_baseline = refl
to-from_video_profile Stream.VideoProfile.h264_scalable_high = refl
to-from_video_profile Stream.VideoProfile.h264_stereo_high = refl
to-from_video_profile Stream.VideoProfile.h264_multiview_high = refl

pub from-to_video_profile :
    (f : MediaTypes.VideoProfile) → from_video_profile (to_video_profile f) ≡ f
unfolding to_video_profile from_video_profile
from-to_video_profile MediaTypes.VideoProfile.unknown = refl
from-to_video_profile MediaTypes.VideoProfile.not_applicable = refl
from-to_video_profile MediaTypes.VideoProfile.h264_baseline = refl
from-to_video_profile MediaTypes.VideoProfile.h264_main = refl
from-to_video_profile MediaTypes.VideoProfile.h264_extended = refl
from-to_video_profile MediaTypes.VideoProfile.h264_high = refl
from-to_video_profile MediaTypes.VideoProfile.h264_high10 = refl
from-to_video_profile MediaTypes.VideoProfile.h264_high422 = refl
from-to_video_profile MediaTypes.VideoProfile.h264_high444_predictive = refl
from-to_video_profile MediaTypes.VideoProfile.h264_scalable_baseline = refl
from-to_video_profile MediaTypes.VideoProfile.h264_scalable_high = refl
from-to_video_profile MediaTypes.VideoProfile.h264_stereo_high = refl
from-to_video_profile MediaTypes.VideoProfile.h264_multiview_high = refl

pub to-from_pixel_format : (f : Stream.PixelFormat) → to_pixel_format (from_pixel_format f) ≡ f
unfolding to_pixel_format from_pixel_format
to-from_pixel_format Stream.PixelFormat.unknown = refl
to-from_pixel_format Stream.PixelFormat.i420 = refl
to-from_pixel_format Stream.PixelFormat.yv12 = refl
to-from_pixel_format Stream.PixelFormat.yv16 = refl
to-from_pixel_format Stream.PixelFormat.yv12a = refl
to-from_pixel_format Stream.PixelFormat.yv24 = refl
to-from_pixel_format Stream.PixelFormat.nv12 = refl
to-from_pixel_format Stream.PixelFormat.nv21 = refl
to-from_pixel_format Stream.PixelFormat.uyvy = refl
to-from_pixel_format Stream.PixelFormat.yuy2 = refl
to-from_pixel_format Stream.PixelFormat.argb = refl
to-from_pixel_format Stream.PixelFormat.xrgb = refl
to-from_pixel_format Stream.PixelFormat.rgb24 = refl
to-from_pixel_format Stream.PixelFormat.rgb32 = refl
to-from_pixel_format Stream.PixelFormat.mjpeg = refl
to-from_pixel_format Stream.PixelFormat.mt21 = refl

pub from-to_pixel_format : (f : MediaTypes.PixelFormat) → from_pixel_format (to_pixel_format f) ≡ f
unfolding to_pixel_format from_pixel_format
from-to_pixel_format MediaTypes.PixelFormat.unknown = refl
from-to_pixel_format MediaTypes.PixelFormat.i420 = refl
from-to_pixel_format MediaTypes.PixelFormat.yv12 = refl
from-to_pixel_format MediaTypes.PixelFormat.yv16 = refl
from-to_pixel_format MediaTypes.PixelFormat.yv12a = refl
from-to_pixel_format MediaTypes.PixelFormat.yv24 = refl
from-to_pixel_format MediaTypes.PixelFormat.nv12 = refl
from-to_pixel_format MediaTypes.PixelFormat.nv21 = refl
from-to_pixel_format MediaTypes.PixelFormat.uyvy = refl
from-to_pixel_format MediaTypes.PixelFormat.yuy2 = refl
from-to_pixel_format MediaTypes.PixelFormat.argb = refl
from-to_pixel_format MediaTypes.PixelFormat.xrgb = refl
from-to_pixel_format MediaTypes.PixelFormat.rgb24 = refl
from-to_pixel_format MediaTypes.PixelFormat.rgb32 = refl
from-to_pixel_format MediaTypes.PixelFormat.mjpeg = refl
from-to_pixel_format MediaTypes.PixelFormat.mt21 = refl

pub to-from_color_space : (f : Stream.ColorSpace) → to_color_space (from_color_space f) ≡ f
unfolding to_color_space from_color_space
to-from_color_space Stream.ColorSpace.unknown = refl
to-from_color_space Stream.ColorSpace.not_applicable = refl
to-from_color_space Stream.ColorSpace.jpeg = refl
to-from_color_space Stream.ColorSpace.hd_rec709 = refl
to-from_color_space Stream.ColorSpace.sd_rec601 = refl

pub from-to_color_space : (f : MediaTypes.ColorSpace) → from_color_space (to_color_space f) ≡ f
unfolding to_color_space from_color_space
from-to_color_space MediaTypes.ColorSpace.unknown = refl
from-to_color_space MediaTypes.ColorSpace.not_applicable = refl
from-to_color_space MediaTypes.ColorSpace.jpeg = refl
from-to_color_space MediaTypes.ColorSpace.hd_rec709 = refl
from-to_color_space MediaTypes.ColorSpace.sd_rec601 = refl
