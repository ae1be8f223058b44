-- ===== src/Frame.antt =====
-- The frame layouts of services/media/framework/types/video_stream_type.{h,cc}.
pub mod Sizes
pub mod Layout
mod Tests
use motown.Base.{
  ℕ, ◌+◌, ◌-◌, ◌*◌, ◌/◌, ◌%◌, ◌^◌, max, Option, none, some, List, [], ◌∷◌, ltb, get_elem?,
  if◌then◌else◌,
}
use motown.Stream.{
  PixelFormat, i420, yv12, yv16, yv12a, yv24, nv12, nv21, uyvy, yuy2, argb, xrgb, rgb24, rgb32,
  mjpeg, mt21,
}

-- The conversion of a size_t to int and back, by the constructor of Extent.
pub int_of_size : ℕ → ℕ
int_of_size v = let u = v % 2 ^ 32 in if ltb u (2 ^ 31) then u else 2 ^ 64 - 2 ^ 32 + u

-- VideoStreamType::Extent.
pub record Extent : Type 0 where
  pub width : ℕ
  pub height : ℕ

pub extent : ℕ → ℕ → Extent
extent w h = record { width = int_of_size w; height = int_of_size h }

-- The entries for one plane of VideoStreamType::PixelFormatInfo; the planes of a format are a list.
pub record Plane : Type 0 where
  pub bytes_per_element : ℕ
  pub sample_width : ℕ
  pub sample_height : ℕ

-- The entries for one plane of VideoStreamType::FrameLayout.
pub record PlaneLayout : Type 0 where
  pub line_stride : ℕ
  pub plane_offset : ℕ

pub record FrameLayout : Type 0 where
  pub planes : List PlaneLayout
  pub size : ℕ

abbrev pub plane : ℕ → ℕ → ℕ → Plane
plane bytes w h = record { bytes_per_element = bytes; sample_width = w; sample_height = h }

-- InfoForPixelFormat; `none` is the failed DCHECK.
pub info_for_pixel_format : PixelFormat → Option (List Plane)
info_for_pixel_format PixelFormat.unknown = none
info_for_pixel_format i420 = some (plane 1 1 1 ∷ plane 1 2 2 ∷ plane 1 2 2 ∷ [])
info_for_pixel_format yv12 = some (plane 1 1 1 ∷ plane 1 2 2 ∷ plane 1 2 2 ∷ [])
info_for_pixel_format yv16 = some (plane 1 1 1 ∷ plane 1 2 1 ∷ plane 1 2 1 ∷ [])
info_for_pixel_format yv12a = some (plane 1 1 1 ∷ plane 1 2 2 ∷ plane 1 2 2 ∷ plane 1 1 1 ∷ [])
info_for_pixel_format yv24 = some (plane 1 1 1 ∷ plane 1 1 1 ∷ plane 1 1 1 ∷ [])
info_for_pixel_format nv12 = some (plane 1 1 1 ∷ plane 2 2 2 ∷ [])
info_for_pixel_format nv21 = some (plane 1 1 1 ∷ plane 2 2 2 ∷ [])
info_for_pixel_format uyvy = some (plane 2 1 1 ∷ [])
info_for_pixel_format yuy2 = some (plane 2 1 1 ∷ [])
info_for_pixel_format argb = some (plane 4 1 1 ∷ [])
info_for_pixel_format xrgb = some (plane 4 1 1 ∷ [])
info_for_pixel_format rgb24 = some (plane 3 1 1 ∷ [])
info_for_pixel_format rgb32 = some (plane 4 1 1 ∷ [])
info_for_pixel_format mjpeg = some (plane 0 1 1 ∷ [])
info_for_pixel_format mt21 = some (plane 1 1 1 ∷ plane 2 2 2 ∷ [])

-- RoundUpToAlign on size_t. The alignments are powers of two, so the mask drops the remainder.
pub round_up_to_align : ℕ → ℕ → ℕ
round_up_to_align value alignment = (value + (alignment - 1)) % 2 ^ 64 / alignment * alignment

-- RowCount.
pub row_count : Plane → ℕ → ℕ
row_count p height = round_up_to_align height p.sample_height / p.sample_height

-- ColumnCount.
pub column_count : Plane → ℕ → ℕ
column_count p width = round_up_to_align width p.sample_width / p.sample_width

-- BytesPerRow.
pub bytes_per_row : Plane → ℕ → ℕ
bytes_per_row p width = p.bytes_per_element * column_count p width % 2 ^ 64

-- The loop of CommonAlignment.
pub align_planes : Extent → List Plane → Extent
align_planes e [] = e
align_planes e (p ∷ ps) =
    align_planes
      (record { width = max e.width p.sample_width; height = max e.height p.sample_height }) ps

-- CommonAlignment.
pub common_alignment : List Plane → Extent
common_alignment ps =
    let e = align_planes (record { width = 0; height = 0 }) ps in extent e.width e.height

-- AlignedSize.
pub aligned_size : List Plane → Extent → Extent
aligned_size ps unaligned_size =
    let alignment = common_alignment ps in
    extent (round_up_to_align unaligned_size.width alignment.width)
      (round_up_to_align unaligned_size.height alignment.height)

-- kFrameSizeAlignment and kFrameSizePadding.
abbrev pub frame_size_alignment : ℕ
frame_size_alignment = 16

abbrev pub frame_size_padding : ℕ
frame_size_padding = 16

-- One plane of the loop of BuildFrameLayout, and the rows that it is given.
pub plane_rows : Extent → Plane → ℕ
plane_rows aligned p = round_up_to_align (row_count p aligned.height) (frame_size_alignment * 2)

pub lay_plane : Extent → ℕ → Plane → PlaneLayout
lay_plane aligned size p = record {
  line_stride = round_up_to_align (bytes_per_row p aligned.width) frame_size_alignment;
  plane_offset = size;
}

-- The loop of BuildFrameLayout.
pub lay_planes : Extent → ℕ → List Plane → List PlaneLayout × ℕ
lay_planes aligned size [] = ([], size)
lay_planes aligned size (p ∷ ps) =
    let laid = lay_plane aligned size p in
    let (rest, end) =
      lay_planes aligned ((size + plane_rows aligned p * laid.line_stride) % 2 ^ 64) ps in
    (laid ∷ rest, end)

-- The end of BuildFrameLayout: an extra line of the plane of index 1 and the padding; `none` is the
-- DCHECK that there is such a plane.
pub pad_layout : List PlaneLayout → ℕ → Option FrameLayout
pad_layout laid size = elim (get_elem? laid 1) as (λ o. Option FrameLayout) [
  | none ↦ none
  | some u ↦
      some (record { planes = laid; size = (size + (u.line_stride + frame_size_padding)) % 2 ^ 64 })
]

-- BuildFrameLayout.
pub build_frame_layout : List Plane → Extent → Option FrameLayout
build_frame_layout ps coded_size =
    let (laid, size) = lay_planes (aligned_size ps coded_size) 0 ps in pad_layout laid size
