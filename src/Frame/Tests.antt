-- ===== src/Frame/Tests.antt =====
-- Frame layouts at concrete sizes.
use motown.Base.{◌≡◌, ◌⊎◌, refl, none, some, [], ◌∷◌, arith, length}
use motown.Stream.{i420}
use motown.Frame.{
  Extent, plane, FrameLayout, info_for_pixel_format, build_frame_layout, aligned_size,
  common_alignment, align_planes, extent, int_of_size, round_up_to_align, row_count, column_count,
  bytes_per_row, plane_rows, lay_plane, lay_planes, pad_layout,
}
use motown.Frame.Layout.{IsLayout, build_frame_layout-IsLayout}

abbrev odd_size : Extent
odd_size = record { width = 33; height = 17 }

odd_layout :
    build_frame_layout (plane 1 1 1 ∷ plane 1 2 2 ∷ plane 1 2 2 ∷ []) odd_size
    ≡ some (record {
      planes =
          record { line_stride = 48; plane_offset = 0 }
          ∷ record { line_stride = 32; plane_offset = 1536 }
          ∷ record { line_stride = 32; plane_offset = 2560 }
          ∷ [];
      size = 3632;
    })
unfolding build_frame_layout aligned_size common_alignment align_planes extent int_of_size
    round_up_to_align row_count column_count bytes_per_row plane_rows lay_plane lay_planes
    pad_layout
odd_layout = refl

build_frame_layout-IsLayout_example :
    ((length (plane 1 1 1 ∷ plane 1 2 2 ∷ plane 1 2 2 ∷ []) ≡ 1)
      × (build_frame_layout (plane 1 1 1 ∷ plane 1 2 2 ∷ plane 1 2 2 ∷ []) odd_size ≡ none))
    ⊎ ((layout : FrameLayout) × (build_frame_layout
            (plane 1 1 1 ∷ plane 1 2 2 ∷ plane 1 2 2 ∷ [])
            odd_size
          ≡ some layout)
        × IsLayout odd_size (plane 1 1 1 ∷ plane 1 2 2 ∷ plane 1 2 2 ∷ []) layout)
unfolding info_for_pixel_format
build_frame_layout-IsLayout_example =
    build_frame_layout-IsLayout i420 (plane 1 1 1 ∷ plane 1 2 2 ∷ plane 1 2 2 ∷ []) odd_size refl
      (omega arith, omega arith)
