-- ===== src/Frame/Layout.antt =====
-- The planes of a frame do not overlap, and lie in the frame.
use native.Mathlib.Nat.{mul-le-mul, mod-eq_of_lt}
use motown.Base.{
  ℕ, ◌+◌, ◌*◌, ◌%◌, ◌^◌, ◌≤◌, ◌<◌, ◌≡◌, refl, ◌⊎◌, inl, inr, none, some, List, [], ◌∷◌, arith,
  length, get_elem?,
}
use motown.Stream.{PixelFormat}
use motown.Frame.{
  Extent, Plane, PlaneLayout, FrameLayout, info_for_pixel_format, aligned_size, plane_rows,
  lay_plane, lay_planes, pad_layout, build_frame_layout,
}
use motown.Frame.Sizes.{
  AllSampled, info_for_pixel_format-InTable, IsSmall, Covers, aligned_size-Covers, IsLaid,
  lay_plane-IsLaid,
}

-- Planes one behind the other between two offsets, each with lines and rows enough for its samples.
abbrev pub Laid : Extent → Extent → ℕ → List Plane → List PlaneLayout → ℕ → Type 0
Laid coded aligned from [] [] to = from ≡ to
Laid coded aligned from [] (l ∷ ls) to = ⊥
Laid coded aligned from (p ∷ ps) [] to = ⊥
Laid coded aligned from (p ∷ ps) (l ∷ ls) to =
    (l.plane_offset ≡ from)
    × IsLaid coded aligned p l.line_stride
    × Laid coded aligned (from + plane_rows aligned p * l.line_stride) ps ls to

plane_small : (rows stride : ℕ) → rows < 2 ^ 29 → stride < 2 ^ 31 → rows * stride ≤ 2 ^ 29 * 2 ^ 31
plane_small rows stride h k = mul-le-mul {n₂ = 2 ^ 29} {m₂ = 2 ^ 31} (omega arith) (omega arith)

module _ (coded : Extent) (small : IsSmall coded) (aligned : Extent)
    (covers : Covers aligned coded) where
  lay_planes-Laid :
      (from : ℕ) (ps : List Plane)
      → AllSampled ps
      → from + length ps * 2 ^ 60 ≤ 2 ^ 63
      → Laid coded aligned from ps (lay_planes aligned from ps).0 (lay_planes aligned from ps).1
        × ((lay_planes aligned from ps).1 ≤ 2 ^ 63)
  unfolding lay_planes lay_plane
  lay_planes-Laid from [] s h = (refl, omega arith)
  lay_planes-Laid from (p ∷ ps) s h =
      let l = lay_plane aligned from p in
      let laid = lay_plane-IsLaid coded aligned from p s.0 small covers in
      let bytes = plane_rows aligned p * l.line_stride in
      let fits : bytes ≤ 2 ^ 29 * 2 ^ 31 =
        plane_small (plane_rows aligned p) l.line_stride laid.rows_small laid.stride_small in
      let whole : (from + bytes) % 2 ^ 64 ≡ from + bytes = mod-eq_of_lt (omega arith) in
      let rest = lay_planes-Laid (from + bytes) ps s.1 (omega arith) in
      rw whole ((refl, laid, rest.0), rest.1)

-- The layout of a frame: its planes up to an offset, and an extra line of the second one with the
-- padding behind them.
pub record IsLayout (coded : Extent) (ps : List Plane) (layout : FrameLayout) : Type 0 where
  pub stop : ℕ
  pub second : PlaneLayout
  pub laid : Laid coded (aligned_size ps coded) 0 ps layout.planes stop
  pub held : get_elem? layout.planes 1 ≡ some second
  pub size : layout.size ≡ stop + second.line_stride + 16

pad_layout-IsLayout :
    (coded : Extent) (p q : Plane) (rest : List Plane) (ls : List PlaneLayout) (stop : ℕ)
    → Laid coded (aligned_size (p ∷ q ∷ rest) coded) 0 (p ∷ q ∷ rest) ls stop
    → stop ≤ 2 ^ 63
    → (layout : FrameLayout) × (pad_layout ls stop ≡ some layout)
      × IsLayout coded (p ∷ q ∷ rest) layout
unfolding pad_layout
pad_layout-IsLayout coded p q rest [] stop h le = absurd h
pad_layout-IsLayout coded p q rest (l ∷ []) stop h le = absurd h.2
pad_layout-IsLayout coded p q rest (l ∷ m ∷ ls) stop h le =
    let small = h.2.1.stride_small in
    let whole : (stop + (m.line_stride + 16)) % 2 ^ 64 ≡ stop + (m.line_stride + 16) =
      mod-eq_of_lt (omega arith) in
    (
      record { planes = l ∷ m ∷ ls; size = stop + (m.line_stride + 16) },
      rw whole refl,
      record { stop = stop; second = m; laid = h; held = refl; size = omega arith },
    )

-- For a coded size of less than 2 ^ 28 columns and rows, and a pixel format of the table with more
-- than one plane, BuildFrameLayout gives a layout in which the planes follow one another without
-- overlap from the offset 0 on; each has lines of a multiple of 16 bytes that hold its samples of
-- the coded width, and rows enough for the coded height; and the frame's size is the end of the
-- last plane, with a line of the second plane and 16 bytes more. With a single plane, its check
-- fails.
pub build_frame_layout-IsLayout :
    (f : PixelFormat) (ps : List Plane) (coded : Extent)
    → info_for_pixel_format f ≡ some ps
    → IsSmall coded
    → ((length ps ≡ 1) × (build_frame_layout ps coded ≡ none))
      ⊎ ((layout : FrameLayout) × (build_frame_layout ps coded ≡ some layout)
          × IsLayout coded ps layout)
unfolding build_frame_layout pad_layout lay_planes
build_frame_layout-IsLayout f [] coded e small =
    absurd (omega (arith, (info_for_pixel_format-InTable f [] e).1))
build_frame_layout-IsLayout f (p ∷ []) coded e small = inl (refl, refl)
build_frame_layout-IsLayout f (p ∷ q ∷ rest) coded e small =
    let t = info_for_pixel_format-InTable f (p ∷ q ∷ rest) e in
    let a = aligned_size (p ∷ q ∷ rest) coded in
    let covers = aligned_size-Covers p (q ∷ rest) coded t.0 small in
    let laid = lay_planes-Laid coded small a covers 0 (p ∷ q ∷ rest) t.0 (omega arith) in
    inr (
      pad_layout-IsLayout coded p q rest (lay_planes a 0 (p ∷ q ∷ rest)).0
        (lay_planes a 0 (p ∷ q ∷ rest)).1 laid.0 laid.1)
