-- ===== src/Frame/Sizes.antt =====
-- Alignments and the sizes of planes.
use native.Mathlib.Nat.{mul-le-mul}
use motown.Base.{
  ℕ, ◌+◌, ◌-◌, ◌*◌, ◌/◌, ◌%◌, ◌^◌, ◌≤◌, ◌<◌, ◌≡◌, subst, max, ◌==◌, Bool-cases, length, ◌⊎◌, inl,
  inr, Option, none, some, List, [], ◌∷◌, arith,
}
use motown.Stream.{PixelFormat}
use motown.Frame.{
  Extent, Plane, int_of_size, extent, round_up_to_align, row_count, column_count, bytes_per_row,
  align_planes, common_alignment, aligned_size, plane_rows, lay_plane, info_for_pixel_format,
}

-- What the table of pixel formats holds for a plane.
abbrev pub IsSampled : Plane → Type 0
IsSampled p =
    (p.bytes_per_element ≤ 4)
    × ((p.sample_width ≡ 1) ⊎ (p.sample_width ≡ 2))
    × ((p.sample_height ≡ 1) ⊎ (p.sample_height ≡ 2))

abbrev pub AllSampled : List Plane → Type 0
AllSampled [] = Unit
AllSampled (p ∷ ps) = IsSampled p × AllSampled ps

-- An alignment of 1 or 2.
abbrev Aligns : ℕ → Type 0
Aligns a = (1 ≤ a) × (a ≤ 2)

align_planes-Aligns :
    (e : Extent) (ps : List Plane)
    → AllSampled ps
    → Aligns e.width × Aligns e.height
    → Aligns (align_planes e ps).width × Aligns (align_planes e ps).height
unfolding align_planes
align_planes-Aligns e [] s h = h
align_planes-Aligns e (p ∷ ps) ((b, w, r), s) h =
    align_planes-Aligns
      (record { width = max e.width p.sample_width; height = max e.height p.sample_height }) ps s
      (ground arith)

common_alignment-Aligns :
    (p : Plane) (ps : List Plane)
    → AllSampled (p ∷ ps)
    → Aligns (common_alignment (p ∷ ps)).width × Aligns (common_alignment (p ∷ ps)).height
unfolding common_alignment extent int_of_size align_planes
common_alignment-Aligns p ps ((b, w, r), s) =
    let h =
      align_planes-Aligns (record { width = max 0 p.sample_width; height = max 0 p.sample_height })
        ps s (ground arith) in
    ground arith

abbrev pub InTable : Option (List Plane) → Type 0
InTable none = Unit
InTable (some ps) = AllSampled ps × (1 ≤ length ps) × (length ps ≤ 4)

table : (f : PixelFormat) → InTable (info_for_pixel_format f)
unfolding info_for_pixel_format
table PixelFormat.unknown = tt
table f = omega arith

Sampled-some :
    (o : Option (List Plane)) (ps : List Plane) → InTable o → o ≡ some ps → InTable (some ps)
Sampled-some none ps h e = absurd (cc)
Sampled-some (some qs) ps h e = subst InTable e h

-- The table has 1 to 4 planes for a format, and each has elements of at most 4 bytes, and samples of
-- 1 or 2 columns and rows.
pub info_for_pixel_format-InTable :
    (f : PixelFormat) (ps : List Plane) → info_for_pixel_format f ≡ some ps → InTable (some ps)
unfolding info_for_pixel_format
info_for_pixel_format-InTable f ps h = Sampled-some (info_for_pixel_format f) ps (table f) h

round_up_one : (v : ℕ) → v < 2 ^ 32 → round_up_to_align v 1 ≡ v
unfolding round_up_to_align
round_up_one v h = omega arith

-- Alignments of 1 and 2 add at most 1.
round_up_small :
    (v a : ℕ)
    → v < 2 ^ 32
    → Aligns a
    → (v ≤ round_up_to_align v a) × (round_up_to_align v a ≤ v + 1)
unfolding round_up_to_align
round_up_small v a h (one, two) = elim (one_or_two a one two) [
  | inl e ↦ rw e (omega arith)
  | inr e ↦ rw e (omega arith)
]
  where
    one_or_two : (a : ℕ) → 1 ≤ a → a ≤ 2 → (a ≡ 1) ⊎ (a ≡ 2)
    one_or_two a h k = elim (Bool-cases (a == 1)) [
      | inl e ↦ inl (ground arith)
      | inr e ↦ inr (ground arith)
    ]

extent_self : (w h : ℕ) → w < 2 ^ 31 → h < 2 ^ 31 → (extent w h).width ≡ w
unfolding extent int_of_size
extent_self w h hw hh = ground arith

extent_self_height : (w h : ℕ) → w < 2 ^ 31 → h < 2 ^ 31 → (extent w h).height ≡ h
unfolding extent int_of_size
extent_self_height w h hw hh = ground arith

-- A coded size that the layouts are about.
abbrev pub IsSmall : Extent → Type 0
IsSmall e = (e.width < 2 ^ 28) × (e.height < 2 ^ 28)

-- An aligned size, with the size that it is made for.
abbrev pub Covers : Extent → Extent → Type 0
Covers aligned coded =
    (coded.width ≤ aligned.width)
    × (aligned.width ≤ coded.width + 1)
    × (coded.height ≤ aligned.height)
    × (aligned.height ≤ coded.height + 1)

pub aligned_size-Covers :
    (p : Plane) (ps : List Plane) (coded : Extent)
    → AllSampled (p ∷ ps)
    → IsSmall coded
    → Covers (aligned_size (p ∷ ps) coded) coded
unfolding aligned_size
aligned_size-Covers p ps coded s small =
    let a = common_alignment-Aligns p ps s in
    let c = common_alignment (p ∷ ps) in
    let w = round_up_small coded.width c.width (omega arith) a.0 in
    let h = round_up_small coded.height c.height (omega arith) a.1 in
    let W = round_up_to_align coded.width c.width in
    let H = round_up_to_align coded.height c.height in
    rw
      (
        extent_self W H (omega arith) (omega arith),
        extent_self_height W H (omega arith) (omega arith),
      )
      (omega arith)

-- How many samples of a plane `v` columns or rows take.
abbrev pub samples : ℕ → ℕ → ℕ
samples v s = (v + (s - 1)) / s

-- The quotient of RowCount and of ColumnCount.
count_samples :
    (v V s : ℕ)
    → v ≤ V
    → V ≤ 2 ^ 28
    → (s ≡ 1) ⊎ (s ≡ 2)
    → (samples v s ≤ round_up_to_align V s / s) × (round_up_to_align V s / s ≤ 2 ^ 28)
unfolding round_up_to_align
count_samples v V s h k (inl e) = rw e (omega arith)
count_samples v V s h k (inr e) = rw e (omega arith)

module _ (n : ℕ) (fits : n ≤ 4 * 2 ^ 28) where
  round_line : (m : ℕ) → m ≤ n → m ≤ round_up_to_align (n % 2 ^ 64) 16
  unfolding round_up_to_align
  round_line m h = omega arith

  line_small : round_up_to_align (n % 2 ^ 64) 16 < 2 ^ 31
  unfolding round_up_to_align
  line_small = omega arith

module _ (n : ℕ) (fits : n ≤ 2 ^ 28) where
  round_rows : (m : ℕ) → m ≤ n → m ≤ round_up_to_align n 32
  unfolding round_up_to_align
  round_rows m h = omega arith

  rows_below : round_up_to_align n 32 < 2 ^ 29
  unfolding round_up_to_align
  rows_below = omega arith

round_stepped : (n : ℕ) → round_up_to_align n 16 % 16 ≡ 0
unfolding round_up_to_align
round_stepped n = omega arith

-- What the loop gives a plane: lines that are long enough, of a multiple of 16 bytes, and rows enough.
pub record IsLaid (coded aligned : Extent) (p : Plane) (stride : ℕ) : Type 0 where
  pub wide : p.bytes_per_element * samples coded.width p.sample_width ≤ stride
  pub stepped : stride % 16 ≡ 0
  pub high : samples coded.height p.sample_height ≤ plane_rows aligned p
  pub stride_small : stride < 2 ^ 31
  pub rows_small : plane_rows aligned p < 2 ^ 29

pub lay_plane-IsLaid :
    (coded aligned : Extent) (size : ℕ) (p : Plane)
    → IsSampled p
    → IsSmall coded
    → Covers aligned coded
    → IsLaid coded aligned p (lay_plane aligned size p).line_stride
unfolding lay_plane bytes_per_row column_count row_count plane_rows
lay_plane-IsLaid coded aligned size p (b, w, h) small covers =
    let cols = count_samples coded.width aligned.width p.sample_width covers.0 (omega arith) w in
    let rows = count_samples coded.height aligned.height p.sample_height covers.2 (omega arith) h in
    let C = round_up_to_align aligned.width p.sample_width / p.sample_width in
    let R = round_up_to_align aligned.height p.sample_height / p.sample_height in
    let fits : p.bytes_per_element * C ≤ 4 * 2 ^ 28 = mul-le-mul b cols.1 in
    let enough : p.bytes_per_element * samples coded.width p.sample_width
        ≤ p.bytes_per_element * C =
      mul-le-mul (omega arith) cols.0 in
    record {
      wide = round_line (p.bytes_per_element * C) fits _ enough;
      stepped = round_stepped (p.bytes_per_element * C % 2 ^ 64);
      high = round_rows R rows.1 _ rows.0;
      stride_small = line_small (p.bytes_per_element * C) fits;
      rows_small = rows_below R rows.1;
    }
