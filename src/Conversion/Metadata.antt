-- ===== src/Conversion/Metadata.antt =====
-- The converters of metadata of services/media/framework_mojo/mojo_type_conversions.cc.
use Prim.Native.String.{String}
use package.text.Mathlib.Text.{◌==◌ as str_eq}
use package.text.Mathlib.TextEquality.{eq_iff}
use motown.Base.{ℕ, ◌≡◌, refl, sym, ◌∙◌, Bool-cases, inl, inr, Option, none, some, if◌then◌else◌}
use motown.MediaTypes

-- services/media/framework/metadata.h.
pub record Metadata : Type 0 where
  pub duration_ns : ℕ
  pub title : String
  pub artist : String
  pub album : String
  pub publisher : String
  pub genre : String
  pub composer : String

-- `s.empty() ? String() : String(s)`.
pub nullable : String → Option String
nullable s = if str_eq s "" then none else some s

-- MediaMetadata from Metadata; null for null.
pub from_metadata : Option Metadata → Option MediaTypes.MediaMetadata
from_metadata none = none
from_metadata (some m) = some (record {
  duration = m.duration_ns;
  title = nullable m.title;
  artist = nullable m.artist;
  album = nullable m.album;
  publisher = nullable m.publisher;
  genre = nullable m.genre;
  composer = nullable m.composer;
})

-- The conversion of a nullable mojo String to std::string is not part of the repository.
module _ (to_std : Option String → String) where
  -- Metadata from MediaMetadata.
  pub to_metadata : Option MediaTypes.MediaMetadata → Option Metadata
  to_metadata none = none
  to_metadata (some m) = some (record {
    duration_ns = m.duration;
    title = to_std m.title;
    artist = to_std m.artist;
    album = to_std m.album;
    publisher = to_std m.publisher;
    genre = to_std m.genre;
    composer = to_std m.composer;
  })

  to_std-nullable :
      to_std none ≡ ""
      → ((s : String) → to_std (some s) ≡ s)
      → (s : String) → to_std (nullable s) ≡ s
  unfolding nullable
  to_std-nullable null full s = elim (Bool-cases (str_eq s "")) [
    | inl e ↦ rw (e, nullable) (null ∙ sym ((eq_iff s "").0 e))
    | inr ne ↦ rw (ne, nullable) (full s)
  ]

  -- Metadata sent over the wire and read back is the same, empty texts and null included, when the
  -- conversion of a nullable string gives the empty text for null and its text otherwise.
  pub to_metadata-from_metadata :
      to_std none ≡ ""
      → ((s : String) → to_std (some s) ≡ s)
      → (m : Option Metadata) → to_metadata (from_metadata m) ≡ m
  unfolding to_metadata from_metadata
  to_metadata-from_metadata null full none = refl
  to_metadata-from_metadata null full (some m) =
      let keeps = to_std-nullable null full in
      rw (
        keeps m.title,
        keeps m.artist,
        keeps m.album,
        keeps m.publisher,
        keeps m.genre,
        keeps m.composer,
      )
