-- ===== src/Pipeline/Compressed.antt =====
-- What BuildConversionPipeline delivers for a compressed audio type.
use package.text.Mathlib.Text.{◌==◌ as str_eq}
use motown.Base.{◌≡◌, ◌⊎◌, true, false, Option, none, some, List, [], ◌∷◌}
use motown.Stream.{AudioDetails, StreamType, StreamTypeSet}
use motown.Pipeline.{Part, any_accepts, Outcome}
use motown.Pipeline.Best.{Bounded}
use motown.Pipeline.Build.{Converted, IsLpcm}

-- The decoder that the decoder's library makes for a type, if any, gives LPCM audio.
abbrev pub DecodesToLpcm : (StreamType → Option StreamType) → StreamType → Type 0
DecodesToLpcm create_decoder t =
    (out : StreamType) → create_decoder t ≡ some out → (a : AudioDetails) × IsLpcm out a

module _ (create_decoder : StreamType → Option StreamType) where
  -- The three ends: an audio set contains the type, by AudioStreamTypeSet::contains, and the type
  -- stays as it is; or there is no LPCM set for it, or no decoder; or it is decoded, and the decoded
  -- type is fitted into a set, or stops the program where there is none for it.
  abbrev pub Transcoded : StreamType → AudioDetails → List StreamTypeSet → Outcome → Type 0
  Transcoded t a sets o =
      ((any_accepts a sets ≡ true) × (o ≡ Outcome.built [] t))
      ⊎ (((any_accepts a sets ≡ false)
            × (o ≡ Outcome.not_built [])
            × (Bounded a sets 0 ⊎ (create_decoder t ≡ none)))
          ⊎ ((any_accepts a sets ≡ false)
              × ((out : StreamType) × (b : AudioDetails) × (create_decoder t ≡ some out)
                  × IsLpcm out b
                  × Converted b sets (Part.decoder t ∷ []) o)))
