-- ===== src/Codec/Framing/Tests.antt =====
-- Segmentations of short streams.
use field_deck.Prelude.{false, some, [], ◌∷◌, ◌≡◌, refl, arith}
use field_deck.Prelude.Number.{negsuc}
use field_deck.Common.Errors.{ok}
use field_deck.Codec.Framing.{Segmentation, split_on_delimiter, split_fixed, split_on_header}
use field_deck.Codec.Framing.Delimiter.{IsLossless, split_on_delimiter-IsLossless}
use field_deck.Codec.Framing.Fixed.{IsGridOf, split_fixed-IsGridOf}

split_on_delimiter-IsLossless_example :
    (s : Segmentation) × (split_on_delimiter (1 ∷ 2 ∷ 10 ∷ 10 ∷ 3 ∷ []) 10 false ≡ ok s)
    × IsLossless (1 ∷ 2 ∷ 10 ∷ 10 ∷ 3 ∷ []) 10 false s
split_on_delimiter-IsLossless_example =
    split_on_delimiter-IsLossless (1 ∷ 2 ∷ 10 ∷ 10 ∷ 3 ∷ []) 10 false (omega arith)

split_fixed-IsGridOf_example :
    (s : Segmentation) × (split_fixed (0 ∷ 1 ∷ 2 ∷ 3 ∷ 4 ∷ 5 ∷ []) 2 1 ≡ ok s)
    × IsGridOf (0 ∷ 1 ∷ 2 ∷ 3 ∷ 4 ∷ 5 ∷ []) 2 1 s
split_fixed-IsGridOf_example = split_fixed-IsGridOf (0 ∷ 1 ∷ 2 ∷ 3 ∷ 4 ∷ 5 ∷ []) 2 1 (omega arith)

-- Frames that overlap are counted twice, so that fewer than no bytes are left.
overlapping :
    split_on_header (7 ∷ 7 ∷ 7 ∷ []) (7 ∷ []) (some 2)
    ≡ ok (record {
      frames = (7 ∷ 7 ∷ []) ∷ (7 ∷ 7 ∷ []) ∷ [];
      offsets = 0 ∷ 1 ∷ [];
      residue_bytes = negsuc 0;
    })
unfolding split_on_header
overlapping = refl
