-- ===== src/Codec/Integers/Tests.antt =====
-- Integer fields of concrete values.
use field_deck.Prelude.{[], ◌∷◌, none, some, true, refl, ◌≡◌, arith}
use field_deck.Prelude.Number.{pos, negsuc}
use field_deck.Common.Errors.{ok, err, invalid_request}
use field_deck.Codec.Crc.Candidates.{big, little}
use field_deck.Codec.Integers.{int_to_bytes, bytes_to_ints, slice_bytes, bitfield}
use field_deck.Codec.Integers.RoundTrip.{bytes_to_ints-int_to_bytes}

bytes_to_ints-int_to_bytes_example :
    bytes_to_ints (44 ∷ 1 ∷ 254 ∷ 255 ∷ 7 ∷ []) 16 little true ≡ ok (pos 300 ∷ negsuc 1 ∷ [])
unfolding int_to_bytes
bytes_to_ints-int_to_bytes_example =
    bytes_to_ints-int_to_bytes 16 little true (pos 300 ∷ negsuc 1 ∷ [])
      ((44 ∷ 1 ∷ []) ∷ (254 ∷ 255 ∷ []) ∷ []) (7 ∷ []) refl (refl, (refl, tt)) (omega arith)

signed_too_large : int_to_bytes (pos 128) 8 big true ≡ err invalid_request
unfolding int_to_bytes
signed_too_large = refl

slice_past_end : slice_bytes (1 ∷ 2 ∷ []) 1 (some 2) ≡ err invalid_request
unfolding slice_bytes
slice_past_end = refl

slice_rest : slice_bytes (1 ∷ 2 ∷ []) 1 none ≡ ok (2 ∷ [])
unfolding slice_bytes
slice_rest = refl

middle_bits : bitfield 214 2 3 (some 8) ≡ ok 5
unfolding bitfield
middle_bits = refl
