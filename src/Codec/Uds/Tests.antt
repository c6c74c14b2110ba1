-- ===== src/Codec/Uds/Tests.antt =====
-- UDS messages on the wire.
use field_deck.Prelude.{ℕ, List, [], ◌∷◌, ◌≡◌, refl, inl, inr}
use field_deck.Common.Permission.{control, flash}
use field_deck.Codec.UdsTables.{UdsService}
use field_deck.Codec.Uds.{summarize_exchange}
use field_deck.Codec.Uds.Classify.{IsTold, decode_message-IsTold}

abbrev reset_service : UdsService
reset_service = record { sid = 0x11; name = "ECUReset"; permission = control }

decode_message-IsTold_example : IsTold reset_service (1 ∷ [])
decode_message-IsTold_example = decode_message-IsTold reset_service (1 ∷ []) (inr (inl refl))

abbrev download_talk : List (List ℕ)
download_talk = (0x22 ∷ 0xf1 ∷ 0x90 ∷ []) ∷ (0x74 ∷ []) ∷ (0x7f ∷ 0x11 ∷ 0x78 ∷ []) ∷ []

highest_of_talk : summarize_exchange download_talk ≡ flash
unfolding summarize_exchange
highest_of_talk = refl
