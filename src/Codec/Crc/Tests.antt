-- ===== src/Codec/Crc/Tests.antt =====
-- CRC models on concrete bytes; above all the catalogue's check values, which are those of
-- "123456789".
use field_deck.Prelude.{[], ◌∷◌, map, ◌≡◌, refl, arith}
use field_deck.Prelude.Bytes.{Bytes}
use field_deck.Codec.Crc.{compute}
use field_deck.Codec.Crc.Catalogue.{catalogue, crc16_modbus}
use field_deck.Codec.Crc.Candidates.{crc_candidates, big, little}
use field_deck.Codec.Crc.Search.{Searched, crc_candidates-Searched}
use field_deck.Codec.Crc.Serial.{serial_crc, compute-serial_crc}

abbrev nine_digits : Bytes
nine_digits = 49 ∷ 50 ∷ 51 ∷ 52 ∷ 53 ∷ 54 ∷ 55 ∷ 56 ∷ 57 ∷ []

check_values : map (λ m. compute m nine_digits) catalogue ≡ map (λ m. m.check) catalogue
unfolding compute
check_values = refl

compute-serial_crc_example :
    compute crc16_modbus (1 ∷ 255 ∷ []) ≡ serial_crc crc16_modbus (1 ∷ 255 ∷ [])
compute-serial_crc_example =
    compute-serial_crc crc16_modbus (1 ∷ 255 ∷ []) (omega arith) refl
      (omega arith, (omega arith, tt))

crc_candidates-Searched_example :
    Searched
      (1 ∷ 255 ∷ [])
      (193 ∷ 128 ∷ [])
      (big ∷ little ∷ [])
      catalogue
      (crc_candidates catalogue (1 ∷ 255 ∷ []) (193 ∷ 128 ∷ []) (big ∷ little ∷ []))
crc_candidates-Searched_example =
    crc_candidates-Searched (1 ∷ 255 ∷ []) (193 ∷ 128 ∷ []) catalogue (big ∷ little ∷ [])
