-- ===== src/Codec/Crc.antt =====
-- fielddeck/analysis/crc.py: CrcModel, the lookup tables and the computation of a CRC. `x & mask` is
-- the remainder by a power of two, `>>` and `<<` are division and multiplication by one, and `|` of
-- a number with a zero last digit and a digit is their sum.
pub mod Xor
pub mod Rounds
pub mod Serial
pub mod Catalogue
pub mod Candidates
pub mod Search
mod Tests
use Prim.Native.Nat.{bit_xor}
use field_deck.Prelude.{
  ℕ, zero, suc, ◌+◌, ◌-◌, ◌*◌, ◌/◌, ◌%◌, ◌^◌, String, Bool, true, false, not, ◌&&◌, ◌||◌, Option,
  none, some, List, [], ◌∷◌, ◌++◌, map, any, get_elem?, length, if◌then◌else◌, ltb, ◌==◌, str_eq,
}
use field_deck.Prelude.Bytes.{Bytes}
use field_deck.Common.Errors.{Result, ok, err, invalid_request}

pub record CrcModel : Type 0 where
  pub name : String
  pub width : ℕ
  pub poly : ℕ
  pub init : ℕ
  pub refin : Bool
  pub refout : Bool
  pub xorout : ℕ
  pub check : ℕ
  pub aliases : List String

-- `x & ((1 << width) - 1)`
abbrev pub masked : ℕ → ℕ → ℕ
masked width x = x % 2 ^ width

-- CrcModel.byte_width
abbrev pub byte_width : CrcModel → ℕ
byte_width m = (m.width + 7) / 8

abbrev pub reflect_loop : ℕ → ℕ → ℕ → ℕ
reflect_loop zero value out = out
reflect_loop (suc n) value out = reflect_loop n (value / 2) (out * 2 + value % 2)

-- `_reflect`
abbrev pub reflect : ℕ → ℕ → ℕ
reflect value width = reflect_loop width value 0

abbrev pub times : ℕ → (ℕ → ℕ) → ℕ → ℕ
times zero f x = x
times (suc n) f x = times n f (f x)

-- One round of the table's inner loop, with the reflected polynomial, and without reflection.
abbrev pub round_in : ℕ → ℕ → ℕ
round_in poly_r value = bit_xor (value / 2) (if value % 2 == 1 then poly_r else 0)

abbrev pub round_out : ℕ → ℕ → ℕ → ℕ
round_out poly width value =
    if value / 2 ^ (width - 1) % 2 == 1
    then masked width (bit_xor (value * 2) poly)
    else masked width (value * 2)

abbrev pub entry : ℕ → ℕ → Bool → ℕ → ℕ
entry poly width true index = masked width (times 8 (round_in (reflect poly width)) index)
entry poly width false index =
    masked width (times 8 (round_out poly width) (masked width (index * 2 ^ (width - 8))))

abbrev pub count_from : ℕ → ℕ → List ℕ
count_from k zero = []
count_from k (suc n) = k ∷ count_from (k + 1) n

-- `_table`
abbrev pub table : ℕ → ℕ → Bool → List ℕ
table poly width refin = map (entry poly width refin) (count_from 0 256)

-- `table[i]`, of which i is always below 256.
abbrev pub entry_at : List ℕ → ℕ → ℕ
entry_at t i = elim (get_elem? t i) [ none ↦ 0 | some x ↦ x ]

abbrev pub update_in : List ℕ → ℕ → ℕ → ℕ
update_in t value byte = bit_xor (entry_at t (bit_xor value byte % 256)) (value / 256)

abbrev pub update_out : List ℕ → ℕ → ℕ → ℕ → ℕ
update_out t width value byte =
    bit_xor (entry_at t (bit_xor (value / 2 ^ (width - 8)) byte % 256)) (masked width (value * 256))

abbrev pub over_bytes : (ℕ → ℕ → ℕ) → ℕ → Bytes → ℕ
over_bytes f value [] = value
over_bytes f value (byte ∷ payload) = over_bytes f (f value byte) payload

-- One message bit of the bitwise branch.
abbrev shift_bit : ℕ → ℕ → ℕ → ℕ → ℕ
shift_bit poly width inbit value =
    bit_xor (masked width (value * 2))
      (if bit_xor (value / 2 ^ (width - 1) % 2) inbit == 1 then poly else 0)

-- The loop over the bits of a byte, from the given number of them on downwards.
abbrev shift_bits : ℕ → ℕ → ℕ → ℕ → ℕ → ℕ
shift_bits poly width zero current value = value
shift_bits poly width (suc bit) current value =
    shift_bits poly width bit current (shift_bit poly width (current / 2 ^ bit % 2) value)

abbrev shift_byte : CrcModel → ℕ → ℕ → ℕ
shift_byte m value byte =
    shift_bits m.poly m.width 8 (if m.refin then reflect byte 8 else byte) value

abbrev differs : Bool → Bool → Bool
differs true b = not b
differs false b = b

abbrev pub reflect_if : Bool → ℕ → ℕ → ℕ
reflect_if b value width = if b then reflect value width else value

abbrev pub finished_with : CrcModel → ℕ → ℕ
finished_with m value = masked m.width (bit_xor value m.xorout)

abbrev pub compute_bitwise : CrcModel → Bytes → ℕ
compute_bitwise m payload =
    reflect_if (differs m.refout m.refin || m.refout) (over_bytes (shift_byte m) m.init payload)
      m.width

abbrev pub compute_in : CrcModel → Bytes → ℕ
compute_in m payload =
    reflect_if (not m.refout)
      (masked m.width
        (over_bytes (update_in (table m.poly m.width true)) (reflect m.init m.width) payload))
      m.width

abbrev pub compute_out : CrcModel → Bytes → ℕ
compute_out m payload =
    reflect_if m.refout
      (over_bytes (update_out (table m.poly m.width false) m.width) m.init payload) m.width

-- `_compute`
unfoldable pub compute : CrcModel → Bytes → ℕ
compute m payload = finished_with m (
    if ltb m.width 8
    then compute_bitwise m payload
    else if m.refin
    then compute_in m payload
    else compute_out m payload)
