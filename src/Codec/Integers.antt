-- ===== src/Codec/Integers.antt =====
-- fielddeck/analysis/convert.py: integers as fixed-width fields of bytes, and slices of bytes. The
-- byte order is one of the two, so that its check has nothing to refuse.
pub mod RoundTrip
mod Tests
use field_deck.Prelude.{
  ℕ, zero, suc, ◌+◌, ◌-◌, ◌*◌, ◌/◌, ◌%◌, ◌^◌, Bool, true, false, not, ◌&&◌, ◌||◌, Option, none,
  some, List, [], ◌∷◌, ◌++◌, map, any, length, take, drop, if◌then◌else◌, ltb, leb, ◌==◌,
}
use field_deck.Prelude.Bytes.{Bytes}
use field_deck.Prelude.Number.{ℤ, pos, negsuc}
use field_deck.Common.Errors.{Result, ok, err, ◌>>=◌, ◌>>◌, require, invalid_request}
use field_deck.Codec.Crc.Candidates.{ByteOrder, big, little, ordered}
use field_deck.Codec.Framing.{fixed_frames, slice}

abbrev pub int_widths : List ℕ
int_widths = 8 ∷ 16 ∷ 32 ∷ 64 ∷ []

-- `_check_width`
abbrev pub check_width : ℕ → List ℕ → Result (Unit {0})
check_width width allowed = require (any (λ w. w == width) allowed) invalid_request

-- The number of an encoding, where the value fits a field of some bytes.
abbrev pub as_unsigned : Bool → ℕ → ℤ → Option ℕ
as_unsigned false size (pos v) = if ltb v (256 ^ size) then some v else none
as_unsigned false size (negsuc m) = none
as_unsigned true size (pos v) = if ltb v (256 ^ size / 2) then some v else none
as_unsigned true size (negsuc m) =
    if ltb m (256 ^ size / 2) then some (256 ^ size - suc m) else none

abbrev pub encoded : ByteOrder → ℕ → Option ℕ → Result Bytes
encoded order size none = err invalid_request
encoded order size (some v) = ok (ordered order size v)

-- `int_to_bytes`
unfoldable pub int_to_bytes : ℤ → ℕ → ByteOrder → Bool → Result Bytes
int_to_bytes value width order signed =
    check_width width int_widths >> encoded order (width / 8) (as_unsigned signed (width / 8) value)

abbrev pub from_little : Bytes → ℕ
from_little [] = 0
from_little (b ∷ bs) = from_little bs * 256 + b

abbrev pub from_big : ℕ → Bytes → ℕ
from_big v [] = v
from_big v (b ∷ bs) = from_big (v * 256 + b) bs

abbrev pub unsigned_value : ByteOrder → Bytes → ℕ
unsigned_value big bs = from_big 0 bs
unsigned_value little bs = from_little bs

abbrev pub as_signed : Bool → ℕ → ℕ → ℤ
as_signed false size v = pos v
as_signed true size v = if leb (256 ^ size / 2) v then negsuc (256 ^ size - v - 1) else pos v

-- `int.from_bytes`
abbrev pub from_bytes : ByteOrder → Bool → Bytes → ℤ
from_bytes order signed bs = as_signed signed (length bs) (unsigned_value order bs)

-- `bytes_to_ints`
unfoldable pub bytes_to_ints : Bytes → ℕ → ByteOrder → Bool → Result (List ℤ)
bytes_to_ints payload width order signed =
    check_width width int_widths
    >> ok (map (from_bytes order signed) (fixed_frames (length payload) payload (width / 8) 0))

abbrev sliced : Bytes → ℕ → Option ℕ → Result Bytes
sliced payload offset none = ok (drop offset payload)
sliced payload offset (some size) =
    if ltb (length payload) (offset + size)
    then err invalid_request
    else ok (slice payload offset (offset + size))

-- `slice_bytes`, of numbers that are not negative.
unfoldable pub slice_bytes : Bytes → ℕ → Option ℕ → Result Bytes
slice_bytes payload offset size =
    require (leb offset (length payload)) invalid_request >> sliced payload offset size

abbrev narrowed_to : Option ℕ → ℕ → ℕ
narrowed_to none value = value
narrowed_to (some width) value = value % 2 ^ width

abbrev within_width : Option ℕ → ℕ → Bool
within_width none last = true
within_width (some width) last = leb last width

-- `bitfield`, of a value and an offset that are not negative.
unfoldable pub bitfield : ℕ → ℕ → ℕ → Option ℕ → Result ℕ
bitfield value offset count total_width =
    require (ltb 0 count) invalid_request
    >> (require (within_width total_width (offset + count)) invalid_request
        >> ok (narrowed_to total_width value / 2 ^ offset % 2 ^ count))
