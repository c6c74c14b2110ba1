-- ===== src/Codec/Slip.antt =====
-- fielddeck/analysis/convert.py: slip_encode and slip_decode (RFC 1055).
pub mod RoundTrip
use field_deck.Prelude.{ℕ, Bool, true, false, List, [], ◌∷◌, ◌++◌, ◌==◌, if◌then◌else◌}
use field_deck.Prelude.Bytes.{Bytes}
use field_deck.Common.Errors.{Result, ok, err, ◌>>=◌, invalid_request}

abbrev pub slip_end : ℕ
slip_end = 0xC0

abbrev pub slip_esc : ℕ
slip_esc = 0xDB

abbrev pub slip_esc_end : ℕ
slip_esc_end = 0xDC

abbrev pub slip_esc_esc : ℕ
slip_esc_esc = 0xDD

-- The bytes that stand for one byte of the packet.
abbrev pub escaped : ℕ → Bytes
escaped b =
    if b == slip_end
    then slip_esc ∷ slip_esc_end ∷ []
    else if b == slip_esc
    then slip_esc ∷ slip_esc_esc ∷ []
    else b ∷ []

abbrev pub escape : Bytes → Bytes
escape [] = []
escape (b ∷ bs) = escaped b ++ escape bs

-- slip_encode
unfoldable pub slip_encode : Bool → Bytes → Bytes
slip_encode leading_end bs =
    (if leading_end then slip_end ∷ [] else []) ++ (escape bs ++ slip_end ∷ [])

-- `frame.strip(END)`: from the left, and from the right.
abbrev pub strip_left : Bytes → Bytes
strip_left [] = []
strip_left (b ∷ bs) = elim (b == slip_end) [ true ↦ strip_left bs | false ↦ b ∷ bs ]

abbrev pub trim : ℕ → Bytes → Bytes
trim b [] = if b == slip_end then [] else b ∷ []
trim b (c ∷ cs) = b ∷ c ∷ cs

abbrev pub strip_right : Bytes → Bytes
strip_right [] = []
strip_right (b ∷ bs) = trim b (strip_right bs)

abbrev pub prepend : ℕ → Result Bytes → Result Bytes
prepend b (ok bs) = ok (b ∷ bs)
prepend b (err e) = err e

abbrev plain : ℕ → Result Bytes → Result Bytes
plain b rest = if b == slip_end then err invalid_request else prepend b rest

abbrev pair : ℕ → Result Bytes → Result Bytes
pair c rest =
    if c == slip_esc_end
    then prepend slip_end rest
    else if c == slip_esc_esc
    then prepend slip_esc rest
    else err invalid_request

-- The loop of slip_decode.
unfoldable pub unescape : Bytes → Result Bytes
unescape [] = ok []
unescape (b ∷ []) = if b == slip_esc then err invalid_request else plain b (ok [])
unescape (b ∷ c ∷ bs) = elim (b == slip_esc) [
  | true ↦ pair c (unescape bs)
  | false ↦ plain b (unescape (c ∷ bs))
]

-- slip_decode
unfoldable pub slip_decode : Bytes → Result Bytes
unfolding unescape
slip_decode frame = unescape (strip_right (strip_left frame))
