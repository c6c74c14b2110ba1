-- ===== src/Codec/Crc/Candidates.antt =====
-- fielddeck/analysis/crc.py: the lookup of a model by name, the bytes of a CRC, and the search for
-- the models that make given bytes.
use field_deck.Prelude.{
  ℕ, zero, suc, ◌/◌, ◌%◌, ◌^◌, String, Bool, true, false, Option, none, some, List, [], ◌∷◌, ◌++◌,
  any, length, if◌then◌else◌, ltb, ◌==◌, str_eq,
}
use field_deck.Prelude.Bytes.{Bytes}
use field_deck.Common.Errors.{Result, ok, err, invalid_request}
use field_deck.Codec.Crc.{CrcModel, byte_width, compute}

abbrev by_name : String → List CrcModel → Option CrcModel
by_name key [] = none
by_name key (m ∷ ms) = if str_eq m.name key then some m else by_name key ms

-- The dictionary of the aliases, where a later model overwrites an earlier one.
abbrev by_alias : String → List CrcModel → Option CrcModel
by_alias key [] = none
by_alias key (m ∷ ms) = elim (by_alias key ms) [
  | some n ↦ some n
  | none ↦ if any (str_eq key) m.aliases then some m else none
]

abbrev alias_or_raise : Option CrcModel → Result CrcModel
alias_or_raise none = err invalid_request
alias_or_raise (some m) = ok m

abbrev name_or_alias : Option CrcModel → Option CrcModel → Result CrcModel
name_or_alias (some m) o = ok m
name_or_alias none o = alias_or_raise o

-- `get_model`, of a key that is stripped, in lower case, and with dashes.
abbrev get_model : String → List CrcModel → Result CrcModel
get_model key models = name_or_alias (by_name key models) (by_alias key models)

pub data ByteOrder : Type 0 where
  big little : ByteOrder

abbrev pub little_bytes : ℕ → ℕ → Bytes
little_bytes zero value = []
little_bytes (suc n) value = value % 256 ∷ little_bytes n (value / 256)

abbrev pub big_bytes : ℕ → ℕ → Bytes
big_bytes zero value = []
big_bytes (suc n) value = big_bytes n (value / 256) ++ value % 256 ∷ []

abbrev pub ordered : ByteOrder → ℕ → ℕ → Bytes
ordered big n value = big_bytes n value
ordered little n value = little_bytes n value

-- CrcModel.to_bytes: `none` is the OverflowError of a value that has more bytes.
unfoldable pub to_bytes : CrcModel → ℕ → ByteOrder → Option Bytes
to_bytes m value order =
    if ltb value (256 ^ byte_width m) then some (ordered order (byte_width m) value) else none

pub record CrcMatch : Type 0 where
  pub model : CrcModel
  pub byteorder : ByteOrder
  pub value : ℕ

abbrev pub same_bytes : Bytes → Bytes → Bool
same_bytes [] [] = true
same_bytes [] (y ∷ ys) = false
same_bytes (x ∷ xs) [] = false
same_bytes (x ∷ xs) (y ∷ ys) = if x == y then same_bytes xs ys else false

-- The loop over the byte orders, which ends with the first that fits: outside, `none` is an
-- OverflowError; inside, that no order fits.
abbrev pub try_bytes :
    Option Bytes → Bytes → CrcMatch → Option (Option CrcMatch) → Option (Option CrcMatch)
try_bytes none expected found rest = none
try_bytes (some bs) expected found rest = if same_bytes bs expected then some (some found) else rest

abbrev pub try_orders : List ByteOrder → CrcModel → ℕ → Bytes → Option (Option CrcMatch)
try_orders [] m value expected = some none
try_orders (o ∷ os) m value expected =
    try_bytes (to_bytes m value o) expected (record { model = m; byteorder = o; value = value })
      (try_orders os m value expected)

abbrev pub add_match : Option (Option CrcMatch) → Option (List CrcMatch) → Option (List CrcMatch)
add_match none ms = none
add_match (some none) ms = ms
add_match (some (some c)) none = none
add_match (some (some c)) (some ms) = some (c ∷ ms)

-- `crc_candidates`, of a catalogue.
unfoldable pub crc_candidates :
    List CrcModel → Bytes → Bytes → List ByteOrder → Option (List CrcMatch)
unfolding to_bytes compute
crc_candidates [] payload expected orders = some []
crc_candidates (m ∷ models) payload expected orders =
    let rest = crc_candidates models payload expected orders in
    if byte_width m == length expected
    then add_match (try_orders orders m (compute m payload) expected) rest
    else rest
