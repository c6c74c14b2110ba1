-- ===== src/Codec/Identifier.antt =====
-- fielddeck/protocols/j1939.py: J1939Id and decode_id. A shift to the right is a division, a mask is
-- a remainder, and `|` of fields that share no bit is their sum.
pub mod Fields
use field_deck.Prelude.{ℕ, ◌+◌, ◌*◌, ◌/◌, ◌%◌, Bool, Option, none, some, leb, if◌then◌else◌}

-- J1939Id
pub record Identifier : Type 0 where
  pub raw : ℕ
  pub priority : ℕ
  pub extended_data_page : ℕ
  pub data_page : ℕ
  pub pdu_format : ℕ
  pub pdu_specific : ℕ
  pub source_address : ℕ
  pub pgn : ℕ

abbrev pub pdu2_threshold : ℕ
pdu2_threshold = 240

-- J1939Id.is_broadcast
abbrev pub is_broadcast : Identifier → Bool
is_broadcast i = leb pdu2_threshold i.pdu_format

-- J1939Id.destination_address
abbrev pub destination_address : Identifier → Option ℕ
destination_address i = if is_broadcast i then none else some i.pdu_specific

-- The parameter group: the low byte is part of it in a broadcast only.
abbrev pub parameter_group : ℕ → ℕ → ℕ → ℕ → ℕ
parameter_group extended page format specific =
    if leb pdu2_threshold format
    then extended * 0x20000 + page * 0x10000 + format * 0x100 + specific
    else extended * 0x20000 + page * 0x10000 + format * 0x100

abbrev pub fields_of : ℕ → Identifier
fields_of raw = record {
  raw = raw;
  priority = raw / 0x4000000 % 8;
  extended_data_page = raw / 0x2000000 % 2;
  data_page = raw / 0x1000000 % 2;
  pdu_format = raw / 0x10000 % 256;
  pdu_specific = raw / 0x100 % 256;
  source_address = raw % 256;
  pgn =
      parameter_group (raw / 0x2000000 % 2) (raw / 0x1000000 % 2) (raw / 0x10000 % 256)
        (raw / 0x100 % 256);
}

-- decode_id
unfoldable pub decode_id : ℕ → Identifier
decode_id can_id = fields_of (can_id % 0x20000000)
