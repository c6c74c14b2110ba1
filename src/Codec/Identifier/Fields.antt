-- ===== src/Codec/Identifier/Fields.antt =====
-- The decoded fields of a J1939 identifier determine it.
use field_deck.Prelude.{
  ℕ, ◌+◌, ◌*◌, ◌/◌, ◌%◌, ◌<◌, Option, none, some, leb, ◌≡◌, arith, Bool-cases, inl, inr,
}
use field_deck.Codec.Identifier.{
  Identifier, decode_id, destination_address, fields_of, parameter_group, pdu2_threshold,
}

-- How an identifier is made of its priority, group, destination and source.
abbrev pub assembled : ℕ → ℕ → Option ℕ → ℕ → ℕ
assembled priority group none source = priority * 0x4000000 + group * 0x100 + source
assembled priority group (some destination) source =
    priority * 0x4000000 + (group + destination) * 0x100 + source

-- Each field is in its range, and the four that an analyst reads give the identifier back.
pub record IsFaithful (can_id : ℕ) (i : Identifier) : Type 0 where
  pub priority_range : i.priority < 8
  pub group_range : i.pgn < 0x40000
  pub source_range : i.source_address < 256
  pub restored :
      assembled i.priority i.pgn (destination_address i) i.source_address ≡ can_id % 0x20000000

group-range : (e p f s : ℕ) → e < 2 → p < 2 → f < 256 → s < 256 → parameter_group e p f s < 0x40000
group-range e p f s he hp hf hs = ground arith

fields-restored :
    (raw : ℕ)
    → raw < 0x20000000
    → assembled
        (fields_of raw).priority
        (fields_of raw).pgn
        (destination_address (fields_of raw))
        (fields_of raw).source_address
      ≡ raw
fields-restored raw h = elim (Bool-cases (leb pdu2_threshold (raw / 0x10000 % 256))) [
  | inl t ↦ rw t (omega arith)
  | inr t ↦ rw t (omega arith)
]

-- For any identifier: the priority is below 8, the parameter group below 2^18, the source address
-- below 256; and the priority, the group, the destination, where there is one, and the source,
-- assembled, are the identifier's lower 29 bits.
pub decode_id-IsFaithful : (can_id : ℕ) → IsFaithful can_id (decode_id can_id)
unfolding decode_id
decode_id-IsFaithful can_id = record {
  priority_range = omega arith;
  group_range =
      group-range (can_id % 0x20000000 / 0x2000000 % 2) (can_id % 0x20000000 / 0x1000000 % 2)
        (can_id % 0x20000000 / 0x10000 % 256) (can_id % 0x20000000 / 0x100 % 256) (omega arith)
        (omega arith) (omega arith) (omega arith);
  source_range = omega arith;
  restored = fields-restored (can_id % 0x20000000) (omega arith);
}
