-- ===== src/Codec/Cobs.antt =====
-- fielddeck/analysis/convert.py: cobs_encode and cobs_decode. The encoder's block is the slice
-- `data[block_start:index]`, and its code byte is one more than its length.
pub mod RoundTrip
use field_deck.Prelude.{
  ℕ, ◌+◌, ◌-◌, zero, suc, Bool, true, false, not, ◌&&◌, List, [], ◌∷◌, ◌++◌, ◌==◌, if◌then◌else◌,
  length, take, drop, any,
}
use field_deck.Prelude.Bytes.{Bytes}
use field_deck.Common.Errors.{Result, ok, err, ◌>>=◌, ◌>>◌, require, invalid_request}

-- The block at the end of the input, unless a full block ended exactly there.
abbrev pub final_block : Bytes → Bool → Bytes
final_block [] true = 1 ∷ []
final_block [] false = []
final_block (b ∷ bs) needs = (length (b ∷ bs) + 1) ∷ b ∷ bs

-- The loop of cobs_encode, with the current block and `needs_final_block`.
unfoldable pub encode_from : Bytes → Bool → Bytes → Bytes
encode_from block needs [] = final_block block needs
encode_from block needs (byte ∷ bs) =
    let after_zero = encode_from [] true bs in
    let after_full = encode_from [] false bs in
    let longer = encode_from (block ++ byte ∷ []) needs bs in
    if byte == 0
    then (length block + 1) ∷ (block ++ after_zero)
    else if length block == 0xFD
    then 0xFF ∷ ((block ++ byte ∷ []) ++ after_full)
    else longer

-- cobs_encode
unfoldable pub cobs_encode : Bytes → Bytes
unfolding encode_from
cobs_encode bs = encode_from [] true bs

abbrev pub is_zero : ℕ → Bool
is_zero b = b == 0

-- A zero was removed between two blocks, unless the first was full.
abbrev pub separator : ℕ → Bytes → Bytes
separator code [] = []
separator code (b ∷ bs) = if code == 0xFF then [] else 0 ∷ []

abbrev pub joined : Bytes → Result Bytes → Result Bytes
joined bs (ok rest) = ok (bs ++ rest)
joined bs (err e) = err e

-- One round of the loop of cobs_decode, with what the later rounds make of the rest.
abbrev pub decode_block : ℕ → Bytes → Bytes → Result Bytes → Result Bytes
decode_block code chunk rest later = do
  require (not (code == 0)) invalid_request
  require (length chunk == (code - 1)) invalid_request
  require (not (any is_zero chunk)) invalid_request
  joined (chunk ++ separator code rest) later

-- The loop of cobs_decode. Each round takes a code byte at least, so the length of the block is
-- fuel enough.
unfoldable pub decode_loop : ℕ → Bytes → Result Bytes
decode_loop fuel [] = ok []
decode_loop zero (code ∷ block) = err invalid_request
decode_loop (suc fuel) (code ∷ block) =
    decode_block code (take (code - 1) block) (drop (code - 1) block)
      (decode_loop fuel (drop (code - 1) block))

-- `encoded[:-1] if encoded.endswith(b"\x00") else encoded`
abbrev pub without_delimiter : Bytes → Bytes
without_delimiter [] = []
without_delimiter (b ∷ []) = if b == 0 then [] else b ∷ []
without_delimiter (b ∷ c ∷ cs) = b ∷ without_delimiter (c ∷ cs)

abbrev pub decode_nonempty : Bytes → Result Bytes
decode_nonempty [] = err invalid_request
decode_nonempty (b ∷ bs) = decode_loop (length (b ∷ bs)) (b ∷ bs)

-- cobs_decode
unfoldable pub cobs_decode : Bytes → Result Bytes
unfolding decode_loop
cobs_decode encoded = decode_nonempty (without_delimiter encoded)
