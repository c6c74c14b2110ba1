-- ===== src/Codec/Cobs/RoundTrip.antt =====
-- Decoding undoes encoding, and an encoded block holds no zero.
use field_deck.Prelude.{
  ℕ, ◌+◌, ◌-◌, ◌≤◌, zero, suc, Bool, true, false, [], ◌∷◌, ◌++◌, ◌==◌, length, length-append,
  take-append, drop-append, append-nil, append_assoc, any, All, ◌≡◌, refl, ap, sym, subst, ◌∙◌,
  arith, Bool-cases, inl, inr,
}
use field_deck.Prelude.Bytes.{Bytes}
use field_deck.Common.Errors.{ok}
use field_deck.Codec.Cobs.{
  encode_from, cobs_encode, is_zero, separator, joined, decode_loop, without_delimiter,
  decode_nonempty, cobs_decode,
}

abbrev pub NoZero : Bytes → Type 0
NoZero = All (λ b. (b == 0) ≡ false)

NoZero-append : (xs ys : Bytes) → NoZero xs → NoZero ys → NoZero (xs ++ ys)
NoZero-append [] ys h k = k
NoZero-append (x ∷ xs) ys h k = (h.0, NoZero-append xs ys h.1 k)

any_zero : (xs : Bytes) → NoZero xs → any is_zero xs ≡ false
any_zero [] h = refl
any_zero (x ∷ xs) h = rw (h.0) (any_zero xs h.1)

module _ (block : Bytes) (needs : Bool) (byte : ℕ) (bs : Bytes) where
  at_zero :
      (byte == 0) ≡ true
      → encode_from block needs (byte ∷ bs) ≡ (length block + 1) ∷ (block ++ encode_from [] true bs)
  unfolding encode_from
  at_zero z = rw z

  at_full :
      (byte == 0) ≡ false
      → (length block == 0xFD) ≡ true
      → encode_from block needs (byte ∷ bs)
        ≡ 0xFF ∷ ((block ++ byte ∷ []) ++ encode_from [] false bs)
  unfolding encode_from
  at_full z f = rw (z, f)

  at_other :
      (byte == 0) ≡ false
      → (length block == 0xFD) ≡ false
      → encode_from block needs (byte ∷ bs) ≡ encode_from (block ++ byte ∷ []) needs bs
  unfolding encode_from
  at_other z f = rw (z, f)

-- The encoder's blocks hold no zero, so neither does what it emits.
encode_from-NoZero :
    (block : Bytes) (needs : Bool) (bs : Bytes) → NoZero block → NoZero (encode_from block needs bs)
encode_from-NoZero [] true [] h = unfold encode_from in (refl, tt)
encode_from-NoZero [] false [] h = unfold encode_from in tt
encode_from-NoZero (b ∷ block) needs [] h = unfold encode_from in (ground arith, h)
encode_from-NoZero block needs (byte ∷ bs) h =
    let grown : NoZero block → (byte == 0) ≡ false → NoZero (block ++ byte ∷ []) =
      (λ k z. NoZero-append block (byte ∷ []) k (z, tt)) in
    elim (Bool-cases (byte == 0)) [
      | inl z ↦ rw (at_zero block needs byte bs z) (
        ground arith,
        NoZero-append block (encode_from [] true bs) h (encode_from-NoZero [] true bs tt),
      )
      | inr z ↦ elim (Bool-cases (length block == 0xFD)) [
        | inl f ↦ rw (at_full block needs byte bs z f) (
          refl,
          NoZero-append (block ++ byte ∷ []) (encode_from [] false bs) (grown h z)
              (encode_from-NoZero [] false bs tt),
        )
        | inr f ↦
            rw (at_other block needs byte bs z f)
              (encode_from-NoZero (block ++ byte ∷ []) needs bs (grown h z))
      ]
    ]

-- A block with its code byte in front is taken off whole.
decode_step :
    (fuel : ℕ) (chunk rest : Bytes)
    → NoZero chunk
    → decode_loop (suc fuel) ((length chunk + 1) ∷ (chunk ++ rest))
      ≡ joined (chunk ++ separator (length chunk + 1) rest) (decode_loop fuel rest)
unfolding decode_loop
decode_step fuel chunk rest h =
    let code : length chunk + 1 - 1 ≡ length chunk = omega arith in
    let nonzero : (length chunk + 1 == 0) ≡ false = ground arith in
    let same : (length chunk == length chunk) ≡ true = ground arith in
    rw (code, take-append chunk rest, drop-append chunk rest, nonzero, same, any_zero chunk h)

-- An encoding that owes a final block is never empty.
encode_from_some : (block bs : Bytes) → (c : ℕ) × (r : Bytes) × (encode_from block true bs ≡ c ∷ r)
encode_from_some [] [] = unfold encode_from in (1, [], refl)
encode_from_some (b ∷ block) [] = unfold encode_from in (length (b ∷ block) + 1, b ∷ block, refl)
encode_from_some block (byte ∷ bs) = elim (Bool-cases (byte == 0)) [
  | inl z ↦ (length block + 1, block ++ encode_from [] true bs, at_zero block true byte bs z)
  | inr z ↦ elim (Bool-cases (length block == 0xFD)) [
    | inl f ↦
        (0xFF, (block ++ byte ∷ []) ++ encode_from [] false bs, at_full block true byte bs z f)
    | inr f ↦
        let ih = encode_from_some (block ++ byte ∷ []) bs in
        (ih.0, ih.1, at_other block true byte bs z f ∙ ih.2)
  ]
]

separator_zero :
    (code : ℕ) (bs : Bytes)
    → (code == 0xFF) ≡ false
    → separator code (encode_from [] true bs) ≡ 0 ∷ []
separator_zero code bs h = let some_rest = encode_from_some [] bs in rw (some_rest.2) (rw h)

separator_full : (rest : Bytes) → separator 0xFF rest ≡ []
separator_full [] = refl
separator_full (b ∷ bs) = refl

decode_loop-nil : (fuel : ℕ) → decode_loop fuel [] ≡ ok []
unfolding decode_loop
decode_loop-nil zero = refl
decode_loop-nil (suc fuel) = refl

-- The last block.
decode_final :
    (fuel : ℕ) (block : Bytes)
    → NoZero block
    → decode_loop (suc fuel) ((length block + 1) ∷ block) ≡ ok block
decode_final fuel block h =
    subst (λ z. decode_loop (suc fuel) ((length block + 1) ∷ z) ≡ ok block) (append-nil block)
      (decode_step fuel block [] h ∙ rw (decode_loop-nil fuel, append-nil block, append-nil block))

longer :
    (block : Bytes) (byte : ℕ)
    → length block ≤ 0xFD
    → (length block == 0xFD) ≡ false
    → length (block ++ byte ∷ []) ≤ 0xFD
longer block byte k f = ground (arith, length-append block (byte ∷ []))

-- A full block carries no separator.
full_block :
    (fuel : ℕ) (block rest : Bytes) (byte : ℕ)
    → NoZero block
    → (byte == 0) ≡ false
    → length block ≡ 0xFD
    → decode_loop (suc fuel) (0xFF ∷ ((block ++ byte ∷ []) ++ rest))
      ≡ joined (block ++ byte ∷ []) (decode_loop fuel rest)
full_block fuel block rest byte h z f =
    let chunk = block ++ byte ∷ [] in
    let code : length chunk + 1 ≡ 0xFF = omega (arith, length-append block (byte ∷ [])) in
    subst
      (λ c.
        decode_loop (suc fuel) (c ∷ (chunk ++ rest))
        ≡ joined (chunk ++ separator c rest) (decode_loop fuel rest))
      code (decode_step fuel chunk rest (NoZero-append block (byte ∷ []) h (z, tt)))
    ∙ ap (λ w. joined w (decode_loop fuel rest))
        (ap (λ w. chunk ++ w) (separator_full rest) ∙ append-nil chunk)

-- The loop of the decoder undoes the loop of the encoder, whatever the current block.
decode_loop-encode_from :
    (block : Bytes) (needs : Bool) (bs : Bytes) (fuel : ℕ)
    → NoZero block
    → length block ≤ 0xFD
    → length (encode_from block needs bs) ≤ fuel
    → decode_loop fuel (encode_from block needs bs) ≡ ok (block ++ bs)
decode_loop-encode_from [] false [] fuel h k le = unfold encode_from in decode_loop-nil fuel
decode_loop-encode_from [] true [] zero h k le = absurd (unfold encode_from in omega arith)
decode_loop-encode_from [] true [] (suc fuel) h k le = unfold encode_from in decode_final fuel [] tt
decode_loop-encode_from (b ∷ block) needs [] zero h k le =
    absurd (unfold encode_from in omega arith)
decode_loop-encode_from (b ∷ block) needs [] (suc fuel) h k le =
    unfold encode_from in
    decode_final fuel (b ∷ block) h ∙ ap (λ z. ok z) (sym (append-nil (b ∷ block)))
decode_loop-encode_from block needs (byte ∷ bs) zero h k le = elim (Bool-cases (byte == 0)) [
  | inl z ↦ absurd (let le' = (rw (at_zero block needs byte bs z) at le) in omega arith)
  | inr z ↦ elim (Bool-cases (length block == 0xFD)) [
    | inl f ↦ absurd (let le' = (rw (at_full block needs byte bs z f) at le) in omega arith)
    | inr f ↦ rw (at_other block needs byte bs z f) (
        decode_loop-encode_from (block ++ byte ∷ []) needs bs zero
          (NoZero-append block (byte ∷ []) h (z, tt)) (longer block byte k f)
          (rw (at_other block needs byte bs z f) at le)
        ∙ ap (λ w. ok w) (append_assoc block (byte ∷ []) bs))
  ]
]
decode_loop-encode_from block needs (byte ∷ bs) (suc fuel) h k le = elim (Bool-cases (byte == 0)) [
  | inl z ↦
      let le' = (rw (at_zero block needs byte bs z) at le) in
      let rest = encode_from [] true bs in
      rw (at_zero block needs byte bs z) (
        decode_step fuel block rest h
        ∙ ap (λ w. joined (block ++ w) (decode_loop fuel rest))
            (separator_zero (length block + 1) bs (ground arith))
        ∙ ap (joined (block ++ 0 ∷ [])) (
            decode_loop-encode_from [] true bs fuel tt (omega arith)
              (omega (arith, length-append block rest)))
        ∙ (let is_zero_byte : byte ≡ 0 = ground arith in
            rw is_zero_byte (ap (λ w. ok w) (append_assoc block (0 ∷ []) bs))))
  | inr z ↦ elim (Bool-cases (length block == 0xFD)) [
    | inl f ↦ rw (at_full block needs byte bs z f) (
        full_block fuel block (encode_from [] false bs) byte h z (ground arith)
        ∙ ap (joined (block ++ byte ∷ [])) (
            decode_loop-encode_from [] false bs fuel tt (omega arith) (
              let le' = (rw (at_full block needs byte bs z f) at le) in
              omega (arith, length-append (block ++ byte ∷ []) (encode_from [] false bs))))
        ∙ ap (λ w. ok w) (append_assoc block (byte ∷ []) bs))
    | inr f ↦ rw (at_other block needs byte bs z f) (
        decode_loop-encode_from (block ++ byte ∷ []) needs bs (suc fuel)
          (NoZero-append block (byte ∷ []) h (z, tt)) (longer block byte k f)
          (rw (at_other block needs byte bs z f) at le)
        ∙ ap (λ w. ok w) (append_assoc block (byte ∷ []) bs))
  ]
]

no_delimiter : (xs : Bytes) → NoZero xs → without_delimiter xs ≡ xs
no_delimiter [] h = refl
no_delimiter (b ∷ []) h = rw (h.0)
no_delimiter (b ∷ c ∷ cs) h = ap (λ w. b ∷ w) (no_delimiter (c ∷ cs) h.1)

one_delimiter : (xs : Bytes) → without_delimiter (xs ++ 0 ∷ []) ≡ xs
one_delimiter [] = refl
one_delimiter (b ∷ []) = refl
one_delimiter (b ∷ c ∷ cs) = ap (λ w. b ∷ w) (one_delimiter (c ∷ cs))

decoded : (bs : Bytes) → decode_nonempty (cobs_encode bs) ≡ ok bs
unfolding cobs_encode
decoded bs =
    let e = encode_from_some [] bs in
    subst (λ w. decode_nonempty w ≡ decode_loop (length w) w) (sym e.2) refl
    ∙ decode_loop-encode_from [] true bs (length (encode_from [] true bs)) tt (omega arith)
        (omega arith)

-- Any bytes, encoded and decoded, with or without the delimiter behind them, come back; and the
-- encoded block holds no zero byte, so the delimiter that frames it is the first zero.
pub cobs_decode-cobs_encode :
    (bs : Bytes)
    → (cobs_decode (cobs_encode bs) ≡ ok bs)
      × (cobs_decode (cobs_encode bs ++ 0 ∷ []) ≡ ok bs)
      × NoZero (cobs_encode bs)
unfolding cobs_decode
cobs_decode-cobs_encode bs =
    let clean : NoZero (cobs_encode bs) = unfold cobs_encode in encode_from-NoZero [] true bs tt in
    (
      ap decode_nonempty (no_delimiter (cobs_encode bs) clean) ∙ decoded bs,
      ap decode_nonempty (one_delimiter (cobs_encode bs)) ∙ decoded bs,
      clean,
    )
