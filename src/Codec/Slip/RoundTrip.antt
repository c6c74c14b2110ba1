-- ===== src/Codec/Slip/RoundTrip.antt =====
-- Decoding undoes encoding.
use field_deck.Prelude.{
  ℕ, Bool, true, false, [], ◌∷◌, ◌++◌, ◌==◌, All, ◌≡◌, refl, ap, ◌∙◌, arith, Bool-cases, inl, inr,
}
use field_deck.Prelude.Bytes.{Bytes}
use field_deck.Common.Errors.{ok}
use field_deck.Codec.Slip.{
  slip_end, slip_esc, escaped, escape, slip_encode, strip_left, trim, prepend, strip_right,
  unescape, slip_decode,
}

abbrev NoEnd : Bytes → Type 0
NoEnd = All (λ b. (b == slip_end) ≡ false)

escape-NoEnd : (bs : Bytes) → NoEnd (escape bs)
escape-NoEnd [] = tt
escape-NoEnd (b ∷ bs) = ground (arith, escape-NoEnd bs)

strip_right-NoEnd : (xs : Bytes) → NoEnd xs → strip_right (xs ++ slip_end ∷ []) ≡ xs
strip_right-NoEnd [] h = refl
strip_right-NoEnd (x ∷ xs) h = ap (trim x) (strip_right-NoEnd xs h.1) ∙ trimmed x xs h.0
  where
    trimmed : (y : ℕ) (ys : Bytes) → (y == slip_end) ≡ false → trim y ys ≡ y ∷ ys
    trimmed y [] k = rw k
    trimmed y (z ∷ zs) k = refl

-- Between its END bytes an escaped packet is left alone by the strip.
strip-NoEnd : (xs : Bytes) → NoEnd xs → strip_right (strip_left (xs ++ slip_end ∷ [])) ≡ xs
strip-NoEnd [] h = refl
strip-NoEnd (x ∷ xs) h =
    ap strip_right (stop x (xs ++ slip_end ∷ []) h.0) ∙ strip_right-NoEnd (x ∷ xs) h
  where
    stop : (y : ℕ) (ys : Bytes) → (y == slip_end) ≡ false → strip_left (y ∷ ys) ≡ y ∷ ys
    stop y ys k = ground arith

unescape_plain :
    (b : ℕ) (ys : Bytes)
    → (b == slip_esc) ≡ false
    → (b == slip_end) ≡ false
    → unescape (b ∷ ys) ≡ prepend b (unescape ys)
unfolding unescape
unescape_plain b [] h k = rw (h, k)
unescape_plain b (c ∷ cs) h k = ground arith

unescape-escape : (bs : Bytes) → unescape (escape bs) ≡ ok bs
unfolding unescape
unescape-escape [] = refl
unescape-escape (b ∷ bs) =
    let ih = unescape-escape bs in
    elim (Bool-cases (b == slip_end)) [
      | inl is_end ↦ ground (arith, ih)
      | inr no_end ↦ elim (Bool-cases (b == slip_esc)) [
        | inl is_esc ↦ ground (arith, ih)
        | inr no_esc ↦
            let one : escaped b ≡ b ∷ [] = ground arith in
            ap (λ e. unescape (e ++ escape bs)) one
            ∙ unescape_plain b (escape bs) no_esc no_end
            ∙ ap (prepend b) ih
      ]
    ]

-- A packet of any bytes, escaped and framed with or without the leading END, decodes to itself.
pub slip_decode-slip_encode :
    (leading_end : Bool) (bs : Bytes) → slip_decode (slip_encode leading_end bs) ≡ ok bs
unfolding slip_decode slip_encode
slip_decode-slip_encode true bs =
    ap unescape (strip-NoEnd (escape bs) (escape-NoEnd bs)) ∙ unescape-escape bs
slip_decode-slip_encode false bs =
    ap unescape (strip-NoEnd (escape bs) (escape-NoEnd bs)) ∙ unescape-escape bs
