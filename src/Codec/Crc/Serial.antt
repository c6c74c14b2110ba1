-- ===== src/Codec/Crc/Serial.antt =====
-- The reflected CRC: the table-driven loop against a shift register that takes one bit at a time.
use Prim.Native.Nat.{bit_xor}
use native.Mathlib.Nat.{pow-le-pow_right}
use field_deck.Prelude.{
  ℕ, zero, suc, ◌+◌, ◌*◌, ◌/◌, ◌%◌, ◌^◌, ◌≤◌, ◌<◌, Bool, true, false, not, none, some, [], ◌∷◌, map,
  get_elem?, if◌then◌else◌, ltb, ◌≡◌, refl, sym, ap, subst, ◌∙◌, arith, All,
}
use field_deck.Prelude.Bytes.{Bytes}
use field_deck.Codec.Crc.{
  CrcModel, masked, reflect, reflect_loop, times, round_in, entry, count_from, table, entry_at,
  update_in, over_bytes, finished_with, reflect_if, compute, compute_in, compute_out,
  compute_bitwise,
}
use field_deck.Codec.Crc.Xor.{bit_xor-half, bit_xor-zero, bit_xor_lt}
use field_deck.Codec.Crc.Rounds.{feed, let_in, low, halved, times_split, times-feed}

-- Rounds keep a number within a width that the polynomial is within.
round_in_lt : (k p x : ℕ) → p < 2 ^ k → x < 2 ^ k → round_in p x < 2 ^ k
round_in_lt k p x h l = bit_xor_lt k (x / 2) (let_in p (x % 2)) (omega arith) (small (x % 2))
  where
    small : (d : ℕ) → let_in p d < 2 ^ k
    small d = ground arith

times_lt : (n k p x : ℕ) → p < 2 ^ k → x < 2 ^ k → times n (round_in p) x < 2 ^ k
times_lt zero k p x h l = l
times_lt (suc n) k p x h l = times_lt n k p (round_in p x) h (round_in_lt k p x h l)

reflect_loop_lt : (n j value out : ℕ) → out < 2 ^ j → reflect_loop n value out < 2 ^ (n + j)
reflect_loop_lt zero j value out h = subst (λ k. out < 2 ^ k) (plus_nothing j) h
  where
    plus_nothing : (a : ℕ) → a ≡ 0 + a
    plus_nothing a = omega arith
reflect_loop_lt (suc n) j value out h =
    subst (λ k. reflect_loop n (value / 2) (out * 2 + value % 2) < 2 ^ k) (shifted n j)
      (reflect_loop_lt n (suc j) (value / 2) (out * 2 + value % 2) (omega arith))
  where
    shifted : (a b : ℕ) → a + suc b ≡ suc a + b
    shifted a b = omega arith

reflect_lt : (value width : ℕ) → reflect value width < 2 ^ width
reflect_lt value width =
    subst (λ k. reflect value width < 2 ^ k) (padded width)
      (reflect_loop_lt width 0 value 0 (omega arith))
  where
    padded : (a : ℕ) → a + 0 ≡ a
    padded a = omega arith

get_elem-count_from :
    (f : ℕ → ℕ) (n k i : ℕ) → i < n → get_elem? (map f (count_from k n)) i ≡ some (f (k + i))
get_elem-count_from f zero k i h = absurd (omega arith)
get_elem-count_from f (suc n) k zero h = ap (λ x. some (f x)) (here k)
  where
    here : (j : ℕ) → j ≡ j + 0
    here j = omega arith
get_elem-count_from f (suc n) k (suc i) h =
    get_elem-count_from f n (k + 1) i (omega arith) ∙ ap (λ x. some (f x)) (there k i)
  where
    there : (a b : ℕ) → a + 1 + b ≡ a + suc b
    there a b = omega arith

entry_at-table :
    (poly width i : ℕ) (refin : Bool)
    → i < 256
    → entry_at (table poly width refin) i ≡ entry poly width refin i
entry_at-table poly width i refin h =
    ap (λ o. elim o [ none ↦ 0 | some x ↦ x ])
      (get_elem-count_from (entry poly width refin) 256 0 i h)
    ∙ ap (entry poly width refin) (plain i)
  where
    plain : (j : ℕ) → 0 + j ≡ j
    plain j = omega arith

halved-bit_xor : (n a b : ℕ) → halved n (bit_xor a b) ≡ bit_xor (halved n a) (halved n b)
halved-bit_xor zero a b = refl
halved-bit_xor (suc n) a b = ap (halved n) (bit_xor-half a b) ∙ halved-bit_xor n (a / 2) (b / 2)

masked_small : (width x : ℕ) → x < 2 ^ width → masked width x ≡ x
masked_small width x h = remainder (2 ^ width) h
  where
    remainder : (m : ℕ) → x < m → x % m ≡ x
    remainder m l = grind arith

-- An entry of the table needs no mask where the width is that of a byte or more.
entry_rounds :
    (poly width i : ℕ)
    → 8 ≤ width
    → i < 256
    → entry poly width true i ≡ times 8 (round_in (reflect poly width)) i
entry_rounds poly width i w h = masked_small width _ (
    times_lt 8 width (reflect poly width) i (reflect_lt poly width)
      (omega (arith, pow-le-pow_right {n = 2} (omega arith) w)))

-- The table-driven update takes a byte as the shift register takes its bits.
update_in-feed :
    (poly width value byte : ℕ)
    → 8 ≤ width
    → byte < 256
    → update_in (table poly width true) value byte ≡ feed (reflect poly width) 8 byte value
update_in-feed poly width value byte w b =
    ap (λ e. bit_xor e (value / 256))
      (entry_at-table poly width (bit_xor value byte % 256) true (omega arith)
        ∙ entry_rounds poly width (bit_xor value byte % 256) w (omega arith))
    ∙ ap (bit_xor (times 8 rounds (bit_xor value byte % 256))) rest
    ∙ ap (λ r. bit_xor (times 8 rounds r) (halved 8 (bit_xor value byte)))
        (first_digits (bit_xor value byte))
    ∙ sym (times_split 8 (reflect poly width) (bit_xor value byte))
    ∙ times-feed 8 (reflect poly width) byte value
    ∙ ap (bit_xor (feed (reflect poly width) 8 byte value)) (nothing_left byte b)
    ∙ bit_xor-zero (feed (reflect poly width) 8 byte value)
  where
    rounds : ℕ → ℕ
    rounds = round_in (reflect poly width)

    nothing_left : (x : ℕ) → x < 256 → halved 8 x ≡ 0
    nothing_left x h = omega arith

    first_digits : (x : ℕ) → x % 256 ≡ low 8 x
    first_digits x = omega arith

    shifted : (x : ℕ) → x / 256 ≡ halved 8 x
    shifted x = omega arith

    rest : value / 256 ≡ halved 8 (bit_xor value byte)
    rest =
        shifted value
        ∙ sym (bit_xor-zero (halved 8 value))
        ∙ ap (bit_xor (halved 8 value)) (sym (nothing_left byte b))
        ∙ sym (halved-bit_xor 8 value byte)

-- Bytes are numbers below 256.
abbrev pub AreBytes : Bytes → Type 0
AreBytes payload = All (λ b. b < 256) payload

over_bytes-feed :
    (poly width value : ℕ) (payload : Bytes)
    → 8 ≤ width
    → AreBytes payload
    → over_bytes (update_in (table poly width true)) value payload
      ≡ over_bytes (λ v b. feed (reflect poly width) 8 b v) value payload
over_bytes-feed poly width value [] w a = refl
over_bytes-feed poly width value (b ∷ payload) w (h, a) =
    over_bytes-feed poly width (update_in (table poly width true) value b) payload w a
    ∙ ap (λ v. over_bytes (λ v' c. feed (reflect poly width) 8 c v') v payload)
        (update_in-feed poly width value b w h)

-- The CRC of a model that takes the lowest bit of a byte first, by a register that shifts one bit of
-- the message at a time.
abbrev pub serial_crc : CrcModel → Bytes → ℕ
serial_crc m payload = finished_with m (
    reflect_if (not m.refout)
      (masked m.width
        (over_bytes (λ v b. feed (reflect m.poly m.width) 8 b v) (reflect m.init m.width) payload))
      m.width)

-- For every reflected model of a byte's width or more, whatever its other parameters, the
-- table-driven computation of any bytes is what the register that shifts one bit at a time computes.
pub compute-serial_crc :
    (m : CrcModel) (payload : Bytes)
    → 8 ≤ m.width
    → m.refin ≡ true
    → AreBytes payload
    → compute m payload ≡ serial_crc m payload
unfolding compute
compute-serial_crc m payload w r a =
    let wide : ltb m.width 8 ≡ false = ground arith in
    ap (λ c. finished_with m (if c then compute_bitwise m payload else by_refin m.refin)) wide
    ∙ ap (λ c. finished_with m (by_refin c)) r
    ∙ ap (λ v. finished_with m (reflect_if (not m.refout) (masked m.width v) m.width))
        (over_bytes-feed m.poly m.width (reflect m.init m.width) payload w a)
  where
    by_refin : Bool → ℕ
    by_refin c = if c then compute_in m payload else compute_out m payload
