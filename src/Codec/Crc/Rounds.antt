-- ===== src/Codec/Crc/Rounds.antt =====
-- The rounds of a reflected CRC table's inner loop: they are linear in exclusive or, and go by digits.
use Prim.Native.Nat.{bit_xor}
use field_deck.Prelude.{
  ℕ, zero, suc, ◌+◌, ◌*◌, ◌/◌, ◌%◌, ◌<◌, if◌then◌else◌, ◌==◌, ◌≡◌, refl, sym, ap, ◌∙◌, arith,
}
use field_deck.Codec.Crc.{times, round_in}
use field_deck.Codec.Crc.Xor.{
  bit_xor_step, bit_xor-half, bit_xor-parity, bit_xor-zero, zero-bit_xor, bit_xor_comm,
  bit_xor_assoc, bit_xor_self, bit_xor_exchange,
}

-- A shift register that takes the bits of a message in turn, the lowest of a byte first: a bit that
-- differs from the one shifted out lets the polynomial in.
abbrev pub feed : ℕ → ℕ → ℕ → ℕ → ℕ
feed poly_r zero bits value = value
feed poly_r (suc n) bits value =
    feed poly_r n (bits / 2) (bit_xor (value / 2) (if (value + bits) % 2 == 1 then poly_r else 0))

-- What a round lets in.
abbrev pub let_in : ℕ → ℕ → ℕ
let_in poly_r digit = if digit == 1 then poly_r else 0

let_in_xor :
    (p a b : ℕ) → a < 2 → b < 2 → let_in p ((a + b) % 2) ≡ bit_xor (let_in p a) (let_in p b)
let_in_xor p zero zero h k = refl
let_in_xor p zero (suc zero) h k = sym (zero-bit_xor p)
let_in_xor p (suc zero) zero h k = sym (bit_xor-zero p)
let_in_xor p (suc zero) (suc zero) h k = sym (bit_xor_self p)
let_in_xor p a (suc (suc b)) h k = absurd (omega arith)
let_in_xor p (suc (suc a)) b h k = absurd (omega arith)

-- A round is linear.
round_in-bit_xor : (p a b : ℕ) → round_in p (bit_xor a b) ≡ bit_xor (round_in p a) (round_in p b)
round_in-bit_xor p a b =
    ap (λ x. bit_xor x (let_in p (bit_xor a b % 2))) (bit_xor-half a b)
    ∙ ap (λ d. bit_xor (bit_xor (a / 2) (b / 2)) (let_in p d)) (bit_xor-parity a b)
    ∙ ap (bit_xor (bit_xor (a / 2) (b / 2)))
        (let_in_xor p (a % 2) (b % 2) (omega arith) (omega arith))
    ∙ bit_xor_exchange (a / 2) (b / 2) (let_in p (a % 2)) (let_in p (b % 2))

times-bit_xor :
    (n p a b : ℕ)
    → times n (round_in p) (bit_xor a b) ≡ bit_xor (times n (round_in p) a) (times n (round_in p) b)
times-bit_xor zero p a b = refl
times-bit_xor (suc n) p a b =
    ap (times n (round_in p)) (round_in-bit_xor p a b)
    ∙ times-bit_xor n p (round_in p a) (round_in p b)

-- A round on an even number only shifts.
round_in_even : (p q : ℕ) → round_in p (q * 2) ≡ q
round_in_even p q =
    ap (λ d. bit_xor (q * 2 / 2) (let_in p d)) (the_digit q) ∙ bit_xor-zero (q * 2 / 2) ∙ the_half q
  where
    the_digit : (r : ℕ) → r * 2 % 2 ≡ 0
    the_digit r = omega arith

    the_half : (r : ℕ) → r * 2 / 2 ≡ r
    the_half r = omega arith

-- The first n digits of a number, what is above them, and n more digits of 0 below it.
abbrev pub low : ℕ → ℕ → ℕ
low zero x = 0
low (suc n) x = low n (x / 2) * 2 + x % 2

abbrev pub halved : ℕ → ℕ → ℕ
halved zero x = x
halved (suc n) x = halved n (x / 2)

abbrev pub doubled : ℕ → ℕ → ℕ
doubled zero x = x
doubled (suc n) x = doubled n x * 2

split_digits : (n x : ℕ) → bit_xor (low n x) (doubled n (halved n x)) ≡ x
split_digits zero x = zero-bit_xor x
split_digits (suc n) x =
    bit_xor_step (low (suc n) x) (doubled (suc n) (halved (suc n) x))
    ∙ ap (λ y. bit_xor y (doubled n (halved n (x / 2)) * 2 / 2) * 2 + digit)
        (half_of (low n (x / 2)) (x % 2) (omega arith))
    ∙ ap (λ y. bit_xor (low n (x / 2)) y * 2 + digit) (half_of_even (doubled n (halved n (x / 2))))
    ∙ omega (arith, split_digits n (x / 2))
  where
    digit : ℕ
    digit = ((low n (x / 2) * 2 + x % 2) % 2 + doubled n (halved n (x / 2)) * 2 % 2) % 2

    half_of : (y d : ℕ) → d < 2 → (y * 2 + d) / 2 ≡ y
    half_of y d h = omega arith

    half_of_even : (y : ℕ) → y * 2 / 2 ≡ y
    half_of_even y = omega arith

times_doubled : (n p q : ℕ) → times n (round_in p) (doubled n q) ≡ q
times_doubled zero p q = refl
times_doubled (suc n) p q =
    ap (times n (round_in p)) (round_in_even p (doubled n q)) ∙ times_doubled n p q

-- Rounds on a number are rounds on its first digits, with the others shifted down to them.
pub times_split :
    (n p x : ℕ) → times n (round_in p) x ≡ bit_xor (times n (round_in p) (low n x)) (halved n x)
times_split n p x =
    ap (times n (round_in p)) (sym (split_digits n x))
    ∙ times-bit_xor n p (low n x) (doubled n (halved n x))
    ∙ ap (bit_xor (times n (round_in p) (low n x))) (times_doubled n p (halved n x))

-- One round on a register and a number that is put into it at once, against one bit of it.
round_in_fed :
    (p value bits : ℕ)
    → round_in p (bit_xor value bits)
      ≡ bit_xor (bit_xor (value / 2) (let_in p ((value + bits) % 2))) (bits / 2)
round_in_fed p value bits =
    ap (λ x. bit_xor x (let_in p (bit_xor value bits % 2))) (bit_xor-half value bits)
    ∙ ap (λ d. bit_xor (bit_xor (value / 2) (bits / 2)) (let_in p d)) same_digit
    ∙ bit_xor_assoc (value / 2) (bits / 2) (let_in p ((value + bits) % 2))
    ∙ ap (bit_xor (value / 2)) (bit_xor_comm (bits / 2) (let_in p ((value + bits) % 2)))
    ∙ sym (bit_xor_assoc (value / 2) (let_in p ((value + bits) % 2)) (bits / 2))
  where
    same_digit : bit_xor value bits % 2 ≡ (value + bits) % 2
    same_digit = omega (arith, bit_xor-parity value bits)

-- Rounds on a register and on bits that are put into it, at once or one after another.
pub times-feed :
    (n p bits value : ℕ)
    → times n (round_in p) (bit_xor value bits) ≡ bit_xor (feed p n bits value) (halved n bits)
times-feed zero p bits value = refl
times-feed (suc n) p bits value =
    ap (times n (round_in p)) (round_in_fed p value bits)
    ∙ times-feed n p (bits / 2) (bit_xor (value / 2) (let_in p ((value + bits) % 2)))
