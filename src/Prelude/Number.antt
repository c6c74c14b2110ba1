-- ===== src/Prelude/Number.antt =====
-- Floating-point readings: a finite number, as a whole multiple of a fixed step, or a value that is
-- no number. The order is Python's: every comparison with the latter is false.
use field_deck.Prelude.Tests.{ltb}
use Prim.Native.Nat.{ℕ, suc, ◌+◌}
use mathlib.Core.Bool.{Bool, true, false}
use mathlib.Core.Path.{◌≡◌}
use native.Mathlib.Omega.{arith}

-- `negsuc n` is -(n + 1).
pub data ℤ : Type 0 where
  pos : ℕ → ℤ
  negsuc : ℕ → ℤ

abbrev pos_part : ℤ → ℕ
pos_part (pos n) = n
pos_part (negsuc n) = 0

abbrev neg_part : ℤ → ℕ
neg_part (pos n) = 0
neg_part (negsuc n) = suc n

abbrev pub ltb_ℤ : ℤ → ℤ → Bool
ltb_ℤ a b = ltb (pos_part a + neg_part b) (pos_part b + neg_part a)

pub data Number : Type 0 where
  nan : Number
  num : ℤ → Number

-- `a > b`
abbrev pub above : Number → Number → Bool
above nan b = false
above (num a) nan = false
above (num a) (num b) = ltb_ℤ b a

abbrev pub is_number : Number → Bool
is_number nan = false
is_number (num z) = true

pub above_trans : (a b c : Number) → above a b ≡ true → above b c ≡ true → above a c ≡ true
above_trans nan b c h k = h
above_trans (num a) nan c h k = cc
above_trans (num a) (num b) nan h k = k
above_trans (num a) (num b) (num c) h k = ground arith

-- A number that is not above the middle is not above what the middle does not exceed.
pub above_cotrans :
    (a b c : Number)
    → is_number b ≡ true
    → above a b ≡ false
    → above b c ≡ false
    → above a c ≡ false
above_cotrans nan b c n h k = h
above_cotrans (num a) nan c n h k = cc
above_cotrans (num a) (num b) nan n h k = k
above_cotrans (num a) (num b) (num c) n h k = ground arith
