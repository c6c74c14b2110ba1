-- ===== src/Codec/Integers/RoundTrip.antt =====
-- The encoding and the decoding of one integer field.
use field_deck.Prelude.{
  ℕ, zero, suc, ◌+◌, ◌*◌, ◌/◌, ◌%◌, ◌^◌, ◌≤◌, ◌<◌, Bool, true, false, Option, none, some, List, [],
  ◌∷◌, ◌++◌, map, All, length, length-append, length-drop, take, drop, take-append, drop-append,
  drop-drop, append_assoc, leb, le→leb, ◌≡◌, refl, sym, ap, ◌∙◌, arith,
}
use field_deck.Prelude.Bytes.{Bytes}
use field_deck.Prelude.Number.{ℤ, pos, negsuc}
use field_deck.Common.Errors.{Result, ok, err, ◌>>◌}
use field_deck.Codec.Crc.Candidates.{ByteOrder, big, little, ordered, little_bytes, big_bytes}
use field_deck.Codec.Framing.{fixed_frames, slice}
use field_deck.Codec.Framing.Fixed.{concatenated}
use field_deck.Codec.Integers.{
  int_widths, check_width, as_unsigned, encoded, int_to_bytes, from_little, from_big,
  unsigned_value, as_signed, from_bytes, bytes_to_ints,
}

length-little_bytes : (n v : ℕ) → length (little_bytes n v) ≡ n
length-little_bytes zero v = refl
length-little_bytes (suc n) v = ap suc (length-little_bytes n (v / 256))

length-big_bytes : (n v : ℕ) → length (big_bytes n v) ≡ n
length-big_bytes zero v = refl
length-big_bytes (suc n) v =
    length-append (big_bytes n (v / 256)) (v % 256 ∷ [])
    ∙ ap (λ k. k + 1) (length-big_bytes n (v / 256))
    ∙ omega arith

length-ordered : (order : ByteOrder) (n v : ℕ) → length (ordered order n v) ≡ n
length-ordered big n v = length-big_bytes n v
length-ordered little n v = length-little_bytes n v

from_little-little_bytes : (n v : ℕ) → v < 256 ^ n → from_little (little_bytes n v) ≡ v
from_little-little_bytes zero v h = omega arith
from_little-little_bytes (suc n) v h =
    ap (λ k. k * 256 + v % 256) (from_little-little_bytes n (v / 256) (omega arith)) ∙ omega arith

from_big-append :
    (acc : ℕ) (bs : Bytes) (b : ℕ) → from_big acc (bs ++ b ∷ []) ≡ from_big acc bs * 256 + b
from_big-append acc [] b = refl
from_big-append acc (x ∷ bs) b = from_big-append (acc * 256 + x) bs b

from_big-big_bytes : (n v : ℕ) → v < 256 ^ n → from_big 0 (big_bytes n v) ≡ v
from_big-big_bytes zero v h = omega arith
from_big-big_bytes (suc n) v h =
    from_big-append 0 (big_bytes n (v / 256)) (v % 256)
    ∙ ap (λ k. k * 256 + v % 256) (from_big-big_bytes n (v / 256) (omega arith))
    ∙ omega arith

unsigned_value-ordered :
    (order : ByteOrder) (n v : ℕ) → v < 256 ^ n → unsigned_value order (ordered order n v) ≡ v
unsigned_value-ordered big n v h = from_big-big_bytes n v h
unsigned_value-ordered little n v h = from_little-little_bytes n v h

as_signed-as_unsigned :
    (signed : Bool) (size : ℕ) (value : ℤ) (v : ℕ)
    → as_unsigned signed size value ≡ some v
    → (v < 256 ^ size) × (as_signed signed size v ≡ value)
as_signed-as_unsigned false size (pos n) v h = ground arith
as_signed-as_unsigned false size (negsuc n) v h = cc
as_signed-as_unsigned true size (pos n) v h = ground arith
as_signed-as_unsigned true size (negsuc n) v h = ground arith

length_first :
    (f : Bytes) (fs : List Bytes) (rest : Bytes)
    → length (concatenated (f ∷ fs) ++ rest) ≡ length f + length (concatenated fs ++ rest)
length_first f fs rest =
    ap length (append_assoc f (concatenated fs) rest) ∙ length-append f (concatenated fs ++ rest)

-- Fields of the size, laid one behind the other, are the frames of the stream from there on.
fixed_frames-concatenated :
    (fuel : ℕ) (payload : Bytes) (size start : ℕ) (fields : List Bytes) (rest : Bytes)
    → 0 < size
    → All (λ f. length f ≡ size) fields
    → length rest < size
    → drop start payload ≡ concatenated fields ++ rest
    → length (concatenated fields ++ rest) ≤ fuel
    → fixed_frames fuel payload size start ≡ fields
fixed_frames-concatenated zero payload size start [] rest p a r e h = refl
fixed_frames-concatenated zero payload size start (f ∷ fs) rest p (a, more_are) r e h =
    absurd (omega (arith, length_first f fs rest))
fixed_frames-concatenated (suc fuel) payload size start [] rest p a r e h =
    let short : leb (start + size) (length payload) ≡ false =
      grind (arith, length-drop start payload, ap length e) in
    rw short refl
fixed_frames-concatenated (suc fuel) payload size start (f ∷ fs) rest p (a, more_are) r e h =
    let whole = e ∙ append_assoc f (concatenated fs) rest in
    let room : leb (start + size) (length payload) ≡ true =
      le→leb (start + size) (length payload)
        (omega (arith, length-drop start payload, ap length e, length_first f fs rest)) in
    let next : drop (start + size) payload ≡ concatenated fs ++ rest =
      sym (drop-drop start size payload)
      ∙ ap (drop size) whole
      ∙ ap (λ n. drop n (f ++ (concatenated fs ++ rest))) (sym a)
      ∙ drop-append f (concatenated fs ++ rest) in
    let first : slice payload start (start + size) ≡ f =
      ap (λ n. take n (drop start payload)) (omega arith)
      ∙ ap (take size) whole
      ∙ ap (λ n. take n (f ++ (concatenated fs ++ rest))) (sym a)
      ∙ take-append f (concatenated fs ++ rest) in
    let later =
      fixed_frames-concatenated fuel payload size (start + size) fs rest p more_are r next
        (omega (arith, length_first f fs rest)) in
    rw room (rw first (rw later refl))

encoded-eq-ok :
    (order : ByteOrder) (size : ℕ) (number : Option ℕ) (bs : Bytes)
    → encoded order size number ≡ ok bs
    → (v : ℕ) × (number ≡ some v) × (ordered order size v ≡ bs)
encoded-eq-ok order size none bs h = cc
encoded-eq-ok order size (some v) bs h = (v, refl, cc)

then-eq-ok :
    {T : Type 0} (m : Result (Unit {0})) (k : Result T) {t : T} → (m >> k) ≡ ok t → k ≡ ok t
then-eq-ok (err code) k h = cc
then-eq-ok (ok tt) k h = h

-- What a field's encoding took, and how long it came out.
int_to_bytes-eq-ok :
    (value : ℤ) (width : ℕ) (order : ByteOrder) (signed : Bool) (bs : Bytes)
    → int_to_bytes value width order signed ≡ ok bs
    → (length bs ≡ width / 8) × (from_bytes order signed bs ≡ value)
unfolding int_to_bytes
int_to_bytes-eq-ok value width order signed bs h =
    let size = width / 8 in
    let (v, e, r) = encoded-eq-ok order size (as_unsigned signed size value) bs (
      then-eq-ok (check_width width int_widths) (encoded order size (as_unsigned signed size value))
        h) in
    let fits = as_signed-as_unsigned signed size value v e in
    let sized : length bs ≡ size = ap length (sym r) ∙ length-ordered order size v in
    let read : unsigned_value order bs ≡ v =
      ap (unsigned_value order) (sym r) ∙ unsigned_value-ordered order size v fits.0 in
    (
      sized,
      ap (λ n. as_signed signed n (unsigned_value order bs)) sized
          ∙ ap (as_signed signed size) read
          ∙ fits.1,
    )

width_positive : (width : ℕ) → check_width width int_widths ≡ ok tt → 0 < width / 8
width_positive width h = ground arith

-- Each value's encoding, as a field of the width, is the field beside it.
abbrev pub AreFields : ℕ → ByteOrder → Bool → List ℤ → List Bytes → Type 0
AreFields width order signed [] [] = Unit
AreFields width order signed [] (f ∷ fs) = ⊥
AreFields width order signed (v ∷ vs) [] = ⊥
AreFields width order signed (v ∷ vs) (f ∷ fs) =
    (int_to_bytes v width order signed ≡ ok f) × AreFields width order signed vs fs

AreFields-read :
    (width : ℕ) (order : ByteOrder) (signed : Bool) (values : List ℤ) (fields : List Bytes)
    → AreFields width order signed values fields
    → All (λ f. length f ≡ width / 8) fields × (map (from_bytes order signed) fields ≡ values)
AreFields-read width order signed [] [] a = (tt, refl)
AreFields-read width order signed [] (f ∷ fs) a = absurd a
AreFields-read width order signed (v ∷ vs) [] a = absurd a
AreFields-read width order signed (v ∷ vs) (f ∷ fs) (a, more_are) =
    let read = int_to_bytes-eq-ok v width order signed f a in
    let more = AreFields-read width order signed vs fs more_are in
    ((read.0, more.0), rw read.1 (rw more.1 refl))

-- Values that were each encoded, as fields of one of the widths, in one byte order and signed or
-- not, are decoded again from the fields one behind the other, also where less than a field
-- follows them.
pub bytes_to_ints-int_to_bytes :
    (width : ℕ) (order : ByteOrder) (signed : Bool) (values : List ℤ) (fields : List Bytes)
    (rest : Bytes)
    → check_width width int_widths ≡ ok tt
    → AreFields width order signed values fields
    → length rest < width / 8
    → bytes_to_ints (concatenated fields ++ rest) width order signed ≡ ok values
unfolding bytes_to_ints
bytes_to_ints-int_to_bytes width order signed values fields rest c a r =
    let read = AreFields-read width order signed values fields a in
    let whole = concatenated fields ++ rest in
    let frames =
      fixed_frames-concatenated (length whole) whole (width / 8) 0 fields rest
        (width_positive width c) read.0 r refl (omega arith) in
    rw c (rw frames (ap ok read.1))
