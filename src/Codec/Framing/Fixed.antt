-- ===== src/Codec/Framing/Fixed.antt =====
-- What `split_fixed` makes of a stream.
use field_deck.Prelude.{
  ℕ, zero, suc, ◌+◌, ◌-◌, ◌*◌, ◌≤◌, ◌<◌, min, true, false, List, [], ◌∷◌, ◌++◌, length,
  length-append, length-take, length-drop, take, drop, take-append-drop, drop-drop, All, leb,
  leb→le, le→leb, ◌==◌, ◌≡◌, refl, sym, ap, ◌∙◌, arith, inl, inr, Bool-cases, append_assoc,
}
use field_deck.Prelude.Bytes.{Bytes}
use field_deck.Prelude.Number.{pos}
use field_deck.Common.Errors.{ok}
use field_deck.Codec.Framing.{Segmentation, slice, less, fixed_frames, steps_from, split_fixed}

abbrev pub concatenated : List Bytes → Bytes
concatenated [] = []
concatenated (f ∷ fs) = f ++ concatenated fs

not_leb : (a b : ℕ) → leb a b ≡ false → b < a
not_leb a b h = ground arith

-- The frames of a stream from a place on: each of the size, one behind the other, and less than a
-- frame left.
record IsGrid (payload : Bytes) (size start : ℕ) (frames : List Bytes) : Type 0 where
  rest : Bytes
  whole_is : drop start payload ≡ concatenated frames ++ rest
  all_of_size : All (λ f. length f ≡ size) frames
  short_rest : length rest < size

fixed_frames-IsGrid :
    (fuel : ℕ) (payload : Bytes) (size start : ℕ)
    → 0 < size
    → length payload ≤ start + fuel
    → IsGrid payload size start (fixed_frames fuel payload size start)
fixed_frames-IsGrid zero payload size start p h = record {
  rest = drop start payload;
  whole_is = refl;
  all_of_size = tt;
  short_rest = omega (arith, length-drop start payload);
}
fixed_frames-IsGrid (suc fuel) payload size start p h =
    elim (Bool-cases (leb (start + size) (length payload))) [
      | inr t ↦ rw t (record {
        rest = drop start payload;
        whole_is = refl;
        all_of_size = tt;
        short_rest =
            omega (arith, length-drop start payload, not_leb (start + size) (length payload) t);
      })
      | inl t ↦
          let g = fixed_frames-IsGrid fuel payload size (start + size) p (omega arith) in
          let room : start + size - start ≡ size = omega arith in
          let piece : slice payload start (start + size) ≡ take size (drop start payload) =
            ap (λ n. take n (drop start payload)) room in
          let sized : length (slice payload start (start + size)) ≡ size = omega (
            arith,
            ap length piece,
            length-take size (drop start payload),
            length-drop start payload,
            leb→le (start + size) (length payload) t,
          ) in
          rw t (record {
            rest = g.rest;
            whole_is =
                sym (take-append-drop size (drop start payload))
                ∙ ap (λ z. z ++ drop size (drop start payload)) (sym piece)
                ∙ ap (λ z. slice payload start (start + size) ++ z)
                    (drop-drop start size payload ∙ g.whole_is)
                ∙ sym (
                    append_assoc (slice payload start (start + size))
                      (concatenated (fixed_frames fuel payload size (start + size))) g.rest);
            all_of_size = (sized, g.all_of_size);
            short_rest = g.short_rest;
          })
    ]

length-concatenated :
    (size : ℕ) (fs : List Bytes)
    → All (λ f. length f ≡ size) fs
    → length (concatenated fs) ≡ length fs * size
length-concatenated size [] h = grind arith
length-concatenated size (f ∷ fs) (e, h) =
    let more = length-concatenated size fs h in
    length-append f (concatenated fs)
    ∙ one_more (length f) (length (concatenated fs)) (length fs) e more
  where
    one_more : (a b n : ℕ) → a ≡ size → b ≡ n * size → a + b ≡ suc n * size
    one_more a b n p q = grind arith

-- A grid of frames: behind the offset stand frames of the size and less than one more, the k-th frame
-- begins k sizes behind the offset, and the residue counts the bytes before the offset and those
-- behind the last frame.
pub record IsGridOf (payload : Bytes) (size offset : ℕ) (s : Segmentation) : Type 0 where
  pub rest : Bytes
  pub whole_is : drop offset payload ≡ concatenated s.frames ++ rest
  pub all_of_size : All (λ f. length f ≡ size) s.frames
  pub short_rest : length rest < size
  pub offsets : s.offsets ≡ steps_from (length s.frames) size offset
  pub residue : s.residue_bytes ≡ pos (min offset (length payload) + length rest)

-- Cutting any stream into frames of a positive size from any offset succeeds, and takes as many
-- frames as there are.
pub split_fixed-IsGridOf :
    (payload : Bytes) (size offset : ℕ)
    → 0 < size
    → (s : Segmentation) × (split_fixed payload size offset ≡ ok s) × IsGridOf payload size offset s
unfolding split_fixed
split_fixed-IsGridOf payload size offset p =
    let g = fixed_frames-IsGrid (length payload) payload size offset p (omega arith) in
    let frames = fixed_frames (length payload) payload size offset in
    let positive : (size == 0) ≡ false = ground arith in
    (
      record {
        frames = frames;
        offsets = steps_from (length frames) size offset;
        residue_bytes = less (length payload) (length frames * size);
      },
      rw positive refl,
      record {
        rest = g.rest;
        whole_is = g.whole_is;
        all_of_size = g.all_of_size;
        short_rest = g.short_rest;
        offsets = refl;
        residue = left_over (length payload) (length frames * size) (length g.rest) (
            omega (
              arith,
              ap length g.whole_is,
              length-append (concatenated frames) g.rest,
              length-concatenated size frames g.all_of_size,
              length-drop offset payload,
            ));
      },
    )
  where
    left_over :
        (total covered r : ℕ)
        → total - offset ≡ covered + r
        → less total covered ≡ pos (min offset total + r)
    left_over total covered r e =
        let within : leb covered total ≡ true = le→leb covered total (omega arith) in
        rw within (ap pos (omega arith))
