-- ===== src/Codec/Framing.antt =====
-- fielddeck/analysis/framing.py: split_on_delimiter, split_fixed and split_on_header. The description
-- of a segmentation and the totals that it repeats are left out.
pub mod Chunks
pub mod Loop
pub mod Delimiter
pub mod Fixed
mod Tests
use field_deck.Prelude.{
  ℕ, zero, suc, ◌+◌, ◌-◌, ◌*◌, Bool, true, false, not, ◌||◌, Option, none, some, List, [], ◌∷◌,
  ◌++◌, length, take, drop, if◌then◌else◌, ltb, leb, ◌==◌,
}
use field_deck.Prelude.Bytes.{Bytes}
use field_deck.Prelude.Number.{ℤ, pos, negsuc}
use field_deck.Common.Errors.{Result, ok, err, ◌>>◌, require, invalid_request}

pub record Segmentation : Type 0 where
  pub frames : List Bytes
  pub offsets : List ℕ
  pub residue_bytes : ℤ

-- `data[start:end]`
abbrev pub slice : Bytes → ℕ → ℕ → Bytes
slice payload start end = take (end - start) (drop start payload)

-- `len(data) - n`, which may be negative.
abbrev pub less : ℕ → ℕ → ℤ
less total n = if leb n total then pos (total - n) else negsuc (n - total - 1)

abbrev pub is_filled : Bytes → Bool
is_filled [] = false
is_filled (b ∷ bs) = true

-- What the loop of `split_on_delimiter` changes.
pub record Cutting : Type 0 where
  pub start : ℕ
  pub frames : List Bytes
  pub offsets : List ℕ

-- The chunk before a delimiter, which stands at an index.
abbrev pub cut_at : Bytes → Bool → ℕ → Cutting → Cutting
cut_at payload keep_empty index c =
    if is_filled (slice payload c.start index) || keep_empty
    then record {
      start = index + 1;
      frames = c.frames ++ slice payload c.start index ∷ [];
      offsets = c.offsets ++ c.start ∷ [];
    }
    else record c { start = index + 1 }

-- The loop over the bytes from an index on.
abbrev pub cut_loop : Bytes → ℕ → Bool → ℕ → Bytes → Cutting → Cutting
cut_loop payload delimiter keep_empty index [] c = c
cut_loop payload delimiter keep_empty index (byte ∷ rest) c =
    let later = cut_loop payload delimiter keep_empty (index + 1) rest in
    if byte == delimiter then later (cut_at payload keep_empty index c) else later c

abbrev pub uncut : Cutting
uncut = record { start = 0; frames = []; offsets = [] }

abbrev pub as_segmentation : Bytes → Cutting → Segmentation
as_segmentation payload c = record {
  frames = c.frames;
  offsets = c.offsets;
  residue_bytes = less (length payload) c.start;
}

-- `split_on_delimiter`
unfoldable pub split_on_delimiter : Bytes → ℕ → Bool → Result Segmentation
split_on_delimiter payload delimiter keep_empty =
    require (leb delimiter 255) invalid_request
    >> ok (as_segmentation payload (cut_loop payload delimiter keep_empty 0 payload uncut))

-- The slices that `range(offset, len(data) - length + 1, length)` starts, on as much fuel as there
-- are bytes.
abbrev pub fixed_frames : ℕ → Bytes → ℕ → ℕ → List Bytes
fixed_frames zero payload size start = []
fixed_frames (suc fuel) payload size start =
    let later = fixed_frames fuel payload size (start + size) in
    if leb (start + size) (length payload) then slice payload start (start + size) ∷ later else []

abbrev pub steps_from : ℕ → ℕ → ℕ → List ℕ
steps_from zero size start = []
steps_from (suc n) size start = start ∷ steps_from n size (start + size)

-- `split_fixed`, of an offset that is not negative.
unfoldable pub split_fixed : Bytes → ℕ → ℕ → Result Segmentation
split_fixed payload size offset =
    let frames = fixed_frames (length payload) payload size offset in
    require (not (size == 0)) invalid_request
    >> ok (record {
      frames = frames;
      offsets = steps_from (length frames) size offset;
      residue_bytes = less (length payload) (length frames * size);
    })

abbrev has_prefix : Bytes → Bytes → Bool
has_prefix [] bs = true
has_prefix (h ∷ hs) [] = false
has_prefix (h ∷ hs) (b ∷ bs) = if h == b then has_prefix hs bs else false

-- The places of a header, each searched for behind the one before: the bytes to skip first, the
-- index of the byte that is looked at, and the bytes from there on.
abbrev header_starts : Bytes → ℕ → ℕ → Bytes → List ℕ
header_starts header skip index [] = []
header_starts header (suc skip) index (b ∷ bs) = header_starts header skip (index + 1) bs
header_starts header zero index (b ∷ bs) =
    let later : List ℕ =
      header_starts header (if has_prefix header (b ∷ bs) then length header - 1 else 0) (index + 1)
        bs in
    if has_prefix header (b ∷ bs) then index ∷ later else later

-- Where the frame that starts at a header ends.
abbrev frame_end : Option ℕ → ℕ → List ℕ → ℕ → ℕ
frame_end (some size) start later total = start + size
frame_end none start [] total = total
frame_end none start (next ∷ later) total = next

pub record HeaderCut : Type 0 where
  pub frames : List Bytes
  pub offsets : List ℕ
  pub consumed : ℕ

abbrev header_loop : Bytes → Option ℕ → List ℕ → HeaderCut → HeaderCut
header_loop payload size [] c = c
header_loop payload size (start ∷ later) c =
    let end : ℕ = frame_end size start later (length payload) in
    let rest = header_loop payload size later in
    if ltb (length payload) end
    then c
    else rest (record {
      frames = c.frames ++ slice payload start end ∷ [];
      offsets = c.offsets ++ start ∷ [];
      consumed = c.consumed + (end - start);
    })

abbrev pub by_header : Bytes → HeaderCut → Segmentation
by_header payload c = record {
  frames = c.frames;
  offsets = c.offsets;
  residue_bytes = less (length payload) c.consumed;
}

-- `split_on_header`, of a length that is not negative.
unfoldable pub split_on_header : Bytes → Bytes → Option ℕ → Result Segmentation
split_on_header payload header size =
    require (is_filled header) invalid_request
    >> ok (
        by_header payload (
          header_loop payload size (header_starts header 0 0 payload)
            (record { frames = []; offsets = []; consumed = 0 })))
