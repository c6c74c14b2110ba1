-- ===== src/Codec/Framing/Delimiter.antt =====
-- What `split_on_delimiter` makes of a stream.
use field_deck.Prelude.{
  ℕ, ◌+◌, ◌≤◌, Bool, true, List, [], ◌++◌, length, All, leb, ◌≡◌, refl, ap, arith, le→leb,
}
use field_deck.Prelude.Bytes.{Bytes}
use field_deck.Prelude.Number.{pos}
use field_deck.Common.Errors.{ok}
use field_deck.Codec.Framing.{
  Segmentation, less, cut_loop, uncut, as_segmentation, split_on_delimiter,
}
use field_deck.Codec.Framing.Chunks.{rejoined, HasNo, selected_chunks, Located}
use field_deck.Codec.Framing.Loop.{cut_loop-IsCut}

-- A segmentation that loses nothing: the chunks of the stream, each with the delimiter that ends it,
-- and the rest behind the last delimiter are the whole stream, none of them holds a delimiter, the
-- frames are the chunks, without the empty ones unless these are kept, each stands at its offset, and
-- the residue is as long as the rest.
pub record IsLossless (payload : Bytes) (delimiter : ℕ) (keep_empty : Bool) (s : Segmentation)
    : Type 0 where
  pub chunks : List Bytes
  pub tail : Bytes
  pub whole_is : payload ≡ rejoined delimiter chunks ++ tail
  pub no_delimiter : All (HasNo delimiter) chunks
  pub open_end : HasNo delimiter tail
  pub frames : s.frames ≡ selected_chunks keep_empty chunks
  pub located : Located payload s.frames s.offsets
  pub residue : s.residue_bytes ≡ pos (length tail)

-- Splitting any stream on a byte succeeds and loses nothing.
pub split_on_delimiter-IsLossless :
    (payload : Bytes) (delimiter : ℕ) (keep_empty : Bool)
    → delimiter ≤ 255
    → (s : Segmentation) × (split_on_delimiter payload delimiter keep_empty ≡ ok s)
      × IsLossless payload delimiter keep_empty s
unfolding split_on_delimiter
split_on_delimiter-IsLossless payload d k h =
    let c = cut_loop payload d k 0 payload uncut in
    let r = cut_loop-IsCut payload d k payload [] [] 0 uncut (record {
      all_of_it = refl;
      starts = refl;
      looks_at = refl;
      no_delimiter = tt;
      located = tt;
    }) in
    (
      as_segmentation payload c,
      rw (le→leb d 255 h) refl,
      record {
        chunks = r.chunks;
        tail = r.tail;
        whole_is = r.whole_is;
        no_delimiter = r.no_delimiter;
        open_end = r.open_end;
        frames = r.frames;
        located = r.located;
        residue = what_is_left (length payload) c.start (length r.tail) r.ends;
      },
    )
  where
    what_is_left : (total n m : ℕ) → n + m ≡ total → less total n ≡ pos m
    what_is_left total n m e =
        let within : leb n total ≡ true = le→leb n total (omega arith) in
        rw within (ap pos (omega arith))
