-- ===== src/Codec/Framing/Loop.antt =====
-- The loop of split_on_delimiter and what it cuts.
use field_deck.Prelude.{
  ℕ, ◌+◌, ◌-◌, Bool, true, false, ◌||◌, List, [], ◌∷◌, ◌++◌, length, length-append, take, drop,
  take-append, drop-append, All, if◌then◌else◌, ◌==◌, ◌≡◌, refl, sym, ap, ◌∙◌, subst, arith, inl,
  inr, Bool-cases, append_assoc, append-nil,
}
use field_deck.Prelude.Bytes.{Bytes}
use field_deck.Codec.Framing.{slice, is_filled, Cutting, cut_at, cut_loop}
use field_deck.Codec.Framing.Chunks.{
  rejoined, HasNo, selected_chunks, Located, Located-append, HasNo-append,
}

-- What is left to cut, the whole of it from the start of the chunk that is open, and what the loop
-- makes of it.
pub record IsCut (payload : Bytes) (delimiter : ℕ) (keep_empty : Bool) (whole : Bytes)
    (before after : Cutting) : Type 0 where
  pub chunks : List Bytes
  pub tail : Bytes
  pub whole_is : whole ≡ rejoined delimiter chunks ++ tail
  pub no_delimiter : All (HasNo delimiter) chunks
  pub open_end : HasNo delimiter tail
  pub frames : after.frames ≡ before.frames ++ selected_chunks keep_empty chunks
  pub located : Located payload after.frames after.offsets
  pub ends : after.start + length tail ≡ length payload

open_chunk :
    (pre cur rest : Bytes)
    → slice (pre ++ (cur ++ rest)) (length pre) (length pre + length cur) ≡ cur
open_chunk pre cur rest =
    let room : length pre + length cur - length pre ≡ length cur = omega arith in
    ap (λ n. take n (drop (length pre) (pre ++ (cur ++ rest)))) room
    ∙ ap (take (length cur)) (drop-append pre (cur ++ rest))
    ∙ take-append cur rest

-- The chunk that a delimiter ends becomes a frame unless it is empty and such are dropped.
abbrev cut_chunk : Bytes → Bool → ℕ → Cutting → Cutting
cut_chunk cur keep_empty index c =
    if is_filled cur || keep_empty
    then record {
      start = index + 1;
      frames = c.frames ++ cur ∷ [];
      offsets = c.offsets ++ c.start ∷ [];
    }
    else record c { start = index + 1 }

selected_one :
    (k : Bool) (cur : Bytes) (cs : List Bytes)
    → selected_chunks k (cur ∷ cs)
      ≡ (if is_filled cur || k then cur ∷ selected_chunks k cs else selected_chunks k cs)
selected_one true [] cs = refl
selected_one true (b ∷ bs) cs = refl
selected_one false [] cs = refl
selected_one false (b ∷ bs) cs = refl

-- The state of the loop at a place of the stream: what is before the open chunk, and that chunk.
pub record IsAt (payload : Bytes) (delimiter : ℕ) (pre cur rest : Bytes) (index : ℕ) (c : Cutting)
    : Type 0 where
  pub all_of_it : payload ≡ pre ++ (cur ++ rest)
  pub starts : c.start ≡ length pre
  pub looks_at : index ≡ length pre + length cur
  pub no_delimiter : HasNo delimiter cur
  pub located : Located payload c.frames c.offsets

slice_open :
    (payload : Bytes) (d : ℕ) (pre cur rest : Bytes) (index : ℕ) (c : Cutting)
    → IsAt payload d pre cur rest index c
    → slice payload c.start index ≡ cur
slice_open payload d pre cur rest index c a =
    ap (λ z. slice z c.start index) a.all_of_it
    ∙ ap (λ n. slice (pre ++ (cur ++ rest)) n index) a.starts
    ∙ ap (slice (pre ++ (cur ++ rest)) (length pre)) a.looks_at
    ∙ open_chunk pre cur rest

-- After a delimiter an empty chunk is open.
cut_chunk-IsAt :
    (payload : Bytes) (d : ℕ) (k : Bool) (pre cur rest : Bytes) (b index : ℕ) (c : Cutting)
    → IsAt payload d pre cur (b ∷ rest) index c
    → IsAt payload d (pre ++ (cur ++ b ∷ [])) [] rest (index + 1) (cut_chunk cur k index c)
cut_chunk-IsAt payload d k pre cur rest b index c a = chosen (is_filled cur || k)
  where
    grown : index + 1 ≡ length (pre ++ (cur ++ b ∷ []))
    grown = omega (arith, a.looks_at, length-append pre (cur ++ b ∷ []), length-append cur (b ∷ []))

    split_again : payload ≡ (pre ++ (cur ++ b ∷ [])) ++ rest
    split_again =
        a.all_of_it
        ∙ ap (λ z. pre ++ z) (sym (append_assoc cur (b ∷ []) rest))
        ∙ sym (append_assoc pre (cur ++ b ∷ []) rest)

    found : take (length cur) (drop c.start payload) ≡ cur
    found =
        let size : length cur ≡ index - c.start = omega (arith, a.looks_at, a.starts) in
        ap (λ n. take n (drop c.start payload)) size
        ∙ slice_open payload d pre cur (b ∷ rest) index c a

    chosen :
        (t : Bool)
        → IsAt payload d (pre ++ (cur ++ b ∷ [])) [] rest (index + 1) (
            if t
            then record {
              start = index + 1;
              frames = c.frames ++ cur ∷ [];
              offsets = c.offsets ++ c.start ∷ [];
            }
            else record c { start = index + 1 })
    chosen true = record {
      all_of_it = split_again;
      starts = grown;
      looks_at = omega (arith, grown);
      no_delimiter = tt;
      located = Located-append payload cur c.start c.frames c.offsets a.located found;
    }
    chosen false = record {
      all_of_it = split_again;
      starts = grown;
      looks_at = omega (arith, grown);
      no_delimiter = tt;
      located = a.located;
    }

cut_chunk-IsCut :
    (payload : Bytes) (d : ℕ) (k : Bool) (cur rest : Bytes) (b index : ℕ) (c after : Cutting)
    → b ≡ d
    → HasNo d cur
    → IsCut payload d k rest (cut_chunk cur k index c) after
    → IsCut payload d k (cur ++ b ∷ rest) c after
cut_chunk-IsCut payload d k cur rest b index c after is n r = record {
  chunks = cur ∷ r.chunks;
  tail = r.tail;
  whole_is =
      ap (λ z. cur ++ z ∷ rest) is
      ∙ sym (append_assoc cur (d ∷ []) rest)
      ∙ ap (λ z. (cur ++ d ∷ []) ++ z) r.whole_is
      ∙ sym (append_assoc (cur ++ d ∷ []) (rejoined d r.chunks) r.tail);
  no_delimiter = (n, r.no_delimiter);
  open_end = r.open_end;
  frames =
      r.frames
      ∙ moved (is_filled cur || k)
      ∙ ap (λ z. c.frames ++ z) (sym (selected_one k cur r.chunks));
  located = r.located;
  ends = r.ends;
}
  where
    moved :
        (t : Bool)
        → (if t
              then record {
                start = index + 1;
                frames = c.frames ++ cur ∷ [];
                offsets = c.offsets ++ c.start ∷ [];
              }
              else record c { start = index + 1 }).frames
            ++ selected_chunks k r.chunks
          ≡ c.frames ++ (if t then cur ∷ selected_chunks k r.chunks else selected_chunks k r.chunks)
    moved true = append_assoc c.frames (cur ∷ []) (selected_chunks k r.chunks)
    moved false = refl

no_chunks : (k : Bool) → selected_chunks k [] ≡ []
no_chunks true = refl
no_chunks false = refl

pub cut_loop-IsCut :
    (payload : Bytes) (d : ℕ) (k : Bool) (rest pre cur : Bytes) (index : ℕ) (c : Cutting)
    → IsAt payload d pre cur rest index c
    → IsCut payload d k (cur ++ rest) c (cut_loop payload d k index rest c)
cut_loop-IsCut payload d k [] pre cur index c a = record {
  chunks = [];
  tail = cur;
  whole_is = append-nil cur;
  no_delimiter = tt;
  open_end = a.no_delimiter;
  frames = sym (ap (λ z. c.frames ++ z) (no_chunks k) ∙ append-nil c.frames);
  located = a.located;
  ends =
      omega (
        arith,
        a.starts,
        ap length a.all_of_it,
        length-append pre (cur ++ []),
        length-append cur [],
      );
}
cut_loop-IsCut payload d k (b ∷ rest) pre cur index c a = elim (Bool-cases (b == d)) [
  | inl t ↦
      let is : b ≡ d = ground arith in
      let cut : cut_at payload k index c ≡ cut_chunk cur k index c =
        ap (λ z. cut_chunk z k index c) (slice_open payload d pre cur (b ∷ rest) index c a) in
      rw t (
        subst (λ z. IsCut payload d k (cur ++ b ∷ rest) c (cut_loop payload d k (index + 1) rest z))
          (sym cut)
          (cut_chunk-IsCut payload d k cur rest b index c
            (cut_loop payload d k (index + 1) rest (cut_chunk cur k index c)) is a.no_delimiter
            (cut_loop-IsCut payload d k rest (pre ++ (cur ++ b ∷ [])) [] (index + 1)
              (cut_chunk cur k index c) (cut_chunk-IsAt payload d k pre cur rest b index c a))))
  | inr n ↦
      let next : IsAt payload d pre (cur ++ b ∷ []) rest (index + 1) c = record {
        all_of_it = a.all_of_it ∙ ap (λ z. pre ++ z) (sym (append_assoc cur (b ∷ []) rest));
        starts = a.starts;
        looks_at = omega (arith, a.looks_at, length-append cur (b ∷ []));
        no_delimiter = HasNo-append d cur (b ∷ []) a.no_delimiter (n, tt);
        located = a.located;
      } in
      rw n (
        subst (λ z. IsCut payload d k z c (cut_loop payload d k (index + 1) rest c))
          (append_assoc cur (b ∷ []) rest)
          (cut_loop-IsCut payload d k rest pre (cur ++ b ∷ []) (index + 1) c next))
]
