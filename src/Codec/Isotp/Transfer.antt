-- ===== src/Codec/Isotp/Transfer.antt =====
-- A transfer that is cut into numbered frames comes out whole.
use field_deck.Prelude.{
  ℕ, ◌+◌, ◌/◌, ◌%◌, ◌≤◌, ◌<◌, Bool, true, Option, some, List, [], ◌∷◌, ◌++◌, le→leb, length, take,
  ◌≡◌, refl, ap, sym, subst, ◌∙◌, append_assoc, append-nil, arith,
}
use field_deck.Prelude.Bytes.{Bytes}
use field_deck.Common.Errors.{ok, ◌>>=◌}
use field_deck.Codec.Isotp.{
  Message, Pending, Frame, Reassembly, lookup_id, insert_id, erase_id, finish, say, extend,
  continue, consecutive_of, take_frame, take_frames, is_wanted,
}

lookup_id-insert_id :
    (i : ℕ) (p : Pending) (m : List (ℕ × Pending)) → lookup_id i (insert_id i p m) ≡ some p
lookup_id-insert_id i p [] = ground arith
lookup_id-insert_id i p ((j, q) ∷ m) = ground (arith, lookup_id-insert_id i p m)

erase_id-insert_id :
    (i : ℕ) (p : Pending) (m : List (ℕ × Pending)) → erase_id i (insert_id i p m) ≡ erase_id i m
erase_id-insert_id i p [] = ground arith
erase_id-insert_id i p ((j, q) ∷ m) = ground (arith, erase_id-insert_id i p m)

-- The consecutive frames of a transfer, numbered from `k` on, modulo 16.
abbrev pub numbered : ℕ → ℕ → ℕ → List Bytes → List Frame
numbered i t k [] = []
numbered i t k (c ∷ cs) =
    record { can_id = i; bytes = (32 + k % 16) ∷ c; monotonic_ns = t } ∷ numbered i t (k + 1) cs

abbrev pub all_bytes : List Bytes → Bytes
all_bytes [] = []
all_bytes (c ∷ cs) = c ++ all_bytes cs

-- The declared length is reached with the last chunk and not before.
abbrev pub Completes : ℕ → Bytes → List Bytes → Type 0
Completes declared b [] = ⊥
Completes declared b (c ∷ []) = declared ≤ length (b ++ c)
Completes declared b (c ∷ d ∷ cs) =
    (length (b ++ c) < declared) × Completes declared (b ++ c) (d ∷ cs)

-- A transfer under way that has met no problem and waits for frame `k`.
pub record Awaits (s : Reassembly) (i k : ℕ) (p : Pending) : Type 0 where
  pub stored : lookup_id i s.pending ≡ some p
  pub same_id : p.can_id ≡ i
  pub no_problem : p.problems ≡ []
  pub in_turn : p.next_sequence ≡ k % 16

-- A whole message: complete, with no problem, and of exactly the declared bytes.
pub record IsWhole (i declared : ℕ) (content : Bytes) (m : Message) : Type 0 where
  pub of_id : m.can_id ≡ i
  pub is_complete : m.complete ≡ true
  pub clean : m.problems ≡ []
  pub content_is : m.bytes ≡ take declared content

abbrev next_frame : ℕ → ℕ → ℕ → Bytes → Frame
next_frame i t k c = record { can_id = i; bytes = (32 + k % 16) ∷ c; monotonic_ns = t }

-- A consecutive frame in turn goes to its transfer.
taken :
    (wanted : Option (List ℕ)) (flow : Bool) (s : Reassembly) (i t k : ℕ) (p : Pending) (c : Bytes)
    → is_wanted wanted i ≡ true
    → Awaits s i k p
    → take_frame wanted flow (next_frame i t k c) s
      ≡ ok (continue (next_frame i t k c) (extend (k % 16) c t p) s)
unfolding take_frame
taken wanted flow s i t k p c w a =
    let pci : (32 + k % 16) / 16 ≡ 2 = omega arith in
    let seq : (32 + k % 16) % 16 ≡ k % 16 = omega arith in
    rw (w, pci, seq) (ap (λ o. ok (consecutive_of o (k % 16) c (next_frame i t k c) s)) a.stored)

extend-problems :
    (k t : ℕ) (p : Pending) (c : Bytes)
    → p.problems ≡ []
    → p.next_sequence ≡ k % 16
    → (extend (k % 16) c t p).problems ≡ []
extend-problems k t p c clean turn = ground arith

pub record Completed (s s' : Reassembly) (i declared : ℕ) (content : Bytes) : Type 0 where
  pub message : Message
  pub appended : s'.messages ≡ s.messages ++ message ∷ []
  pub whole : IsWhole i declared content message
  pub closed : s'.pending ≡ erase_id i s.pending

following_frame-Awaits :
    (s : Reassembly) (i t k : ℕ) (p : Pending) (c : Bytes)
    → Awaits s i k p
    → Awaits
        (record s { pending = insert_id i (extend (k % 16) c t p) s.pending })
        i
        (k + 1)
        (extend (k % 16) c t p)
following_frame-Awaits s i t k p c a = record {
  stored = lookup_id-insert_id i (extend (k % 16) c t p) s.pending;
  same_id = a.same_id;
  no_problem = extend-problems k t p c a.no_problem a.in_turn;
  in_turn = omega arith;
}

finish-IsWhole :
    (i : ℕ) (p : Pending)
    → p.can_id ≡ i
    → p.problems ≡ []
    → IsWhole i p.declared_length p.buffer (finish p true)
unfolding finish
finish-IsWhole i p same clean = record {
  of_id = same;
  is_complete = refl;
  clean = clean;
  content_is = refl;
}

-- A chunk that leaves the declared length unreached.
continue_more :
    (f : Frame) (p : Pending) (s : Reassembly)
    → length p.buffer < p.declared_length
    → continue f p s ≡ record s { pending = insert_id f.can_id p s.pending }
continue_more f p s short = ground arith

continue_last :
    (f : Frame) (p : Pending) (s : Reassembly)
    → p.declared_length ≤ length p.buffer
    → continue f p s ≡ say (finish p true) (record s { pending = erase_id f.can_id s.pending })
continue_last f p s whole = rw (le→leb p.declared_length (length p.buffer) whole) refl

-- The frames in turn of a transfer under way, numbered on from the one it waits for, whose chunks
-- reach the declared length with the last one, are taken without an error, and exactly one message
-- is added: the complete one, with no problem, whose bytes are the declared number of the bytes
-- received before and in the chunks. The transfer is then closed.
pub take_frames-Completed :
    (wanted : Option (List ℕ)) (flow : Bool) (i t k : ℕ) (cs : List Bytes) (s : Reassembly)
    (p : Pending)
    → is_wanted wanted i ≡ true
    → Awaits s i k p
    → Completes p.declared_length p.buffer cs
    → (s' : Reassembly) × (take_frames wanted flow (numbered i t k cs) s ≡ ok s')
      × Completed s s' i p.declared_length (p.buffer ++ all_bytes cs)
unfolding take_frames
take_frames-Completed wanted flow i t k [] s p w a last = elim last [ ]
take_frames-Completed wanted flow i t k (c ∷ []) s p w a last =
    let q : Pending = extend (k % 16) c t p in
    let f : Frame = next_frame i t k c in
    (
      say (finish q true) (record s { pending = erase_id i s.pending }),
      ap (λ r. r >>= take_frames wanted flow [])
          (taken wanted flow s i t k p c w a ∙ ap ok (continue_last f q s last)),
      record {
        message = finish q true;
        appended = refl;
        closed = refl;
        whole =
            subst (λ b. IsWhole i p.declared_length b (finish q true))
              (ap (λ x. p.buffer ++ x) (sym (append-nil c)))
              (finish-IsWhole i q a.same_id (extend-problems k t p c a.no_problem a.in_turn));
      },
    )
take_frames-Completed wanted flow i t k (c ∷ d ∷ cs) s p w a (more, rest) =
    let q : Pending = extend (k % 16) c t p in
    let f : Frame = next_frame i t k c in
    let next : Reassembly = record s { pending = insert_id i q s.pending } in
    let (s', run, done) =
      take_frames-Completed wanted flow i t (k + 1) (d ∷ cs) next q w
        (following_frame-Awaits s i t k p c a) rest in
    (
      s',
      ap (λ r. r >>= take_frames wanted flow (numbered i t (k + 1) (d ∷ cs)))
            (taken wanted flow s i t k p c w a ∙ ap ok (continue_more f q s more))
          ∙ run,
      subst (λ b. Completed s s' i p.declared_length b)
          (append_assoc p.buffer c (all_bytes (d ∷ cs)))
          (record {
            message = done.message;
            appended = done.appended;
            whole = done.whole;
            closed = done.closed ∙ erase_id-insert_id i q s.pending;
          }),
    )
