-- ===== src/Codec/Isotp/Whole.antt =====
-- A payload that is cut into a first frame and numbered consecutive frames comes back whole.
use field_deck.Prelude.{
  ℕ, ◌+◌, ◌*◌, ◌/◌, ◌%◌, ◌<◌, Bool, true, Option, List, [], ◌∷◌, ◌++◌, ◌≡◌, refl, ap, ◌∙◌, arith,
}
use field_deck.Prelude.Bytes.{Bytes}
use field_deck.Common.Errors.{Result, ok, ◌>>=◌}
use field_deck.Codec.Isotp.{
  Message, Pending, Frame, Reassembly, begin_transfer, first_payload, first_frame, fresh,
  take_frame, take_frames, is_wanted, reassemble, sorted_messages, erase_id,
}
use field_deck.Codec.Isotp.Transfer.{
  numbered, all_bytes, Completes, Awaits, IsWhole, take_frames-Completed,
}

-- The frames of a transfer of `declared` bytes, below the 12-bit limit: the declared length stands
-- in the first frame's two leading bytes, before its part of the payload.
abbrev pub opening : ℕ → ℕ → ℕ → Bytes → Frame
opening i t declared first = record {
  can_id = i;
  bytes = (16 + declared / 256) ∷ (declared % 256) ∷ first;
  monotonic_ns = t;
}

abbrev pub segmented : ℕ → ℕ → ℕ → Bytes → List Bytes → List Frame
segmented i t declared first cs = opening i t declared first ∷ numbered i t 1 cs

-- The transfer as it stands after the first frame.
abbrev opened : ℕ → ℕ → ℕ → Bytes → Pending
opened i t declared first = record {
  can_id = i;
  declared_length = declared;
  buffer = first;
  start_ns = t;
  last_ns = t;
  frames = 1;
  next_sequence = 1;
  problems = [];
}

abbrev under_way : ℕ → ℕ → ℕ → Bytes → Reassembly
under_way i t declared first = record {
  pending = (i, opened i t declared first) ∷ [];
  messages = [];
}

declared-first_payload :
    (declared : ℕ) (first : Bytes)
    → 0 < declared
    → declared < 4096
    → first_payload (16 + declared / 256) (declared % 256) first ≡ (declared, first)
declared-first_payload declared first positive short =
    let same : (16 + declared / 256) % 16 * 256 + declared % 256 ≡ declared = omega arith in
    rw same (ground arith)

opening_taken :
    (wanted : Option (List ℕ)) (flow : Bool) (i t declared : ℕ) (first : Bytes)
    → is_wanted wanted i ≡ true
    → 0 < declared
    → declared < 4096
    → take_frame wanted flow (opening i t declared first) fresh ≡ ok (under_way i t declared first)
unfolding take_frame first_frame
opening_taken wanted flow i t declared first w positive short =
    let pci : (16 + declared / 256) / 16 ≡ 1 = omega arith in
    rw (w, pci)
      (ap (λ x. ok (begin_transfer (opening i t declared first) x fresh))
        (declared-first_payload declared first positive short))

opened-Awaits :
    (i t declared : ℕ) (first : Bytes)
    → Awaits (under_way i t declared first) i 1 (opened i t declared first)
opened-Awaits i t declared first = record {
  stored = ground arith;
  same_id = refl;
  no_problem = refl;
  in_turn = refl;
}

pub record ReadsAs (o : Result (List Message)) (i declared : ℕ) (content : Bytes) : Type 0 where
  pub message : Message
  pub answer : o ≡ ok (message ∷ [])
  pub whole : IsWhole i declared content message

closed-opened :
    (i t declared : ℕ) (first : Bytes) → erase_id i (under_way i t declared first).pending ≡ []
closed-opened i t declared first = ground arith

-- A loop that leaves one message and no transfer under way gives that message.
collected :
    (o : Result Reassembly) (s : Reassembly) (m : Message)
    → o ≡ ok s
    → s.messages ≡ m ∷ []
    → s.pending ≡ []
    → (o >>= λ r. ok (sorted_messages r)) ≡ ok (m ∷ [])
collected o s m run one none_open = rw (run, one, none_open) refl

-- The frames of one transfer of up to 4095 declared bytes, a first frame and consecutive frames in
-- turn that reach the declared length with the last one, of an identifier that is wanted: reassemble
-- gives exactly one message, complete and with no problem, whose bytes are the declared number of
-- those in the frames.
pub reassemble-segmented :
    (wanted : Option (List ℕ)) (flow : Bool) (i t declared : ℕ) (first : Bytes) (cs : List Bytes)
    → is_wanted wanted i ≡ true
    → 0 < declared
    → declared < 4096
    → Completes declared first cs
    → ReadsAs
        (reassemble wanted flow (segmented i t declared first cs))
        i
        declared
        (first ++ all_bytes cs)
unfolding reassemble take_frames
reassemble-segmented wanted flow i t declared first cs w positive short whole =
    let (s', run, done) =
      take_frames-Completed wanted flow i t 1 cs (under_way i t declared first)
        (opened i t declared first) w (opened-Awaits i t declared first) whole in
    let opened_run : take_frames wanted flow (segmented i t declared first cs) fresh ≡ ok s' =
      ap (λ r. r >>= take_frames wanted flow (numbered i t 1 cs))
        (opening_taken wanted flow i t declared first w positive short)
      ∙ run in
    record {
      message = done.message;
      answer =
          collected (take_frames wanted flow (segmented i t declared first cs) fresh) s'
            done.message opened_run done.appended (done.closed ∙ closed-opened i t declared first);
      whole = done.whole;
    }
