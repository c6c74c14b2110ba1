-- ===== src/Codec/Isotp.antt =====
-- fielddeck/protocols/isotp.py: reassemble. A frame comes with its identifier and its bytes read
-- already; a problem is its kind, without its text.
pub mod Transfer
pub mod Whole
pub mod Crash
use field_deck.Prelude.{
  ℕ, ◌+◌, ◌*◌, ◌/◌, ◌%◌, suc, Bool, true, false, not, ◌&&◌, Option, none, some, List, [], ◌∷◌, ◌++◌,
  ◌==◌, ltb, leb, if◌then◌else◌, length, take, drop, any, sort_by,
}
use field_deck.Prelude.Bytes.{Bytes}
use field_deck.Common.Errors.{Result, ok, err, ◌>>=◌, internal_error}

pub data Problem : Type 0 where
  short_single superseded mid_transfer incomplete flow_control : Problem
  sequence_jumped : ℕ → ℕ → Problem

-- IsoTpMessage
pub record Message : Type 0 where
  pub can_id : ℕ
  pub bytes : Bytes
  pub start_ns : ℕ
  pub end_ns : ℕ
  pub frame_count : ℕ
  pub complete : Bool
  pub declared_length : Option ℕ
  pub problems : List Problem

-- _Pending
pub record Pending : Type 0 where
  pub can_id : ℕ
  pub declared_length : ℕ
  pub buffer : Bytes
  pub start_ns : ℕ
  pub last_ns : ℕ
  pub frames : ℕ
  pub next_sequence : ℕ
  pub problems : List Problem

pub record Frame : Type 0 where
  pub can_id : ℕ
  pub bytes : Bytes
  pub monotonic_ns : ℕ

-- The dict of transfers by identifier, and the messages so far.
pub record Reassembly : Type 0 where
  pub pending : List (ℕ × Pending)
  pub messages : List Message

abbrev pub lookup_id : ℕ → List (ℕ × Pending) → Option Pending
lookup_id i [] = none
lookup_id i ((j, p) ∷ m) = if j == i then some p else lookup_id i m

abbrev pub insert_id : ℕ → Pending → List (ℕ × Pending) → List (ℕ × Pending)
insert_id i p [] = (i, p) ∷ []
insert_id i p ((j, q) ∷ m) = if j == i then (j, p) ∷ m else (j, q) ∷ insert_id i p m

abbrev pub erase_id : ℕ → List (ℕ × Pending) → List (ℕ × Pending)
erase_id i [] = []
erase_id i ((j, q) ∷ m) = if j == i then m else (j, q) ∷ erase_id i m

-- _finish
unfoldable pub finish : Pending → Bool → Message
finish p complete = record {
  can_id = p.can_id;
  bytes = if complete then take p.declared_length p.buffer else p.buffer;
  start_ns = p.start_ns;
  end_ns = p.last_ns;
  frame_count = p.frames;
  complete = complete;
  declared_length = some p.declared_length;
  problems = p.problems;
}

abbrev pub say : Message → Reassembly → Reassembly
say m s = record s { messages = s.messages ++ m ∷ [] }

abbrev lone : Frame → Bytes → Bool → Option ℕ → List Problem → Message
lone f bytes complete declared problems = record {
  can_id = f.can_id;
  bytes = bytes;
  start_ns = f.monotonic_ns;
  end_ns = f.monotonic_ns;
  frame_count = 1;
  complete = complete;
  declared_length = declared;
  problems = problems;
}

abbrev single_payload : ℕ → Bytes → ℕ × Bytes
single_payload n [] = (n, [])
single_payload n (b ∷ bs) = if n == 0 then (b, take b bs) else (n, take n (b ∷ bs))

abbrev single_message : Frame → ℕ × Bytes → Message
single_message f (n, payload) =
    lone f payload (length payload == n) (some n)
      (if ltb (length payload) n then short_single ∷ [] else [])

-- The first branch: a single frame, whose length is in byte 0, or in byte 1 for an escape.
unfoldable pub single_frame : ℕ → Bytes → Frame → Reassembly → Reassembly
single_frame first rest f s = say (single_message f (single_payload (first % 16) rest)) s

abbrev pub start_transfer : Frame → ℕ → Bytes → Reassembly → Reassembly
start_transfer f declared payload s = record s {
  pending =
      insert_id f.can_id
        (record {
          can_id = f.can_id;
          declared_length = declared;
          buffer = payload;
          start_ns = f.monotonic_ns;
          last_ns = f.monotonic_ns;
          frames = 1;
          next_sequence = 1;
          problems = [];
        })
        s.pending;
}

-- A first frame over an unfinished transfer reports the old one. The old entry is popped before
-- the new one goes in at the end.
abbrev pub supersede : ℕ → Option Pending → Reassembly → Reassembly
supersede i none s = s
supersede i (some p) s =
    say (finish (record p { problems = p.problems ++ superseded ∷ [] }) false)
      (record s { pending = erase_id i s.pending })

abbrev pub big_endian : Bytes → ℕ → ℕ
big_endian [] acc = acc
big_endian (b ∷ bs) acc = big_endian bs (acc * 256 + b)

-- The declared length and the payload; `len(data) >= 6` counts byte 0.
abbrev pub first_payload : ℕ → ℕ → Bytes → ℕ × Bytes
first_payload first second rest =
    let short : ℕ = first % 16 * 256 + second in
    if (short == 0) && leb 4 (length rest)
    then (big_endian (take 4 rest) 0, drop 4 rest)
    else (short, rest)

abbrev pub begin_transfer : Frame → ℕ × Bytes → Reassembly → Reassembly
begin_transfer f (declared, payload) s =
    start_transfer f declared payload (supersede f.can_id (lookup_id f.can_id s.pending) s)

-- The second branch: a first frame. It reads byte 1, which a frame of one byte does not have.
unfoldable pub first_frame : ℕ → Bytes → Frame → Reassembly → Result Reassembly
unfolding finish
first_frame first [] f s = err internal_error
first_frame first (second ∷ rest) f s = ok (begin_transfer f (first_payload first second rest) s)

-- What a consecutive frame makes of its transfer.
abbrev pub extend : ℕ → Bytes → ℕ → Pending → Pending
extend sequence rest now p = record p {
  problems =
      if sequence == p.next_sequence
      then p.problems
      else p.problems ++ sequence_jumped p.next_sequence sequence ∷ [];
  next_sequence = (sequence + 1) % 16;
  buffer = p.buffer ++ rest;
  frames = p.frames + 1;
  last_ns = now;
}

abbrev pub continue : Frame → Pending → Reassembly → Reassembly
continue f p s =
    if leb p.declared_length (length p.buffer)
    then say (finish p true) (record s { pending = erase_id f.can_id s.pending })
    else record s { pending = insert_id f.can_id p s.pending }

abbrev pub consecutive_of : Option Pending → ℕ → Bytes → Frame → Reassembly → Reassembly
consecutive_of none sequence rest f s = say (lone f rest false none (mid_transfer ∷ [])) s
consecutive_of (some p) sequence rest f s = continue f (extend sequence rest f.monotonic_ns p) s

-- The third branch: a consecutive frame.
unfoldable pub consecutive_frame : ℕ → Bytes → Frame → Reassembly → Reassembly
unfolding finish
consecutive_frame first rest f s =
    consecutive_of (lookup_id f.can_id s.pending) (first % 16) rest f s

abbrev pub by_type : Bool → ℕ → ℕ → Bytes → Frame → Reassembly → Result Reassembly
by_type flow pci first rest f s =
    if pci == 0
    then ok (single_frame first rest f s)
    else if pci == 1
    then first_frame first rest f s
    else if pci == 2
    then ok (consecutive_frame first rest f s)
    else if (pci == 3) && flow
    then ok (say (lone f (first ∷ rest) true none (flow_control ∷ [])) s)
    else ok s

abbrev pub by_bytes : Bool → Bytes → Frame → Reassembly → Result Reassembly
by_bytes flow [] f s = ok s
by_bytes flow (first ∷ rest) f s = by_type flow (first / 16) first rest f s

abbrev pub is_wanted : Option (List ℕ) → ℕ → Bool
is_wanted none i = true
is_wanted (some ids) i = any (λ j. j == i) ids

-- One turn of the loop of reassemble.
unfoldable pub take_frame : Option (List ℕ) → Bool → Frame → Reassembly → Result Reassembly
unfolding single_frame first_frame consecutive_frame
take_frame wanted flow f s = if is_wanted wanted f.can_id then by_bytes flow f.bytes f s else ok s

unfoldable pub take_frames : Option (List ℕ) → Bool → List Frame → Reassembly → Result Reassembly
take_frames wanted flow [] s = ok s
take_frames wanted flow (f ∷ fs) s = take_frame wanted flow f s >>= take_frames wanted flow fs

abbrev unfinished : List (ℕ × Pending) → List Message
unfinished [] = []
unfinished ((i, p) ∷ m) =
    finish (record p { problems = p.problems ++ incomplete ∷ [] }) false ∷ unfinished m

abbrev earlier : Message → Message → Bool
earlier a b = leb a.start_ns b.start_ns

abbrev pub sorted_messages : Reassembly → List Message
sorted_messages s = sort_by earlier (s.messages ++ unfinished s.pending)

abbrev pub fresh : Reassembly
fresh = record { pending = []; messages = [] }

-- reassemble
unfoldable pub reassemble : Option (List ℕ) → Bool → List Frame → Result (List Message)
unfolding take_frames finish
reassemble wanted flow fs = take_frames wanted flow fs fresh >>= λ s. ok (sorted_messages s)
