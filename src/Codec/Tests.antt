-- ===== src/Codec/Tests.antt =====
-- The codecs of fielddeck/analysis/convert.py and fielddeck/protocols on concrete bytes.
use field_deck.Prelude.{true, false, none, some, [], ◌∷◌, ◌++◌, ◌≡◌, refl, arith}
use field_deck.Common.Errors.{ok, err, internal_error}
use field_deck.Codec.Slip.{slip_encode, slip_decode}
use field_deck.Codec.Slip.RoundTrip.{slip_decode-slip_encode}
use field_deck.Codec.Cobs.{cobs_encode, cobs_decode}
use field_deck.Codec.Cobs.RoundTrip.{NoZero, cobs_decode-cobs_encode}
use field_deck.Codec.Isotp.{
  Frame, Reassembly, Pending, take_frames, take_frame, single_frame, reassemble,
}
use field_deck.Codec.Isotp.Transfer.{all_bytes}
use field_deck.Codec.Identifier.{decode_id}
use field_deck.Codec.Identifier.Fields.{IsFaithful, decode_id-IsFaithful}
use field_deck.Codec.Isotp.Whole.{ReadsAs, segmented, reassemble-segmented}
use field_deck.Codec.Isotp.Crash.{reassemble_cut}

slip_decode-slip_encode_example :
    slip_decode (slip_encode true (0xC0 ∷ 0xDB ∷ 0 ∷ [])) ≡ ok (0xC0 ∷ 0xDB ∷ 0 ∷ [])
slip_decode-slip_encode_example = slip_decode-slip_encode true (0xC0 ∷ 0xDB ∷ 0 ∷ [])

cobs_decode-cobs_encode_example :
    (cobs_decode (cobs_encode (1 ∷ 0 ∷ 2 ∷ [])) ≡ ok (1 ∷ 0 ∷ 2 ∷ []))
    × (cobs_decode (cobs_encode (1 ∷ 0 ∷ 2 ∷ []) ++ 0 ∷ []) ≡ ok (1 ∷ 0 ∷ 2 ∷ []))
    × NoZero (cobs_encode (1 ∷ 0 ∷ 2 ∷ []))
cobs_decode-cobs_encode_example = cobs_decode-cobs_encode (1 ∷ 0 ∷ 2 ∷ [])

abbrev under_way : Pending
under_way = record {
  can_id = 0x7E8;
  declared_length = 9;
  buffer = 1 ∷ 2 ∷ 3 ∷ [];
  start_ns = 10;
  last_ns = 10;
  frames = 1;
  next_sequence = 1;
  problems = [];
}

abbrev receiving : Reassembly
receiving = record { pending = (0x7E8, under_way) ∷ []; messages = [] }

abbrev whole_frame : Frame
whole_frame = record { can_id = 0x7E8; bytes = 2 ∷ 0xAA ∷ 0xBB ∷ []; monotonic_ns = 5 }

abbrev cut_first_frame : Frame
cut_first_frame = record { can_id = 0x7E8; bytes = 0x10 ∷ []; monotonic_ns = 6 }

abbrev heard : Reassembly
heard = record {
  pending = [];
  messages =
      record {
        can_id = 0x7E8;
        bytes = 0xAA ∷ 0xBB ∷ [];
        start_ns = 5;
        end_ns = 5;
        frame_count = 1;
        complete = true;
        declared_length = some 2;
        problems = [];
      }
      ∷ [];
}

reassemble_cut_example :
    reassemble none false (whole_frame ∷ cut_first_frame ∷ whole_frame ∷ []) ≡ err internal_error
unfolding take_frames take_frame single_frame
reassemble_cut_example =
    reassemble_cut none false cut_first_frame 0x10 (whole_frame ∷ []) (whole_frame ∷ []) heard refl
      refl refl refl

reassemble-segmented_example :
    ReadsAs
      (reassemble none false
        (segmented 0x7E8 10 9 (1 ∷ 2 ∷ 3 ∷ []) ((4 ∷ 5 ∷ 6 ∷ []) ∷ (7 ∷ 8 ∷ 9 ∷ 0 ∷ []) ∷ [])))
      0x7E8
      9
      ((1 ∷ 2 ∷ 3 ∷ []) ++ all_bytes ((4 ∷ 5 ∷ 6 ∷ []) ∷ (7 ∷ 8 ∷ 9 ∷ 0 ∷ []) ∷ []))
reassemble-segmented_example =
    reassemble-segmented none false 0x7E8 10 9 (1 ∷ 2 ∷ 3 ∷ [])
      ((4 ∷ 5 ∷ 6 ∷ []) ∷ (7 ∷ 8 ∷ 9 ∷ 0 ∷ []) ∷ []) refl (omega arith) (omega arith)
      (omega arith, omega arith)

decode_id-IsFaithful_example : IsFaithful 0x98F00417 (decode_id 0x98F00417)
decode_id-IsFaithful_example = decode_id-IsFaithful 0x98F00417
