-- ===== src/Codec/Isotp/Crash.antt =====
-- A first frame cut to one byte ends the whole reassembly in an error.
use field_deck.Prelude.{ℕ, ◌/◌, Bool, true, Option, List, [], ◌∷◌, ◌++◌, ◌≡◌, refl, ap, ◌∙◌}
use field_deck.Common.Errors.{ok, err, ◌>>=◌, >>=-eq-ok, internal_error}
use field_deck.Codec.Isotp.{
  Frame, Reassembly, fresh, first_frame, take_frame, take_frames, is_wanted, reassemble,
}

cut_frame :
    (wanted : Option (List ℕ)) (flow : Bool) (f : Frame) (b : ℕ) (s : Reassembly)
    → is_wanted wanted f.can_id ≡ true
    → f.bytes ≡ b ∷ []
    → b / 16 ≡ 1
    → take_frame wanted flow f s ≡ err internal_error
unfolding take_frame first_frame
cut_frame wanted flow f b s w cut kind = rw (w, cut, kind) refl

take_frames_cut :
    (wanted : Option (List ℕ)) (flow : Bool) (f : Frame) (b : ℕ) (before after : List Frame)
    (s s' : Reassembly)
    → is_wanted wanted f.can_id ≡ true
    → f.bytes ≡ b ∷ []
    → b / 16 ≡ 1
    → take_frames wanted flow before s ≡ ok s'
    → take_frames wanted flow (before ++ f ∷ after) s ≡ err internal_error
unfolding take_frames
take_frames_cut wanted flow f b [] after s s' w cut kind run =
    ap (λ r. r >>= take_frames wanted flow after) (cut_frame wanted flow f b s w cut kind)
take_frames_cut wanted flow f b (g ∷ gs) after s s' w cut kind run =
    let (mid, head, tail) =
      >>=-eq-ok (take_frame wanted flow g s) (take_frames wanted flow gs) run in
    ap (λ r. r >>= take_frames wanted flow (gs ++ f ∷ after)) head
    ∙ take_frames_cut wanted flow f b gs after mid s' w cut kind tail

-- When the frames before it are taken without an error, a wanted frame of one byte whose upper half
-- is 1, a first frame cut short, makes reassemble fail with an internal error: no message of the
-- whole capture comes back.
pub reassemble_cut :
    (wanted : Option (List ℕ)) (flow : Bool) (f : Frame) (b : ℕ) (before after : List Frame)
    (s : Reassembly)
    → is_wanted wanted f.can_id ≡ true
    → f.bytes ≡ b ∷ []
    → b / 16 ≡ 1
    → take_frames wanted flow before fresh ≡ ok s
    → reassemble wanted flow (before ++ f ∷ after) ≡ err internal_error
unfolding reassemble
reassemble_cut wanted flow f b before after s w cut kind run =
    rw (take_frames_cut wanted flow f b before after fresh s w cut kind run) refl
