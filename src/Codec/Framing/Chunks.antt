-- ===== src/Codec/Framing/Chunks.antt =====
-- The chunks of a stream between its delimiters.
use field_deck.Prelude.{
  ℕ, Bool, true, false, List, [], ◌∷◌, ◌++◌, length, take, drop, keep, All, ◌==◌, ◌≡◌,
}
use field_deck.Prelude.Bytes.{Bytes}
use field_deck.Codec.Framing.{is_filled}

-- Chunks, each with the delimiter behind it.
abbrev pub rejoined : ℕ → List Bytes → Bytes
rejoined delimiter [] = []
rejoined delimiter (c ∷ cs) = (c ++ delimiter ∷ []) ++ rejoined delimiter cs

abbrev pub HasNo : ℕ → Bytes → Type 0
HasNo delimiter bs = All (λ b. (b == delimiter) ≡ false) bs

abbrev pub selected_chunks : Bool → List Bytes → List Bytes
selected_chunks true cs = cs
selected_chunks false cs = keep is_filled cs

-- Each frame is found at its offset.
abbrev pub Located : Bytes → List Bytes → List ℕ → Type 0
Located payload [] [] = Unit {0}
Located payload [] (o ∷ os) = ⊥
Located payload (f ∷ fs) [] = ⊥
Located payload (f ∷ fs) (o ∷ os) = (take (length f) (drop o payload) ≡ f) × Located payload fs os

pub Located-append :
    (payload f : Bytes) (o : ℕ) (fs : List Bytes) (os : List ℕ)
    → Located payload fs os
    → take (length f) (drop o payload) ≡ f
    → Located payload (fs ++ f ∷ []) (os ++ o ∷ [])
Located-append payload f o [] [] l h = (h, tt)
Located-append payload f o [] (p ∷ os) l h = absurd l
Located-append payload f o (g ∷ fs) [] l h = absurd l
Located-append payload f o (g ∷ fs) (p ∷ os) (k, l) h = (k, Located-append payload f o fs os l h)

pub HasNo-append : (d : ℕ) (xs ys : Bytes) → HasNo d xs → HasNo d ys → HasNo d (xs ++ ys)
HasNo-append d [] ys h k = k
HasNo-append d (x ∷ xs) ys (e, h) k = (e, HasNo-append d xs ys h k)
