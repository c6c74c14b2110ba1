-- ===== src/Codec/Uds/Highest.antt =====
-- The permission that `summarize_exchange` reports.
use field_deck.Prelude.{
  ℕ, ◌≤◌, ◌<◌, Option, none, some, List, [], ◌∷◌, ltb, ltb→lt, ◌≡◌, ◌⊎◌, refl, sym, subst, inl, inr,
  arith, Member, All, Bool-cases,
}
use field_deck.Prelude.Bytes.{Bytes}
use field_deck.Common.Permission.{PermissionLevel, passive, rank}
use field_deck.Codec.UdsTables.{UdsService}
use field_deck.Codec.Uds.{decode_message, looked_up, higher, summarize_from, summarize_exchange}

-- The service of a message, if the table has it.
abbrev pub service_of : Bytes → Option UdsService
service_of payload = looked_up (decode_message payload).service_id

abbrev pub IsWithin : PermissionLevel → Bytes → Type 0
IsWithin p payload = (s : UdsService) → service_of payload ≡ some s → rank s.permission ≤ rank p

-- Where a level comes from: it was there before, or one of the messages takes it.
abbrev pub IsFrom : PermissionLevel → PermissionLevel → List Bytes → Type 0
IsFrom start p messages =
    (p ≡ start)
    ⊎ ((payload : Bytes) × (s : UdsService) × Member payload messages
        × (service_of payload ≡ some s)
        × (s.permission ≡ p))

higher_grows :
    (o : Option UdsService) (p : PermissionLevel)
    → (rank p ≤ rank (higher o p))
      × ((s : UdsService) → o ≡ some s → rank s.permission ≤ rank (higher o p))
higher_grows none p = (omega arith, λ s e. absurd (let x : none ≡ some s = e in cc))
higher_grows (some s) p = elim (Bool-cases (ltb (rank p) (rank s.permission))) [
  | inl t ↦
      let more : rank p < rank s.permission = ltb→lt (rank p) (rank s.permission) t in
      rw t (omega (arith, more), λ z e. same z e (rank s.permission) (omega arith))
  | inr t ↦
      let less : rank s.permission ≤ rank p = ground arith in
      rw t (omega arith, λ z e. same z e (rank p) less)
]
  where
    same :
        (z : UdsService) → some s ≡ some z → (n : ℕ) → rank s.permission ≤ n → rank z.permission ≤ n
    same z e n h = let i : s ≡ z = cc in subst (λ y. rank y.permission ≤ n) i h

higher-IsFrom :
    (payload : Bytes) (messages : List Bytes) (p : PermissionLevel)
    → IsFrom p (higher (service_of payload) p) (payload ∷ messages)
higher-IsFrom payload messages p = taken (service_of payload) refl
  where
    taken :
        (o : Option UdsService)
        → service_of payload ≡ o
        → IsFrom p (higher o p) (payload ∷ messages)
    taken none e = inl refl
    taken (some s) e = elim (Bool-cases (ltb (rank p) (rank s.permission))) [
      | inl t ↦ rw t (inr (payload, s, inl refl, e, refl))
      | inr t ↦ rw t (inl refl)
    ]

IsFrom-later :
    (payload : Bytes) (messages : List Bytes) (p q final : PermissionLevel)
    → IsFrom p q (payload ∷ messages)
    → IsFrom q final messages
    → IsFrom p final (payload ∷ messages)
IsFrom-later payload messages p q final h (inl e) =
    subst (λ z. IsFrom p z (payload ∷ messages)) (sym e) h
IsFrom-later payload messages p q final h (inr (x, s, m, e, f)) = inr (x, s, inr m, e, f)

summarize_from_highest :
    (messages : List Bytes) (p : PermissionLevel)
    → (rank p ≤ rank (summarize_from p messages))
      × All (IsWithin (summarize_from p messages)) messages
      × IsFrom p (summarize_from p messages) messages
unfolding summarize_from
summarize_from_highest [] p = (omega arith, tt, inl refl)
summarize_from_highest (payload ∷ messages) p =
    let q = higher (service_of payload) p in
    let g = higher_grows (service_of payload) p in
    let h = summarize_from_highest messages q in
    (
      omega (arith, g.0, h.0),
      (λ s e. omega (arith, g.1 s e, h.0), h.1),
      IsFrom-later payload messages p q (summarize_from q messages)
          (higher-IsFrom payload messages p) h.2,
    )

-- The permission that a summary reports is that of the highest service that any of the messages
-- belongs to, requests and responses of either kind, or PASSIVE where none belongs to one of the
-- table.
pub summarize_exchange_highest :
    (messages : List Bytes)
    → All (IsWithin (summarize_exchange messages)) messages
      × IsFrom passive (summarize_exchange messages) messages
unfolding summarize_exchange
summarize_exchange_highest messages = let h = summarize_from_highest messages passive in (h.1, h.2)
