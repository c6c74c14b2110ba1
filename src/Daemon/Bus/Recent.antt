-- ===== src/Daemon/Bus/Recent.antt =====
-- What `EventBus.recent` answers.
use field_deck.Prelude.{
  drop_none, ℕ, zero, suc, ◌+◌, ◌-◌, ◌≤◌, ◌<◌, max, String, Bool, true, false, not, Option, none,
  some, List, [], ◌∷◌, ◌++◌, drop, take, keep, length, length-append, append_assoc, append-nil,
  if◌then◌else◌, leb, ◌≡◌, refl, sym, ap, ◌∙◌, inl, inr, arith, Bool-cases, subst, leb→le, All,
  All-map, keep-none,
}
use field_deck.Daemon.Bus.{BusEvent, EventBus, in_types, is_older, collect, reverse, recent}

-- An event that the question asks for.
abbrev pub is_asked : List String → Option ℕ → BusEvent → Bool
is_asked types since e = if in_types types e.type then not (is_older since e) else false

-- The last events of a list.
abbrev pub newest : ℕ → List BusEvent → List BusEvent
newest n es = drop (length es - n) es

-- The clock never ran backwards from one event to a later one.
abbrev pub InClockOrder : List BusEvent → Type 0
InClockOrder [] = Unit {0}
InClockOrder (e ∷ es) = All (λ f. e.monotonic_ns ≤ f.monotonic_ns) es × InClockOrder es

abbrev NewestFirst : List BusEvent → Type 0
NewestFirst [] = Unit {0}
NewestFirst (e ∷ es) = All (λ f. f.monotonic_ns ≤ e.monotonic_ns) es × NewestFirst es

All-append :
    (P : BusEvent → Type 0) (xs ys : List BusEvent) → All P xs → All P ys → All P (xs ++ ys)
All-append P [] ys a b = b
All-append P (x ∷ xs) ys (h, a) b = (h, All-append P xs ys a b)

All-reverse : (P : BusEvent → Type 0) (xs : List BusEvent) → All P xs → All P (reverse xs)
All-reverse P [] a = tt
All-reverse P (x ∷ xs) (h, a) = All-append P (reverse xs) (x ∷ []) (All-reverse P xs a) (h, tt)

NewestFirst-append :
    (e : BusEvent) (es : List BusEvent)
    → NewestFirst es
    → All (λ f. e.monotonic_ns ≤ f.monotonic_ns) es
    → NewestFirst (es ++ e ∷ [])
NewestFirst-append e [] n a = (tt, tt)
NewestFirst-append e (f ∷ fs) (m, n) (h, a) = (
  All-append (λ g. g.monotonic_ns ≤ f.monotonic_ns) fs (e ∷ []) m (h, tt),
  NewestFirst-append e fs n a,
)

reverse-NewestFirst : (es : List BusEvent) → InClockOrder es → NewestFirst (reverse es)
reverse-NewestFirst [] o = tt
reverse-NewestFirst (e ∷ es) (m, o) =
    NewestFirst-append e (reverse es) (reverse-NewestFirst es o)
      (All-reverse (λ f. e.monotonic_ns ≤ f.monotonic_ns) es m)

older_unasked :
    (types : List String) (since : Option ℕ) (e f : BusEvent)
    → is_older since e ≡ true
    → f.monotonic_ns ≤ e.monotonic_ns
    → is_asked types since f ≡ false
older_unasked types none e f h l = cc
older_unasked types (some since) e f h l = ground arith

take_none : (n : ℕ) → take {A = BusEvent} n [] ≡ []
take_none zero = refl
take_none (suc n) = refl

nothing_more : (n : ℕ) (out : List BusEvent) → out ≡ out ++ take n []
nothing_more n out = sym (ap (λ us. out ++ us) (take_none n) ∙ append-nil out)

last_place : (limit n : ℕ) → n < max 1 limit → leb limit (n + 1) ≡ true → max 1 limit - n ≡ 1
last_place limit n l f = omega (arith, leb→le limit (n + 1) f)

more_places :
    (limit n : ℕ)
    → leb limit (n + 1) ≡ false
    → (max 1 limit - n ≡ suc (max 1 limit - (n + 1))) × (n + 1 < max 1 limit)
more_places limit n f = (ground arith, ground arith)

-- The loop takes the events that are asked for from the front, as long as there is room, of which
-- there is one place at least; the first that is too old ends it, since those after it are older.
collect_asked :
    (limit : ℕ) (types : List String) (since : Option ℕ) (es out : List BusEvent)
    → length out < max 1 limit
    → NewestFirst es
    → collect limit types since es out
      ≡ out ++ take (max 1 limit - length out) (keep (is_asked types since) es)
collect_asked limit types since [] out l n = nothing_more (max 1 limit - length out) out
collect_asked limit types since (e ∷ es) out l (m, n) = elim (Bool-cases (in_types types e.type)) [
  | inr t ↦ rw t (collect_asked limit types since es out l n)
  | inl t ↦ elim (Bool-cases (is_older since e)) [
    | inl o ↦
        rw
          (
            t,
            o,
            keep-none (is_asked types since) es (
                All-map (λ f. f.monotonic_ns ≤ e.monotonic_ns) (λ f. is_asked types since f ≡ false)
                  es (λ f h. older_unasked types since e f o h) m),
          )
          (nothing_more (max 1 limit - length out) out)
    | inr o ↦ elim (Bool-cases (leb limit (length (out ++ e ∷ [])))) [
      | inl f ↦
          let one = last_place limit (length out) l (subst (λ k. leb limit k ≡ true) grown f) in
          rw (t, o, f) (ap (λ k. out ++ take k (e ∷ keep (is_asked types since) es)) (sym one))
      | inr f ↦
          let p = more_places limit (length out) (subst (λ k. leb limit k ≡ false) grown f) in
          let places : suc (max 1 limit - length (out ++ e ∷ [])) ≡ max 1 limit - length out =
            omega (arith, grown, p.0) in
          rw (t, o, f)
            (collect_asked limit types since es (out ++ e ∷ []) (omega (arith, grown, p.1)) n
              ∙ append_assoc out (e ∷ []) _
              ∙ ap (λ k. out ++ take k (e ∷ keep (is_asked types since) es)) places)
    ]
  ]
]
  where
    grown : length (out ++ e ∷ []) ≡ length out + 1
    grown = length-append out (e ∷ [])

reverse-append : (xs ys : List BusEvent) → reverse (xs ++ ys) ≡ reverse ys ++ reverse xs
reverse-append [] ys = sym (append-nil (reverse ys))
reverse-append (x ∷ xs) ys =
    ap (λ us. us ++ x ∷ []) (reverse-append xs ys) ∙ append_assoc (reverse ys) (reverse xs) (x ∷ [])

reverse-reverse : (xs : List BusEvent) → reverse (reverse xs) ≡ xs
reverse-reverse [] = refl
reverse-reverse (x ∷ xs) =
    reverse-append (reverse xs) (x ∷ []) ∙ ap (λ us. x ∷ us) (reverse-reverse xs)

keep-append :
    (p : BusEvent → Bool) (xs ys : List BusEvent) → keep p (xs ++ ys) ≡ keep p xs ++ keep p ys
keep-append p [] ys = refl
keep-append p (x ∷ xs) ys = elim (Bool-cases (p x)) [
  | inl t ↦ rw t (ap (λ us. x ∷ us) (keep-append p xs ys))
  | inr t ↦ rw t (keep-append p xs ys)
]

keep-reverse :
    (p : BusEvent → Bool) (xs : List BusEvent) → keep p (reverse xs) ≡ reverse (keep p xs)
keep-reverse p [] = refl
keep-reverse p (x ∷ xs) = elim (Bool-cases (p x)) [
  | inl t ↦ keep-append p (reverse xs) (x ∷ []) ∙ rw t (ap (λ us. us ++ x ∷ []) (keep-reverse p xs))
  | inr t ↦
      keep-append p (reverse xs) (x ∷ [])
      ∙ rw t (append-nil (keep p (reverse xs)) ∙ keep-reverse p xs)
]

length-reverse : (xs : List BusEvent) → length (reverse xs) ≡ length xs
length-reverse [] = refl
length-reverse (x ∷ xs) = omega (arith, length-append (reverse xs) (x ∷ []), length-reverse xs)

take_front : (n : ℕ) (xs ys : List BusEvent) → n ≤ length xs → take n (xs ++ ys) ≡ take n xs
take_front zero xs ys h = refl
take_front (suc n) [] ys h = absurd (omega arith)
take_front (suc n) (x ∷ xs) ys h = ap (λ us. x ∷ us) (take_front n xs ys (omega arith))

take_whole : (n : ℕ) (xs : List BusEvent) → length xs ≤ n → take n xs ≡ xs
take_whole n [] h = take_none n
take_whole zero (x ∷ xs) h = absurd (omega arith)
take_whole (suc n) (x ∷ xs) h = ap (λ us. x ∷ us) (take_whole n xs (omega arith))

-- The first events of the reversed list, reversed, are the last events of the list.
reverse-take-reverse : (n : ℕ) (xs : List BusEvent) → reverse (take n (reverse xs)) ≡ newest n xs
reverse-take-reverse n [] = ap reverse (take_none n) ∙ sym (drop_none (0 - n))
reverse-take-reverse n (x ∷ xs) = elim (Bool-cases (leb n (length xs))) [
  | inl t ↦
      let k : length (x ∷ xs) - n ≡ suc (length xs - n) = omega (arith, leb→le n (length xs) t) in
      ap reverse (
        take_front n (reverse xs) (x ∷ [])
          (omega (arith, leb→le n (length xs) t, length-reverse xs)))
      ∙ reverse-take-reverse n xs
      ∙ ap (λ m. drop m (x ∷ xs)) (sym k)
  | inr t ↦
      let l : length xs < n = ground arith in
      let k : length (x ∷ xs) - n ≡ 0 = omega (arith, l) in
      ap reverse (take_whole n (reverse (x ∷ xs)) (omega (arith, l, length-reverse (x ∷ xs))))
      ∙ reverse-reverse (x ∷ xs)
      ∙ ap (λ m. drop m (x ∷ xs)) (sym k)
]

-- Where the clock never ran backwards along the history, `recent` answers the newest of those events
-- that are of a wanted type and not too old, in order, as many as the limit says; a limit of 0 counts
-- as 1.
pub recent-newest :
    (limit : ℕ) (types : List String) (since : Option ℕ) (b : EventBus)
    → InClockOrder b.history
    → recent limit types since b ≡ newest (max 1 limit) (keep (is_asked types since) b.history)
unfolding recent
recent-newest limit types since b o =
    ap reverse (
      collect_asked limit types since (reverse b.history) [] (omega arith)
        (reverse-NewestFirst b.history o)
      ∙ ap (λ k. take k (keep (is_asked types since) (reverse b.history))) all_places
      ∙ ap (take (max 1 limit)) (keep-reverse (is_asked types since) b.history))
    ∙ reverse-take-reverse (max 1 limit) (keep (is_asked types since) b.history)
  where
    all_places : max 1 limit - 0 ≡ max 1 limit
    all_places = omega arith
