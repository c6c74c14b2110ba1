-- ===== src/Codec/Crc/Search.antt =====
-- Which models `crc_candidates` finds.
use native.Mathlib.Nat.{pow-le-pow_right, mod-lt}
use field_deck.Prelude.{
  ℕ, zero, suc, ◌*◌, ◌/◌, ◌%◌, ◌^◌, ◌<◌, true, false, Option, none, some, List, [], ◌∷◌, length,
  length-append, All, All-map, ◌==◌, ◌≡◌, ◌≢◌, refl, sym, ap, subst, ◌∙◌, inl, inr, arith, lt→ltb,
  Bool-cases, Member,
}
use field_deck.Prelude.Bytes.{Bytes}
use field_deck.Codec.Crc.Candidates.{
  ByteOrder, big, little, big_bytes, ordered, to_bytes, CrcMatch, same_bytes, try_bytes, try_orders,
  add_match, crc_candidates,
}
use field_deck.Codec.Crc.{CrcModel, byte_width, compute}

-- A CRC has at most as many bits as its model's width, so that it fits its bytes.
compute_lt : (m : CrcModel) (payload : Bytes) → compute m payload < 2 ^ m.width
unfolding compute
compute_lt m payload =
    mod-lt _
      (omega (arith, pow-le-pow_right {n = 2} (omega arith) {i = 0} {j = m.width} (omega arith)))

eight_times : (k : ℕ) → 2 ^ (8 * k) ≡ 256 ^ k
eight_times zero = refl
eight_times (suc k) =
    let unrolled : 8 * suc k ≡ suc (suc (suc (suc (suc (suc (suc (suc (8 * k)))))))) =
      omega arith in
    ap (λ n. 2 ^ n) unrolled ∙ omega (arith, eight_times k)

compute_fits_bytes : (m : CrcModel) (payload : Bytes) → compute m payload < 256 ^ byte_width m
compute_fits_bytes m payload = omega (
  arith,
  compute_lt m payload,
  pow-le-pow_right {n = 2} (omega arith) {i = m.width} {j = 8 * byte_width m} (omega arith),
  eight_times (byte_width m),
)

to_bytes-compute :
    (m : CrcModel) (payload : Bytes) (o : ByteOrder)
    → to_bytes m (compute m payload) o ≡ some (ordered o (byte_width m) (compute m payload))
unfolding to_bytes
to_bytes-compute m payload o = rw (lt→ltb _ _ (compute_fits_bytes m payload)) refl

same_bytes-eq : (xs ys : Bytes) → same_bytes xs ys ≡ true → xs ≡ ys
same_bytes-eq [] [] h = refl
same_bytes-eq [] (y ∷ ys) h = absurd (let e : false ≡ true = h in cc)
same_bytes-eq (x ∷ xs) [] h = absurd (let e : false ≡ true = h in cc)
same_bytes-eq (x ∷ xs) (y ∷ ys) h =
    let first : x ≡ y = ground arith in
    let more : xs ≡ ys = same_bytes-eq xs ys (ground arith) in cc

same_bytes_refl : (xs : Bytes) → same_bytes xs xs ≡ true
same_bytes_refl [] = refl
same_bytes_refl (x ∷ xs) = ground (arith, same_bytes_refl xs)

length-ordered : (o : ByteOrder) (n value : ℕ) → length (ordered o n value) ≡ n
length-ordered little zero value = refl
length-ordered little (suc n) value = omega (arith, length-ordered little n (value / 256))
length-ordered big zero value = refl
length-ordered big (suc n) value = omega (
  arith,
  length-append (big_bytes n (value / 256)) (value % 256 ∷ []),
  length-ordered big n (value / 256),
)

unequal : (a b : ℕ) → (a == b) ≡ false → a ≢ b
unequal a b h e = ground arith

module _ (payload expected : Bytes) where
  -- A model that gives the expected bytes in one of some byte orders.
  pub record Gives (orders : List ByteOrder) (m : CrcModel) (c : CrcMatch) : Type 0 where
    pub same_model : c.model ≡ m
    pub its_crc : c.value ≡ compute m payload
    pub wanted_order : Member c.byteorder orders
    pub same_bytes : ordered c.byteorder (byte_width m) (compute m payload) ≡ expected

  abbrev Tried : List ByteOrder → CrcModel → Option (Option CrcMatch) → Type 0
  Tried orders m none = ⊥
  Tried orders m (some none) =
      (o : ByteOrder) → Member o orders → ordered o (byte_width m) (compute m payload) ≢ expected
  Tried orders m (some (some c)) = Gives orders m c

  later-Gives :
      (o : ByteOrder) (orders : List ByteOrder) (m : CrcModel) (c : CrcMatch)
      → Gives orders m c
      → Gives (o ∷ orders) m c
  later-Gives o orders m c g = record {
    same_model = g.same_model;
    its_crc = g.its_crc;
    wanted_order = inr g.wanted_order;
    same_bytes = g.same_bytes;
  }

  try_orders-Tried :
      (orders : List ByteOrder) (m : CrcModel)
      → Tried orders m (try_orders orders m (compute m payload) expected)
  try_orders-Tried [] m = λ o h e. h
  try_orders-Tried (o ∷ orders) m =
      subst
        (λ b. Tried (o ∷ orders) m (
          try_bytes b expected (record { model = m; byteorder = o; value = compute m payload })
            (try_orders orders m (compute m payload) expected)))
        (sym (to_bytes-compute m payload o))
        (tried (try_orders orders m (compute m payload) expected) (try_orders-Tried orders m))
    where
      bytes : Bytes
      bytes = ordered o (byte_width m) (compute m payload)

      tried :
          (r : Option (Option CrcMatch))
          → Tried orders m r
          → Tried (o ∷ orders) m (
              try_bytes
                (some bytes)
                expected
                (record { model = m; byteorder = o; value = compute m payload })
                r)
      tried r t = elim (Bool-cases (same_bytes bytes expected)) [
        | inl h ↦ rw h (record {
          same_model = refl;
          its_crc = refl;
          wanted_order = inl refl;
          same_bytes = same_bytes-eq bytes expected h;
        })
        | inr h ↦ rw h (others r t h)
      ]
        where
          others :
              (q : Option (Option CrcMatch))
              → Tried orders m q
              → same_bytes bytes expected ≡ false
              → Tried (o ∷ orders) m q
          others none t h = t
          others (some (some c)) t h = later-Gives o orders m c t
          others (some none) t h = λ p member e. elim member [
            | inl is ↦
                let fits : same_bytes bytes expected ≡ true =
                  subst (λ z. same_bytes z expected ≡ true)
                    (sym (ap (λ z. ordered z (byte_width m) (compute m payload)) (sym is) ∙ e))
                    (same_bytes_refl expected) in
                cc
            | inr later ↦ t p later e
          ]

  pub record Searched (orders : List ByteOrder) (models : List CrcModel)
      (r : Option (List CrcMatch)) : Type 0 where
    pub matches : List CrcMatch
    pub answered : r ≡ some matches
    pub sound : All (λ c. (m : CrcModel) × Member m models × Gives orders m c) matches
    pub complete :
        (m : CrcModel) (o : ByteOrder)
        → Member m models
        → Member o orders
        → ordered o (byte_width m) (compute m payload) ≡ expected
        → (c : CrcMatch) × Member c matches × Gives orders m c

  -- A model that is skipped, or tried, before the rest of the catalogue.
  Searched-skip :
      (orders : List ByteOrder) (m : CrcModel) (models : List CrcModel) (r : Option (List CrcMatch))
      → ((o : ByteOrder)
          → Member o orders
          → ordered o (byte_width m) (compute m payload) ≢ expected)
      → Searched orders models r
      → Searched orders (m ∷ models) r
  Searched-skip orders m models r no_order s = record {
    matches = s.matches;
    answered = s.answered;
    sound = All-map _ _ s.matches (λ c (n, h, g). (n, inr h, g)) s.sound;
    complete = λ n o h w e. elim h [
      | inl is ↦
          absurd
            (no_order o w (ap (λ z. ordered o (byte_width z) (compute z payload)) (sym is) ∙ e))
      | inr later ↦ s.complete n o later w e
    ];
  }

  Searched-add :
      (orders : List ByteOrder) (m : CrcModel) (models : List CrcModel) (r : Option (List CrcMatch))
      (c : CrcMatch)
      → Gives orders m c
      → Searched orders models r
      → Searched orders (m ∷ models) (add_match (some (some c)) r)
  Searched-add orders m models r c g s = record {
    matches = c ∷ s.matches;
    answered = ap (add_match (some (some c))) s.answered;
    sound = ((m, inl refl, g), All-map _ _ s.matches (λ d (n, h, g'). (n, inr h, g')) s.sound);
    complete = λ n o h w e. elim h [
      | inl is ↦ (c, inl refl, subst (λ z. Gives orders z c) (sym is) g)
      | inr later ↦ let found = s.complete n o later w e in (found.0, inr found.1, found.2)
    ];
  }

  -- Whatever the catalogue, the byte orders and the bytes, `crc_candidates` answers, without an
  -- overflow, exactly the models whose CRC of the payload reads as the expected bytes in one of the
  -- byte orders, each with its CRC and such an order.
  pub crc_candidates-Searched :
      (models : List CrcModel) (orders : List ByteOrder)
      → Searched orders models (crc_candidates models payload expected orders)
  unfolding crc_candidates
  crc_candidates-Searched [] orders = record {
    matches = [];
    answered = refl;
    sound = tt;
    complete = λ m o h. absurd h;
  }
  crc_candidates-Searched (m ∷ models) orders =
      elim (Bool-cases (byte_width m == length expected)) [
        | inr other ↦ rw other (
            Searched-skip orders m models _
              (λ o w e.
                unequal (byte_width m) (length expected) other
                  (sym (length-ordered o (byte_width m) (compute m payload)) ∙ ap length e))
              (crc_candidates-Searched models orders))
        | inl same ↦ rw same (
            tried (try_orders orders m (compute m payload) expected) (try_orders-Tried orders m)
              (crc_candidates-Searched models orders))
      ]
    where
      tried :
          (t : Option (Option CrcMatch))
          → Tried orders m t
          → Searched orders models (crc_candidates models payload expected orders)
          → Searched orders
              (m ∷ models)
              (add_match t (crc_candidates models payload expected orders))
      tried none h s = absurd h
      tried (some none) h s = Searched-skip orders m models _ h s
      tried (some (some c)) h s = Searched-add orders m models _ c h s
