-- ===== src/Daemon/Bus/Window.antt =====
-- A subscription of the event bus: what its queue holds, and what it lost, as an event is offered.
use field_deck.Prelude.{
  ℕ, suc, ◌+◌, ◌≤◌, ◌<◌, Bool, true, false, not, ◌&&◌, ◌||◌, List, [], ◌∷◌, ◌++◌, drop, length,
  length-append, append_assoc, if◌then◌else◌, ltb, leb, ◌≡◌, refl, sym, ap, ◌∙◌, arith, subst,
}
use field_deck.Daemon.Bus.{
  BusEvent, Subscription, wants, is_full, put, put_or_count, lose_oldest, offer,
}
use field_deck.Daemon.Bus.Part.{
  IsPartOf, drop_last_in, drop_one_more, one-IsPartOf, middle-IsPartOf,
}

-- A subscription against the events that it wanted so far and those its reader has received: the
-- queue is the rest of the former after the received and the lost ones, which are counted exactly,
-- and everything stays in order.
pub record IsWindow (seen received : List BusEvent) (s : Subscription) : Type 0 where
  pub window : s.queue ≡ drop (length received + s.dropped) seen
  pub counted : length received + s.dropped + length s.queue ≡ length seen
  pub in_order : IsPartOf (received ++ s.queue) seen
  pub bounded : 0 < s.maxsize → length s.queue ≤ s.maxsize

put_fits : (m n : ℕ) → 0 < m → (ltb 0 m && leb m n) ≡ false → n < m
put_fits m n p h = ground arith

put-IsWindow :
    (e : BusEvent) (seen received : List BusEvent) (s : Subscription)
    → is_full s ≡ false
    → IsWindow seen received s
    → IsWindow (seen ++ e ∷ []) received (put e s)
put-IsWindow e seen received s room w = record {
  window =
      ap (λ q. q ++ e ∷ []) w.window
      ∙ sym (drop_last_in (length received + s.dropped) seen (e ∷ []) (omega (arith, w.counted)));
  counted = omega (arith, w.counted, length-append s.queue (e ∷ []), length-append seen (e ∷ []));
  in_order =
      subst (λ xs. IsPartOf xs (seen ++ e ∷ [])) (append_assoc received s.queue (e ∷ []))
        (one-IsPartOf e (received ++ s.queue) seen w.in_order);
  bounded = λ p.
      omega (arith, put_fits s.maxsize (length s.queue) p room, length-append s.queue (e ∷ []));
}

lose_oldest-IsWindow :
    (seen received xs : List BusEvent) (x : BusEvent) (s : Subscription)
    → s.queue ≡ x ∷ xs
    → IsWindow seen received s
    → IsWindow seen received (lose_oldest (x ∷ xs) s)
lose_oldest-IsWindow seen received xs x s q w =
    let m = drop_one_more (length received + s.dropped) seen x xs (sym w.window ∙ q) in
    record {
      window = sym (
          subst (λ n. drop n seen ≡ xs)
            (let n : suc (length received + s.dropped) ≡ length received + (s.dropped + 1) =
                omega arith in
              n)
            m.0);
      counted = omega (arith, w.counted, ap length q);
      in_order =
          middle-IsPartOf received x xs seen
            (subst (λ us. IsPartOf (received ++ us) seen) q w.in_order);
      bounded = λ p. omega (arith, w.bounded p, ap length q);
    }

full_size : (m n : ℕ) → (ltb 0 m && leb m n) ≡ true → (0 < m) × (m ≤ n)
full_size m n h = (ground arith, ground arith)

less_than_full : (m k : ℕ) → k < m → (ltb 0 m && leb m k) ≡ false
less_than_full m k h = ground arith

one_less :
    (m n k : ℕ)
    → (ltb 0 m && leb m n) ≡ true
    → (0 < m → n ≤ m)
    → n ≡ suc k
    → (ltb 0 m && leb m k) ≡ false
one_less m n k h b e = let f = full_size m n h in less_than_full m k (omega (arith, e, f.1, b f.0))

-- The second attempt of a full queue succeeds: it has just given up an event.
retry-IsWindow :
    (e : BusEvent) (seen received q : List BusEvent) (s : Subscription)
    → s.queue ≡ q
    → is_full s ≡ true
    → IsWindow seen received s
    → IsWindow (seen ++ e ∷ []) received (put_or_count e (lose_oldest q s))
retry-IsWindow e seen received [] s is full w = absurd (ground (arith, ap length is))
retry-IsWindow e seen received (x ∷ xs) s is full w =
    let room : is_full (lose_oldest (x ∷ xs) s) ≡ false =
      one_less s.maxsize (length s.queue) (length xs) full w.bounded (ap length is) in
    rw room (
      put-IsWindow e seen received (lose_oldest (x ∷ xs) s) room
        (lose_oldest-IsWindow seen received xs x s is w))

abbrev pub seen_with : Subscription → BusEvent → List BusEvent → List BusEvent
seen_with s e seen = if wants s e then seen ++ e ∷ [] else seen

-- `offer` by the answers of its three tests.
pub offer_by :
    (e : BusEvent) (s : Subscription) (c w f : Bool)
    → s.closed ≡ c
    → wants s e ≡ w
    → is_full s ≡ f
    → offer e s
      ≡ (if c || not w then s else if f then put_or_count e (lose_oldest s.queue s) else put e s)
unfolding offer
offer_by e s c w f hc hw hf =
    ap (λ b. if b || not (wants s e) then s else if is_full s then retried else put e s) hc
    ∙ ap (λ b. if c || not b then s else if is_full s then retried else put e s) hw
    ∙ ap (λ b. if c || not w then s else if b then retried else put e s) hf
  where
    retried : Subscription
    retried = put_or_count e (lose_oldest s.queue s)

pub offer-IsWindow :
    (e : BusEvent) (seen received : List BusEvent) (s : Subscription)
    → s.closed ≡ false
    → IsWindow seen received s
    → IsWindow (seen_with s e seen) received (offer e s)
offer-IsWindow e seen received s open_still w = by_tests (wants s e) (is_full s) refl refl
  where
    by_tests :
        (b f : Bool)
        → wants s e ≡ b
        → is_full s ≡ f
        → IsWindow (if b then seen ++ e ∷ [] else seen) received (offer e s)
    by_tests false f hw hf =
        subst (IsWindow seen received) (sym (offer_by e s false false f open_still hw hf)) w
    by_tests true true hw hf =
        subst (IsWindow (seen ++ e ∷ []) received)
          (sym (offer_by e s false true true open_still hw hf))
          (retry-IsWindow e seen received s.queue s refl hf w)
    by_tests true false hw hf =
        subst (IsWindow (seen ++ e ∷ []) received)
          (sym (offer_by e s false true false open_still hw hf))
          (put-IsWindow e seen received s hf w)
