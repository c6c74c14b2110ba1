-- ===== src/Daemon/Bus/Fanout.antt =====
-- What `EventBus.publish` brings to the history, to the sinks and to the subscriptions.
use field_deck.Prelude.{
  drop_none, drop-drop, ℕ, ◌+◌, ◌-◌, ◌≤◌, Bool, false, List, [], ◌∷◌, ◌++◌, drop, map, length,
  length-append, length-drop, append_assoc, append-nil, if◌then◌else◌, ltb, ◌≡◌, refl, sym, ap, ◌∙◌,
  inl, inr, arith, Bool-cases, ltb→lt,
}
use field_deck.Daemon.Bus.{
  BusEvent, Subscription, EventBus, offer, publish, sink_all, offer_each, remember,
}
use field_deck.Daemon.Bus.Part.{drop_last_in}

unfoldable pub publish_all : (ℕ → BusEvent → Bool) → List BusEvent → EventBus → EventBus
unfolding publish
publish_all raises [] b = b
publish_all raises (e ∷ es) b = publish_all raises es (publish raises e b)

unfoldable pub offer_all : List BusEvent → Subscription → Subscription
unfolding offer
offer_all [] s = s
offer_all (e ∷ es) s = offer_all es (offer e s)

-- Every event, to every sink, in order.
abbrev pub calls : List BusEvent → List ℕ → List (ℕ × BusEvent)
calls [] sinks = []
calls (e ∷ es) sinks = map (λ i. (i, e)) sinks ++ calls es sinks

not_ltb : (a b : ℕ) → ltb a b ≡ false → b ≤ a
not_ltb a b h = ground arith

-- The history is the last part of what was published, as long as its limit allows.
remember_newest :
    (limit : ℕ) (e : BusEvent) (h seen : List BusEvent)
    → h ≡ drop (length seen - limit) seen
    → remember limit e h ≡ drop (length (seen ++ e ∷ []) - limit) (seen ++ e ∷ [])
remember_newest limit e h seen is = elim (Bool-cases (ltb limit (length (h ++ e ∷ [])))) [
  | inl t ↦
      let beyond : length seen - limit + 1 ≡ length (seen ++ e ∷ []) - limit = omega (
        arith,
        ltb→lt limit (length (h ++ e ∷ [])) t,
        ap length is,
        length-drop (length seen - limit) seen,
        length-append h (e ∷ []),
        length-append seen (e ∷ []),
      ) in
      rw t (
        ap (drop 1) grown
        ∙ drop-drop (length seen - limit) 1 (seen ++ e ∷ [])
        ∙ ap (λ n. drop n (seen ++ e ∷ [])) beyond)
  | inr t ↦
      let within : length seen - limit ≡ length (seen ++ e ∷ []) - limit = omega (
        arith,
        not_ltb limit (length (h ++ e ∷ [])) t,
        ap length is,
        length-drop (length seen - limit) seen,
        length-append h (e ∷ []),
        length-append seen (e ∷ []),
      ) in
      rw t (grown ∙ ap (λ n. drop n (seen ++ e ∷ [])) within)
]
  where
    grown : h ++ e ∷ [] ≡ drop (length seen - limit) (seen ++ e ∷ [])
    grown =
        ap (λ us. us ++ e ∷ []) is
        ∙ sym (drop_last_in (length seen - limit) seen (e ∷ []) (omega arith))

-- What the calls of the sinks do to the bus, and what they leave.
record Sunk (e : BusEvent) (sinks : List ℕ) (b b' : EventBus) : Type 0 where
  subscriptions : b'.subscriptions ≡ b.subscriptions
  same_sinks : b'.sinks ≡ b.sinks
  history : b'.history ≡ b.history
  history_limit : b'.history_limit ≡ b.history_limit
  published : b'.published ≡ b.published
  sunk : b'.sunk ≡ b.sunk ++ map (λ i. (i, e)) sinks

sink_all-Sunk :
    (raises : ℕ → BusEvent → Bool) (e : BusEvent) (sinks : List ℕ) (b : EventBus)
    → Sunk e sinks b (sink_all raises e sinks b)
sink_all-Sunk raises e [] b = record {
  subscriptions = refl;
  same_sinks = refl;
  history = refl;
  history_limit = refl;
  published = refl;
  sunk = sym (append-nil b.sunk);
}
sink_all-Sunk raises e (i ∷ is) b =
    let z = sink_all-Sunk raises e is (record b {
      sunk = b.sunk ++ (i, e) ∷ [];
      sink_failures = if raises i e then b.sink_failures + 1 else b.sink_failures;
    }) in
    record {
      subscriptions = z.subscriptions;
      same_sinks = z.same_sinks;
      history = z.history;
      history_limit = z.history_limit;
      published = z.published;
      sunk = z.sunk ∙ append_assoc b.sunk ((i, e) ∷ []) (map (λ i. (i, e)) is);
    }

offer_all_each :
    (e : BusEvent) (es : List BusEvent) (ss : List Subscription)
    → map (offer_all es) (offer_each e ss) ≡ map (offer_all (e ∷ es)) ss
unfolding offer_all
offer_all_each e es [] = refl
offer_all_each e es (s ∷ ss) = ap (λ us. offer_all es (offer e s) ∷ us) (offer_all_each e es ss)

-- A bus that has published more events, after those it had published before.
pub record IsFanout (seen es : List BusEvent) (b b' : EventBus) : Type 0 where
  pub history : b'.history ≡ drop (length (seen ++ es) - b.history_limit) (seen ++ es)
  pub published : b'.published ≡ b.published + length es
  pub sunk : b'.sunk ≡ b.sunk ++ calls es b.sinks
  pub subscriptions : b'.subscriptions ≡ map (offer_all es) b.subscriptions

map_id : (ss : List Subscription) → map (offer_all []) ss ≡ ss
unfolding offer_all
map_id [] = refl
map_id (s ∷ ss) = ap (λ us. s ∷ us) (map_id ss)

publish_all_after :
    (raises : ℕ → BusEvent → Bool) (es seen : List BusEvent) (b : EventBus)
    → b.history ≡ drop (length seen - b.history_limit) seen
    → IsFanout seen es b (publish_all raises es b)
unfolding publish_all
publish_all_after raises [] seen b h = record {
  history = rw (append-nil seen) h;
  published = omega arith;
  sunk = sym (append-nil b.sunk);
  subscriptions = sym (map_id b.subscriptions);
}
publish_all_after raises (e ∷ es) seen b h =
    let s =
      sink_all-Sunk raises e b.sinks (record b {
        history = remember b.history_limit e b.history;
        published = b.published + 1;
      }) in
    let z = publish_all_after raises es (seen ++ e ∷ []) (publish raises e b) (
      s.history
      ∙ remember_newest b.history_limit e b.history seen h
      ∙ ap (λ n. drop (length (seen ++ e ∷ []) - n) (seen ++ e ∷ [])) (sym s.history_limit)) in
    record {
      history =
          z.history
          ∙ ap (λ n. drop (length ((seen ++ e ∷ []) ++ es) - n) ((seen ++ e ∷ []) ++ es))
              s.history_limit
          ∙ ap (λ us. drop (length us - b.history_limit) us) (append_assoc seen (e ∷ []) es);
      published = omega (arith, z.published, s.published);
      sunk =
          z.sunk
          ∙ ap (λ us. us ++ calls es (publish raises e b).sinks) s.sunk
          ∙ ap (λ is. (b.sunk ++ map (λ i. (i, e)) b.sinks) ++ calls es is) s.same_sinks
          ∙ append_assoc b.sunk (map (λ i. (i, e)) b.sinks) (calls es b.sinks);
      subscriptions =
          z.subscriptions
          ∙ ap (λ ss. map (offer_all es) (offer_each e ss)) s.subscriptions
          ∙ offer_all_each e es b.subscriptions;
    }

-- Whichever sinks raise, a bus that has published nothing yet brings every event to every sink in
-- order and offers it to every subscription in turn, counts it, and keeps the newest events, as many
-- as its history has room for.
pub publish_all-IsFanout :
    (raises : ℕ → BusEvent → Bool) (es : List BusEvent) (b : EventBus)
    → b.history ≡ []
    → IsFanout [] es b (publish_all raises es b)
publish_all-IsFanout raises es b fresh =
    publish_all_after raises es [] b (fresh ∙ sym (drop_none (0 - b.history_limit)))
