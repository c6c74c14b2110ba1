-- ===== src/Daemon/Bus/Uses.antt =====
-- The life of a subscription of the event bus: events are published, and its reader takes them.
use field_deck.Prelude.{
  ℕ, suc, ◌+◌, String, Bool, true, false, not, ◌||◌, Option, none, some, List, [], ◌∷◌, ◌++◌, drop,
  length, length-append, append_assoc, append-nil, if◌then◌else◌, ◌≡◌, refl, sym, ap, ◌∙◌, arith,
  subst,
}
use field_deck.Daemon.Bus.{
  BusEvent, Subscription, wants, is_full, put, put_or_count, lose_oldest, offer, got, get,
  new_subscription,
}
use field_deck.Daemon.Bus.Part.{IsPartOf, drop_one_more}
use field_deck.Daemon.Bus.Window.{IsWindow, offer-IsWindow, seen_with}

-- A subscription's life: events are published, and its reader takes what there is.
pub data Use : Type 0 where
  posted : BusEvent → Use
  taken : Use

abbrev receive :
    List BusEvent → Subscription → Option (BusEvent × Subscription) → List BusEvent × Subscription
receive received s none = (received, s)
receive received s (some (e, s')) = (received ++ e ∷ [], s')

abbrev use_once : Use → List BusEvent × Subscription → List BusEvent × Subscription
use_once (posted e) (received, s) = (received, offer e s)
use_once taken (received, s) = receive received s (get s)

unfoldable pub use_all : List Use → List BusEvent × Subscription → List BusEvent × Subscription
unfolding offer get
use_all [] o = o
use_all (u ∷ us) o = use_all us (use_once u o)

-- The events that a subscription wants, of those published.
abbrev pub wanted_of : Subscription → List Use → List BusEvent
wanted_of s [] = []
wanted_of s (taken ∷ us) = wanted_of s us
wanted_of s (posted e ∷ us) = if wants s e then e ∷ wanted_of s us else wanted_of s us

-- What no use of a subscription changes.
record SameFilter (s s' : Subscription) : Type 0 where
  types : s'.types ≡ s.types
  session_id : s'.session_id ≡ s.session_id
  closed : s'.closed ≡ s.closed
  maxsize : s'.maxsize ≡ s.maxsize

offer-SameFilter : (e : BusEvent) (s : Subscription) → SameFilter s (offer e s)
unfolding offer
offer-SameFilter e s = filtered s.queue
  where
    filtered :
        (q : List BusEvent)
        → SameFilter s (
            if s.closed || not (wants s e)
            then s
            else if is_full s
            then put_or_count e (lose_oldest q s)
            else put e s)
    filtered [] = record {
      types = ground arith;
      session_id = ground arith;
      closed = ground arith;
      maxsize = ground arith;
    }
    filtered (x ∷ xs) = record {
      types = ground arith;
      session_id = ground arith;
      closed = ground arith;
      maxsize = ground arith;
    }

wanted_of_same :
    (s s' : Subscription) (us : List Use) → SameFilter s s' → wanted_of s' us ≡ wanted_of s us
wanted_of_same s s' [] f = refl
wanted_of_same s s' (taken ∷ us) f = wanted_of_same s s' us f
wanted_of_same s s' (posted e ∷ us) f =
    let same : wants s' e ≡ wants s e = rw (f.types, f.session_id) refl in
    rw (same, wanted_of_same s s' us f) refl

-- What the reader takes moves from the queue to the received events.
take-IsWindow :
    (seen received xs : List BusEvent) (x : BusEvent) (s : Subscription)
    → s.queue ≡ x ∷ xs
    → IsWindow seen received s
    → IsWindow seen (received ++ x ∷ []) (record s { queue = xs })
take-IsWindow seen received xs x s q w =
    let m = drop_one_more (length received + s.dropped) seen x xs (sym w.window ∙ q) in
    let n : suc (length received + s.dropped) ≡ length (received ++ x ∷ []) + s.dropped =
      omega (arith, length-append received (x ∷ [])) in
    record {
      window = sym (subst (λ k. drop k seen ≡ xs) n m.0);
      counted = omega (arith, w.counted, ap length q, length-append received (x ∷ []));
      in_order =
          subst (λ us. IsPartOf us seen)
            (ap (λ us. received ++ us) q ∙ sym (append_assoc received (x ∷ []) xs)) w.in_order;
      bounded = λ p. omega (arith, w.bounded p, ap length q);
    }

seen_grows :
    (e : BusEvent) (us : List Use) (seen : List BusEvent) (s : Subscription)
    → seen_with s e seen ++ wanted_of (offer e s) us ≡ seen ++ wanted_of s (posted e ∷ us)
seen_grows e us seen s =
    ap (λ es. seen_with s e seen ++ es) (wanted_of_same s (offer e s) us (offer-SameFilter e s))
    ∙ grows (wants s e)
  where
    grows :
        (b : Bool)
        → (if b then seen ++ e ∷ [] else seen) ++ wanted_of s us
          ≡ seen ++ (if b then e ∷ wanted_of s us else wanted_of s us)
    grows true = append_assoc seen (e ∷ []) (wanted_of s us)
    grows false = refl

-- A subscription that is used from some state on.
use_all_from-IsWindow :
    (us : List Use) (seen received : List BusEvent) (s : Subscription)
    → s.closed ≡ false
    → IsWindow seen received s
    → IsWindow (seen ++ wanted_of s us) (use_all us (received, s)).0 (use_all us (received, s)).1
unfolding use_all get
use_all_from-IsWindow [] seen received s o w =
    subst (λ es. IsWindow es received s) (sym (append-nil seen)) w
use_all_from-IsWindow (posted e ∷ us) seen received s o w =
    let f = offer-SameFilter e s in
    let rest =
      use_all_from-IsWindow us (seen_with s e seen) received (offer e s) (f.closed ∙ o)
        (offer-IsWindow e seen received s o w) in
    subst
      (λ es. IsWindow es (use_all us (received, offer e s)).0 (use_all us (received, offer e s)).1)
      (seen_grows e us seen s) rest
use_all_from-IsWindow (taken ∷ us) seen received s o w =
    taking s.queue refl (use_all_from-IsWindow us seen)
  where
    taking :
        (q : List BusEvent)
        → s.queue ≡ q
        → ((r : List BusEvent) (z : Subscription)
            → z.closed ≡ false
            → IsWindow seen r z
            → IsWindow (seen ++ wanted_of z us) (use_all us (r, z)).0 (use_all us (r, z)).1)
        → IsWindow
            (seen ++ wanted_of s us)
            (use_all us (receive received s (got q s))).0
            (use_all us (receive received s (got q s))).1
    taking [] is later = later received s o w
    taking (x ∷ xs) is later =
        let s' : Subscription = record s { queue = xs } in
        subst
          (λ es.
            IsWindow (seen ++ es) (use_all us (received ++ x ∷ [], s')).0
              (use_all us (received ++ x ∷ [], s')).1)
          (wanted_of_same s s' us
            (record { types = refl; session_id = refl; closed = refl; maxsize = refl }))
          (later (received ++ x ∷ []) s' o (take-IsWindow seen received xs x s is w))

-- Whatever is published and whenever its reader takes an event, a new subscription holds exactly the
-- newest of the events that it wants, in order: those received, those lost and those still queued
-- are all of them, what is received or queued stays in order, the lost are counted, and the queue
-- never grows past its size, where it has one.
pub use_all-IsWindow :
    (us : List Use) (handle maxsize : ℕ) (types : List String) (session_id : Option String)
    → IsWindow
        (wanted_of (new_subscription handle maxsize types session_id) us)
        (use_all us ([], new_subscription handle maxsize types session_id)).0
        (use_all us ([], new_subscription handle maxsize types session_id)).1
use_all-IsWindow us handle maxsize types session_id =
    use_all_from-IsWindow us [] [] (new_subscription handle maxsize types session_id) refl
      (record { window = refl; counted = refl; in_order = refl; bounded = λ p. omega arith })
