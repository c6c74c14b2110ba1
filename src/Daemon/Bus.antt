-- ===== src/Daemon/Bus.antt =====
-- fielddeck/daemon/events.py: Subscription and EventBus. A subscription that is passed around in
-- Python is told from others by its handle; the type of an event is the text of its enumeration
-- value, and its other fields, which the bus never reads, are its number.
mod Part
pub mod Window
pub mod Uses
pub mod Fanout
pub mod Recent
mod Tests
use field_deck.Prelude.{
  ℕ, ◌+◌, String, Bool, true, false, not, ◌&&◌, ◌||◌, Option, none, some, List, [], ◌∷◌, ◌++◌, any,
  drop, length, if◌then◌else◌, ltb, leb, ◌==◌, str_eq, opt_eq,
}

pub record BusEvent : Type 0 where
  pub seq : ℕ
  pub type : String
  pub session_id : Option String
  pub monotonic_ns : ℕ

-- No types stand for every type, as `frozenset(types) if types else None` has it.
pub record Subscription : Type 0 where
  pub handle : ℕ
  pub queue : List BusEvent
  pub maxsize : ℕ
  pub types : List String
  pub session_id : Option String
  pub closed : Bool
  pub dropped : ℕ

abbrev pub new_subscription : ℕ → ℕ → List String → Option String → Subscription
new_subscription handle maxsize types session_id = record {
  handle = handle;
  queue = [];
  maxsize = maxsize;
  types = types;
  session_id = session_id;
  closed = false;
  dropped = 0;
}

abbrev pub in_types : List String → String → Bool
in_types [] t = true
in_types (u ∷ us) t = any (str_eq t) (u ∷ us)

abbrev in_session : Option String → Option String → Bool
in_session none o = true
in_session (some i) o = opt_eq o (some i)

-- Subscription.wants
abbrev pub wants : Subscription → BusEvent → Bool
wants s e = in_types s.types e.type && in_session s.session_id e.session_id

-- `asyncio.Queue.full`: a queue whose size is 0 is unbounded.
abbrev pub is_full : Subscription → Bool
is_full s = ltb 0 s.maxsize && leb s.maxsize (length s.queue)

abbrev pub put : BusEvent → Subscription → Subscription
put e s = record s { queue = s.queue ++ e ∷ [] }

-- The second attempt, after the queue has given up its oldest event.
abbrev pub put_or_count : BusEvent → Subscription → Subscription
put_or_count e s = if is_full s then record s { dropped = s.dropped + 1 } else put e s

abbrev pub lose_oldest : List BusEvent → Subscription → Subscription
lose_oldest [] s = s
lose_oldest (x ∷ xs) s = record s { queue = xs; dropped = s.dropped + 1 }

-- Subscription.offer
unfoldable pub offer : BusEvent → Subscription → Subscription
offer e s =
    if s.closed || not (wants s e)
    then s
    else if is_full s
    then put_or_count e (lose_oldest s.queue s)
    else put e s

abbrev pub got : List BusEvent → Subscription → Option (BusEvent × Subscription)
got [] s = none
got (x ∷ xs) s = some (x, record s { queue = xs })

-- Subscription.get: `none` where it waits.
unfoldable pub get : Subscription → Option (BusEvent × Subscription)
get s = got s.queue s

pub record EventBus : Type 0 where
  pub subscriptions : List Subscription
  pub sinks : List ℕ
  pub history : List BusEvent
  pub history_limit : ℕ
  pub published : ℕ
  -- The calls of sinks, in order, and how many of them raised.
  pub sunk : List (ℕ × BusEvent)
  pub sink_failures : ℕ

-- EventBus.__init__
abbrev pub new_bus : ℕ → EventBus
new_bus limit = record {
  subscriptions = [];
  sinks = [];
  history = [];
  history_limit = limit;
  published = 0;
  sunk = [];
  sink_failures = 0;
}

-- `deque.append` on a deque with a limit.
abbrev pub remember : ℕ → BusEvent → List BusEvent → List BusEvent
remember limit e h = if ltb limit (length (h ++ e ∷ [])) then drop 1 (h ++ e ∷ []) else h ++ e ∷ []

-- Each sink is called, whether one before it raised or not.
abbrev pub sink_all : (ℕ → BusEvent → Bool) → BusEvent → List ℕ → EventBus → EventBus
sink_all raises e [] b = b
sink_all raises e (i ∷ is) b = sink_all raises e is (record b {
  sunk = b.sunk ++ (i, e) ∷ [];
  sink_failures = if raises i e then b.sink_failures + 1 else b.sink_failures;
})

abbrev pub offer_each : BusEvent → List Subscription → List Subscription
offer_each e [] = []
offer_each e (s ∷ ss) = offer e s ∷ offer_each e ss

abbrev pub offered : BusEvent → EventBus → EventBus
offered e b = record b { subscriptions = offer_each e b.subscriptions }

-- EventBus.publish
unfoldable pub publish : (ℕ → BusEvent → Bool) → BusEvent → EventBus → EventBus
unfolding offer
publish raises e b = offered e (
    sink_all raises e b.sinks
      (record b { history = remember b.history_limit e b.history; published = b.published + 1 }))

-- EventBus.add_sink
abbrev pub add_sink : ℕ → EventBus → EventBus
add_sink i b = record b { sinks = b.sinks ++ i ∷ [] }

abbrev remove_first : ℕ → List ℕ → List ℕ
remove_first i [] = []
remove_first i (j ∷ js) = if i == j then js else j ∷ remove_first i js

-- What `add_sink` returns.
abbrev remove_sink : ℕ → EventBus → EventBus
remove_sink i b = record b { sinks = remove_first i b.sinks }

-- EventBus.subscribe
abbrev pub subscribe : ℕ → ℕ → List String → Option String → EventBus → EventBus
subscribe handle maxsize types session_id b = record b {
  subscriptions = b.subscriptions ++ new_subscription handle maxsize types session_id ∷ [];
}

abbrev without : ℕ → List Subscription → List Subscription
without handle [] = []
without handle (s ∷ ss) = if handle == s.handle then ss else s ∷ without handle ss

-- EventBus.unsubscribe
abbrev unsubscribe : ℕ → EventBus → EventBus
unsubscribe handle b = record b { subscriptions = without handle b.subscriptions }

-- Subscription.close
abbrev close : Subscription → EventBus → Subscription × EventBus
close s b = (record s { closed = true }, unsubscribe s.handle b)

abbrev is_older : Option ℕ → BusEvent → Bool
is_older none e = false
is_older (some since) e = ltb e.monotonic_ns since

-- The loop of `recent` over the reversed history: the events found so far, newest first.
abbrev pub collect : ℕ → List String → Option ℕ → List BusEvent → List BusEvent → List BusEvent
collect limit types since [] out = out
collect limit types since (e ∷ es) out =
    let rest = collect limit types since es in
    if not (in_types types e.type)
    then rest out
    else if is_older since e
    then out
    else if leb limit (length (out ++ e ∷ []))
    then out ++ e ∷ []
    else rest (out ++ e ∷ [])

abbrev pub reverse : List BusEvent → List BusEvent
reverse [] = []
reverse (e ∷ es) = reverse es ++ e ∷ []

-- EventBus.recent
unfoldable pub recent : ℕ → List String → Option ℕ → EventBus → List BusEvent
recent limit types since b = reverse (collect limit types since (reverse b.history) [])

abbrev dropped_of : List Subscription → ℕ
dropped_of [] = 0
dropped_of (s ∷ ss) = s.dropped + dropped_of ss

record BusStats : Type 0 where
  published : ℕ
  subscribers : ℕ
  sinks : ℕ
  dropped : ℕ
  history : ℕ

-- EventBus.stats
abbrev stats : EventBus → BusStats
stats b = record {
  published = b.published;
  subscribers = length b.subscriptions;
  sinks = length b.sinks;
  dropped = dropped_of b.subscriptions;
  history = length b.history;
}
