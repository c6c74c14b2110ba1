-- ===== src/Daemon/Interleaving.antt =====
-- What other tasks may do while a handler of fielddeck/daemon/dispatcher.py is awaited: each turn
-- runs from one await to the next.
pub mod Monotone
pub mod Overtaken
pub mod Started
use field_deck.Prelude.{ℕ, String, Option, List, [], ◌∷◌}
use field_deck.Safety.Limits.{Value, Floats}
use field_deck.Safety.Manager.History.{Call, step}
use field_deck.Daemon.State.{Dispatcher, ActionRequest, Running}
use field_deck.Daemon.Begin.{begin}
use field_deck.Daemon.SafeState.{SafeOutcome, apply_safe_state}
use field_deck.Daemon.Finish.{Outcome, finish}

pub data Turn : Type 0 where
  begins : Floats → (Value → Option ℕ) → ActionRequest → Option ℕ → String → ℕ → Turn
  finishes : Outcome → Running → (String → SafeOutcome) → ℕ → Turn
  safes : Option (List String) → (String → SafeOutcome) → Turn
  manages : ℕ → Call → Turn

unfoldable pub turn : Turn → Dispatcher → Dispatcher
turn (begins fl duration request connection_id new_id now) d =
    (begin fl duration request connection_id new_id now d).1
turn (finishes o r outcome now) d = (finish o r outcome now d).1
turn (safes ids outcome) d = (apply_safe_state ids outcome d).1
turn (manages now c) d = record d { safety = step now c d.safety }

unfoldable pub turns : List Turn → Dispatcher → Dispatcher
turns [] d = d
turns (t ∷ ts) d = turns ts (turn t d)
