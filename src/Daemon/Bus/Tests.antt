-- ===== src/Daemon/Bus/Tests.antt =====
-- The event bus on concrete events.
use field_deck.Prelude.{ℕ, true, none, some, List, [], ◌∷◌, ◌≡◌, refl, arith}
use field_deck.Daemon.Bus.{
  BusEvent, EventBus, new_bus, subscribe, add_sink, recent, new_subscription,
}
use field_deck.Daemon.Bus.Window.{IsWindow}
use field_deck.Daemon.Bus.Uses.{Use, posted, taken, use_all, use_all-IsWindow}
use field_deck.Daemon.Bus.Fanout.{IsFanout, publish_all, publish_all-IsFanout}
use field_deck.Daemon.Bus.Recent.{recent-newest}

abbrev lease_note : ℕ → BusEvent
lease_note n = record { seq = n; type = "LEASE_ACQUIRED"; session_id = none; monotonic_ns = n }

abbrev stop_note : ℕ → BusEvent
stop_note n = record { seq = n; type = "ESTOP"; session_id = none; monotonic_ns = n }

abbrev busy_uses : List Use
busy_uses =
    posted (lease_note 1)
    ∷ posted (stop_note 2)
    ∷ taken
    ∷ posted (lease_note 3)
    ∷ posted (lease_note 4)
    ∷ []

use_all-IsWindow_example :
    IsWindow
      (lease_note 1 ∷ lease_note 3 ∷ lease_note 4 ∷ [])
      (use_all busy_uses ([], new_subscription 1 1 ("LEASE_ACQUIRED" ∷ []) none)).0
      (use_all busy_uses ([], new_subscription 1 1 ("LEASE_ACQUIRED" ∷ []) none)).1
use_all-IsWindow_example = use_all-IsWindow busy_uses 1 1 ("LEASE_ACQUIRED" ∷ []) none

abbrev two_events : List BusEvent
two_events = lease_note 1 ∷ stop_note 2 ∷ []

abbrev short_bus : EventBus
short_bus = add_sink 9 (subscribe 1 4 [] none (new_bus 1))

publish_all-IsFanout_example :
    IsFanout [] two_events short_bus (publish_all (λ i e. true) two_events short_bus)
publish_all-IsFanout_example = publish_all-IsFanout (λ i e. true) two_events short_bus refl

abbrev full_bus : EventBus
full_bus = record (new_bus 10) { history = lease_note 1 ∷ stop_note 2 ∷ stop_note 5 ∷ [] }

recent-newest_example : recent 1 ("ESTOP" ∷ []) (some 2) full_bus ≡ stop_note 5 ∷ []
recent-newest_example =
    recent-newest 1 ("ESTOP" ∷ []) (some 2) full_bus
      ((omega arith, (omega arith, tt)), ((omega arith, tt), (tt, tt)))
