-- ===== src/Daemon/Service/Tests.antt =====
-- The daemon's service on a bench with two supplies, of which one has a live output.
use field_deck.Prelude.{String, true, false, some, [], ◌∷◌, ◌≡◌, refl}
use field_deck.Common.Permission.{claude}
use field_deck.Safety.Lease
use field_deck.Safety.Lease.{has_lapsed, held_by}
use field_deck.Daemon.SafeState.{SafeOutcome, timed_out}
use field_deck.Daemon.Tests.{overtaken, all_applied}
use field_deck.Daemon.Service.{Service, safety_tick, on_disconnect, rpc_safety_estop}
use field_deck.Daemon.Service.Lapse.{TakenSafe, safety_tick-TakenSafe, on_disconnect-TakenSafe}
use field_deck.Daemon.Service.Stop.{IsHalted, rpc_safety_estop-IsHalted}

abbrev live_bench : Service
live_bench = record {
  dispatcher = overtaken;
  running = record { request_id = some "r1"; cancelable = true; told = false; torn = false } ∷ [];
}

abbrev one_hangs : String → SafeOutcome
one_hangs i = timed_out

ticked : (safety_tick 900 all_applied live_bench).0 ≡ ("psu1", true) ∷ []
unfolding safety_tick Lease.sweep
ticked = refl

safety_tick-TakenSafe_example :
    TakenSafe (has_lapsed 900) all_applied live_bench (safety_tick 900 all_applied live_bench)
safety_tick-TakenSafe_example = safety_tick-TakenSafe 900 all_applied live_bench

on_disconnect-TakenSafe_example :
    TakenSafe (held_by 7) all_applied live_bench (on_disconnect 7 all_applied live_bench)
on_disconnect-TakenSafe_example = on_disconnect-TakenSafe 7 all_applied live_bench

rpc_safety_estop-IsHalted_example :
    IsHalted 5 one_hangs live_bench
      (rpc_safety_estop "smoke" claude 5 one_hangs live_bench).0
      (rpc_safety_estop "smoke" claude 5 one_hangs live_bench).1
rpc_safety_estop-IsHalted_example = rpc_safety_estop-IsHalted "smoke" claude 5 one_hangs live_bench
