-- ===== src/Safety/Manager/History.antt =====
-- Histories of the manager: the calls that the daemon makes, each with the clock's reading, and the
-- state that a list of them leads to. A call that raises leaves what it wrote before it raised.
use field_deck.Prelude.{ℕ, String, Bool, Option, List, [], ◌∷◌}
use field_deck.Common.Errors.{Result, ok, err}
use field_deck.Common.Permission.{PermissionLevel, ClientSource}
use field_deck.Safety.Grant.{ArmScope}
use field_deck.Safety.Lease
use field_deck.Safety.Lease.{OutputLease, Leases}
use field_deck.Safety.Manager.{
  SafetyManager, authorize, arm, disarm, engage_estop, acknowledge_estop, sweep,
}

pub data Call : Type 0 where
  authorizes : String → PermissionLevel → Option String → ClientSource → Bool → Call
  arms : PermissionLevel → Option ℕ → ClientSource → Option ArmScope → String → Call
  disarms : ClientSource → Option String → Call
  engages : String → ClientSource → Call
  acknowledges : ClientSource → Call
  sweeps : Call
  acquires : String → String → ClientSource → ℕ → Option ℕ → String → Call
  renews : String → Option ℕ → Option ℕ → Call
  releases : String → Call
  disconnects : ℕ → Call

abbrev pub after_leases : SafetyManager → Result (OutputLease × Leases) → SafetyManager
after_leases s (ok (l, ls)) = record s { leases = ls }
after_leases s (err e) = s

unfoldable pub step : ℕ → Call → SafetyManager → SafetyManager
step now (authorizes a p d src allowed) s = (authorize a p d src allowed now s).1
step now (arms p ttl src scope i) s = (arm p ttl src scope i now s).1
step now (disarms src i) s = (disarm src i now s).1
step now (engages reason src) s = (engage_estop reason src now s).1
step now (acknowledges src) s = (acknowledge_estop src s).1
step now sweeps s = (sweep now s).1
step now (acquires d a src ttl c i) s = after_leases s (Lease.acquire d a src ttl c i now s.leases)
step now (renews i ttl c) s = after_leases s (Lease.renew i ttl c now s.leases)
step now (releases i) s = record s { leases = (Lease.release i s.leases).1 }
step now (disconnects c) s = record s { leases = (Lease.take_for_connection c s.leases).1 }

unfoldable pub run : List (ℕ × Call) → SafetyManager → SafetyManager
run [] s = s
run ((now, c) ∷ cs) s = run cs (step now c s)
