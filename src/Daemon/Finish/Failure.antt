-- ===== src/Daemon/Finish/Failure.antt =====
-- What a handler that raises leaves behind, and that the lock is given back on every path.
use field_deck.Prelude.{
  ℕ, String, Option, none, some, keep, List, [], ◌∷◌, ◌++◌, ◌≡◌, refl, ap, subst, sym, ◌∙◌, arith,
  str_eq,
}
use field_deck.Prelude.Dict.{lookup, IsDict, lookup-erase_self}
use field_deck.Common.Errors.{Result, ok, err, ErrorCode}
use field_deck.Common.Permission.{ClientSource}
use field_deck.Common.Events.{capture_stopped}
use field_deck.Safety.Lease
use field_deck.Safety.Lease.{OutputLease}
use field_deck.Daemon.State.{Dispatcher, Running, unlock, wants_lock, capture_event}
use field_deck.Daemon.SafeState.{SafeOutcome, apply_safe_state}
use field_deck.Daemon.SafeState.Generations.{apply_safe_state-Untouched}
use field_deck.Daemon.Finish.{
  Outcome, returned, raised, finish, abandon_lease, abandoned_event, guarded_device,
  reject_if_superseded, leave_lock, handled, settled, release_leases, release_each,
  surrendering_device,
}
use field_deck.Daemon.Finish.Revert.{
  IsGone, abandon-IsGone, leave_lock-IsGone, unlock-safety, unlock-generations, abandon-generations,
}

abbrev pub IsUnlocked : Option String → Dispatcher → Type 0
IsUnlocked none d = Unit
IsUnlocked (some i) d = lookup i d.busy ≡ none

unlock-IsUnlocked : (l : Option String) (d : Dispatcher) → IsDict d.busy → IsUnlocked l (unlock l d)
unlock-IsUnlocked none d h = tt
unlock-IsUnlocked (some i) d h = lookup-erase_self i d.busy h

abandon-busy :
    (l : Option String) (device_id : Option String) (source : ClientSource) (d : Dispatcher)
    → (abandon_lease l device_id source d).busy ≡ d.busy
unfolding abandon_lease
abandon-busy none device_id source d = refl
abandon-busy (some i) device_id source d = refl

handled-busy :
    (o : Outcome) (r : Running) (outcome : String → SafeOutcome) (d : Dispatcher)
    → (handled o r outcome d).1.busy ≡ d.busy
handled-busy (raised e) r outcome d = refl
handled-busy returned r outcome d = checked (guarded_device r)
  where
    after : String → Dispatcher
    after i =
        (apply_safe_state (some (i ∷ [])) outcome
          (abandon_lease r.lease_id r.device_id r.source d)).1

    reverted_busy : (i : String) → (after i).busy ≡ d.busy
    reverted_busy i =
        (apply_safe_state-Untouched (some (i ∷ [])) outcome
          (abandon_lease r.lease_id r.device_id r.source d)).same_busy
        ∙ abandon-busy r.lease_id r.device_id r.source d

    checked : (g : Option String) → (reject_if_superseded g r outcome d).1.busy ≡ d.busy
    checked none = unfold reject_if_superseded in refl
    checked (some i) = unfold reject_if_superseded in ground (arith, reverted_busy i)

release_each-busy :
    (ls : List OutputLease) (device_id : Option String) (name : String) (source : ClientSource)
    (d : Dispatcher)
    → (release_each ls device_id name source d).busy ≡ d.busy
release_each-busy [] device_id name source d = refl
release_each-busy (l ∷ ls) device_id name source d = release_each-busy ls device_id name source _

release_leases-busy :
    (g : Option String) (r : Running) (now : ℕ) (d : Dispatcher)
    → (release_leases g r now d).busy ≡ d.busy
unfolding release_leases
release_leases-busy none r now d = refl
release_leases-busy (some i) r now d =
    release_each-busy
      (keep (λ l. str_eq l.action r.spec.name) (Lease.for_device i now d.safety.leases)) (some i)
      r.spec.name r.source d

IsUnlocked-busy :
    (l : Option String) (d e : Dispatcher) → d.busy ≡ e.busy → IsUnlocked l e → IsUnlocked l d
IsUnlocked-busy none d e h k = tt
IsUnlocked-busy (some i) d e h k = rw h k

-- If no device is listed twice among the locks, the lock of the device of an action that changes
-- state is free afterwards, however the handler ends: it returns, raises, times out, is cancelled or is overtaken by a safe state.
pub finish_unlocks :
    (o : Outcome) (r : Running) (outcome : String → SafeOutcome) (now : ℕ) (d : Dispatcher)
    → IsDict d.busy
    → IsUnlocked (wants_lock r.spec r.device_id) (finish o r outcome now d).1
unfolding finish
finish_unlocks o r outcome now d h = ended (handled o r outcome d) (handled-busy o r outcome d)
  where
    l : Option String
    l = wants_lock r.spec r.device_id

    ended :
        (q : Result (Unit {0}) × Dispatcher) → q.1.busy ≡ d.busy → IsUnlocked l (settled r now q).1
    ended (err e, d') k =
        unlock-IsUnlocked l _
          (subst IsDict (sym (abandon-busy r.lease_id r.device_id r.source d' ∙ k)) h)
    ended (ok tt, d') k =
        IsUnlocked-busy l _ (leave_lock r d')
          (release_leases-busy (surrendering_device r) r now (leave_lock r d'))
          (unlock-IsUnlocked l _ (subst IsDict (sym k) h))

-- When a handler that holds a lease raises, after a timeout for one, its output may be on already.
-- If no lease is stored twice, the lease is taken out of the store, and no safe state is asked of
-- any device: no generation moves, and the log gains the release of the lease, and the end of a
-- recording, only.
pub finish_raised :
    (e : ErrorCode) (r : Running) (outcome : String → SafeOutcome) (now : ℕ) (d : Dispatcher)
    (i : String)
    → r.lease_id ≡ some i
    → IsDict d.safety.leases
    → ((finish (raised e) r outcome now d).0 ≡ err e)
      × (lookup i (finish (raised e) r outcome now d).1.safety.leases ≡ none)
      × ((finish (raised e) r outcome now d).1.generations ≡ d.generations)
      × ((finish (raised e) r outcome now d).1.safety.log
          ≡ (d.safety.log ++ abandoned_event r.device_id r.source ∷ [])
            ++ capture_event capture_stopped r.spec r.source r.device_id)
unfolding finish abandon_lease
finish_raised e r outcome now d i held dict = (
  refl,
  subst (λ l. IsGone l (leave_lock r (abandon_lease r.lease_id r.device_id r.source d))) held
      (leave_lock-IsGone r.lease_id r _ (abandon-IsGone r.lease_id r.device_id r.source d dict)),
  unlock-generations (wants_lock r.spec r.device_id) _
      ∙ abandon-generations r.lease_id r.device_id r.source d,
  ap (λ s. s.log) (unlock-safety (wants_lock r.spec r.device_id) _)
      ∙ ap
          (λ l.
            (abandon_lease l r.device_id r.source d).safety.log
            ++ capture_event capture_stopped r.spec r.source r.device_id)
          held,
)
