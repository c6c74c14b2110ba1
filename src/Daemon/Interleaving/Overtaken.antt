-- ===== src/Daemon/Interleaving/Overtaken.antt =====
-- A safe state that is applied while a handler is awaited is never undone by that handler.
use field_deck.Prelude.{
  ℕ, ◌<◌, ◌++◌, String, true, false, Option, some, List, [], ◌∷◌, Member, ◌≡◌, refl, ap, sym, arith,
  ◌∙◌, ◌==◌,
}
use field_deck.Prelude.Dict.{values}
use field_deck.Common.Errors.{ok, err}
use field_deck.Safety.Limits.{Value, Floats}
use field_deck.Daemon.Registry.{Driver}
use field_deck.Daemon.State.{Dispatcher, ActionRequest, Running, generation, generation_of}
use field_deck.Daemon.Begin.{begin}
use field_deck.Daemon.Begin.Custody.{begin-Custody}
use field_deck.Daemon.SafeState.{SafeOutcome, apply_safe_state, selected}
use field_deck.Daemon.SafeState.Generations.{apply_safe_state_covers}
use field_deck.Daemon.Finish.{returned, finish, guarded_device, superseded_error}
use field_deck.Daemon.Finish.Revert.{finish_refused}
use field_deck.Daemon.Interleaving.{Turn, safes, turn, turns}
use field_deck.Daemon.Interleaving.Monotone.{generation-le-turns}

turns-append :
    (before after : List Turn) (d : Dispatcher)
    → turns (before ++ after) d ≡ turns after (turns before d)
unfolding turns
turns-append [] after d = refl
turns-append (t ∷ ts) after d = turns-append ts after (turn t d)

guarded-device_id : (r : Running) (i : String) → guarded_device r ≡ some i → r.device_id ≡ some i
guarded-device_id r i h = ground arith

-- What the handler's generation was when it started.
sampled_generation :
    (fl : Floats) (duration : Value → Option ℕ) (request : ActionRequest) (c : Option ℕ)
    (new_id : String) (now : ℕ) (d : Dispatcher) (r : Running) (d' : Dispatcher) (i : String)
    → begin fl duration request c new_id now d ≡ (ok r, d')
    → guarded_device r ≡ some i
    → r.safe_generation ≡ generation i d'.generations
sampled_generation fl duration request c new_id now d r d' i started guarded =
    let custody = (begin-Custody fl duration request c new_id now d r d' started).2 in
    custody.sampled
    ∙ ap (λ o. generation_of o d') (sym custody.same_device ∙ guarded-device_id r i guarded)

-- Among turns of which one is a safe-state request that covers the device, its generation rises.
generation-lt-turns :
    (before after : List Turn) (ids : Option (List String)) (outcome : String → SafeOutcome)
    (x : Driver) (d : Dispatcher)
    → Member x (values (turns before d).registry.drivers)
    → selected ids x ≡ true
    → generation x.device_id d.generations
      < generation x.device_id (turns (before ++ safes ids outcome ∷ after) d).generations
unfolding turns turn
generation-lt-turns before after ids outcome x d registered covered =
    let middle = turns before d in
    let until = generation-le-turns before d x.device_id in
    let raised = apply_safe_state_covers ids outcome middle x registered covered in
    let since = generation-le-turns after (apply_safe_state ids outcome middle).1 x.device_id in
    rw (turns-append before (safes ids outcome ∷ after) d) (omega (arith, until, raised, since))

-- A safe-state request that covers the device, which is registered then, at any point between the
-- start of a state-changing handler and its return, and among any turns of other tasks, makes the
-- handler's action be refused when it returns: as an emergency stop if one is latched then, else as
-- a lost lease.
pub overtaken_refused :
    (fl : Floats) (duration : Value → Option ℕ) (request : ActionRequest) (c : Option ℕ)
    (new_id : String) (now : ℕ) (d : Dispatcher) (r : Running) (d' : Dispatcher)
    (before after : List Turn) (ids : Option (List String)) (outcome : String → SafeOutcome)
    (x : Driver) (answers : String → SafeOutcome) (later : ℕ)
    → begin fl duration request c new_id now d ≡ (ok r, d')
    → guarded_device r ≡ some x.device_id
    → Member x (values (turns before d').registry.drivers)
    → selected ids x ≡ true
    → (finish returned r answers later (turns (before ++ safes ids outcome ∷ after) d')).0
      ≡ err (superseded_error (turns (before ++ safes ids outcome ∷ after) d'))
overtaken_refused fl duration request c new_id now d r d' before after ids outcome x answers later
      started guarded registered covered =
    finish_refused r answers later (turns (before ++ safes ids outcome ∷ after) d') x.device_id
      guarded moved
  where
    moved :
        (generation x.device_id (turns (before ++ safes ids outcome ∷ after) d').generations
          == r.safe_generation)
        ≡ false
    moved =
        let sampled =
          sampled_generation fl duration request c new_id now d r d' x.device_id started guarded in
        let raised = generation-lt-turns before after ids outcome x d' registered covered in
        ground (arith, sampled, raised)
