-- ===== src/Lib.antt =====
-- Field-deck: the safety core of the fielddeck daemon, the runner of its recipes, and the byte codecs of
-- its analysis tools.
--
-- The daemon drives bench hardware for several clients: people at the HMI and the command line,
-- recipes, and an automated assistant. Every request passes the dispatcher, which resolves the
-- device and the action, asks the safety manager, checks the limits, takes the device's lock and
-- the lease of a sustained output, runs the driver's handler, and then makes sure that nobody drove
-- the device safe in the meantime. The safety manager joins the registry of grants (who has armed
-- what, and until when), the leases (a dead-man handle for each live output), the limits of the
-- deployment, and the latched emergency stop.
--
-- Files and what they model:
--   Prelude, Prelude/...     Boolean tests, lists, sorting, Python's dict in insertion order, and
--                            floating-point readings; shared lemmas.
--   Common/Errors            fielddeck/common/errors.py: codes, and `Result` for code that raises.
--   Common/Permission        fielddeck/common/models.py: PermissionLevel, ClientSource.
--   Common/Events            fielddeck/common/events.py: EventType, Event.
--   Safety/Grant             fielddeck/common/models.py: ArmScope, ArmGrant.
--   Safety/Arm               fielddeck/safety/arm.py: ArmRegistry (create, find, active, revoke,
--                            revoke_all, sweep, clear).
--   Safety/Lease             fielddeck/safety/leases.py: LeaseManager, each operation.
--   Safety/Config            fielddeck/common/config.py: SafetyConfig; models.py: SafetyLimit.
--   Safety/Limits            fielddeck/safety/limits.py: the checks of LimitEnforcer.
--   Safety/Estop             fielddeck/safety/estop.py: EstopController.
--   Safety/Manager           fielddeck/safety/manager.py: SafetyManager. Manager/History has the
--                            calls on it as a data type, and what a list of them leads to.
--   Daemon/Spec              fielddeck/drivers/base.py: ActionSpec.
--   Daemon/Registry          fielddeck/daemon/registry.py: resolution of devices and actions.
--   Daemon/State             fielddeck/daemon/dispatcher.py: the dispatcher's state and locks.
--   Daemon/Begin             dispatcher.py: _execute up to the await of the handler.
--   Daemon/SafeState         dispatcher.py: apply_safe_state.
--   Daemon/Finish            dispatcher.py: _execute from the handler's end, with
--                            _reject_if_superseded, _abandon_lease and _release_leases.
--   Daemon/Interleaving      the turns that other tasks may take while a handler is awaited.
--   Daemon/Service           fielddeck/daemon/service.py: the tick of the safety loop, the disconnection
--                            of a client, the emergency stop, leases over RPC, lost devices, the
--                            shutdown; dispatcher.py: cancel.
--   Daemon/Bus               fielddeck/daemon/events.py: Subscription and EventBus.
--   Recipes/Plan             fielddeck/recipes/compiler.py and schema.py: the compiled plan.
--   Recipes/Preflight        fielddeck/recipes/runner.py: _preflight and _check_authorization.
--   Recipes/Runner           runner.py: RecipeRunner's state, one step of each kind, cancel.
--   Recipes/Run              runner.py: run, with the step loop, the cleanup and the verdict.
--   Codec/Slip, Codec/Cobs   fielddeck/analysis/convert.py: the SLIP and COBS encoders and decoders.
--   Codec/Isotp              fielddeck/protocols/isotp.py: reassemble.
--   Codec/Identifier         fielddeck/protocols/j1939.py: decode_id and its fields.
--   Codec/Crc                fielddeck/analysis/crc.py: models, tables, computation, candidates.
--   Codec/Framing            fielddeck/analysis/framing.py: the functions that split a stream.
--   Codec/Integers           fielddeck/analysis/convert.py: integers as fields, slices and bit fields.
--   Codec/Uds, Codec/UdsTables fielddeck/protocols/uds.py: the decoding of a message, and the tables.
-- A module below one of these holds lemmas and theorems about it; a module Tests holds concrete
-- data with the theorems applied to them.
--
-- Conventions. The state of an object is a record that its operations take and return. An exception
-- is `err` with its code; messages, payloads and severities are left out. `SafetyManager._emit` and
-- the bus of the dispatcher append to the log in the manager's record. Times and durations are whole
-- nanoseconds; a requested duration that is not positive is the number 0, which the same guard
-- refuses, and a policy's durations are not negative. The clock's reading and each fresh id are
-- arguments, and so are the answers of handlers and drivers. A floating-point reading is a multiple
-- of a fixed step or no number at all (infinities are left out); float arithmetic and the parsing of
-- a text as a float are the fields of a parameter, `Floats`. The validation of a request by its
-- parameter model is a function in the action's spec. The action and the parameters that a lease
-- keeps for its safe state, which only event payloads show, are left out; a device's lock is known
-- by the device's id.
--
-- The asyncio tasks of the dispatcher interleave only at an await. `begin` runs from the request to
-- the await of the handler, and `finish` from the handler's end; between the two other tasks take
-- any turns, which are a data type, and a list of turns is run on the state. The await inside
-- `_reject_if_superseded`, of the second safe state, is one step with what follows it.
--
-- The runner of a recipe is modelled as a function of what the world does in each round: the
-- answers of the daemon, the clock, the calls of cancel, the verdicts of assertions, and a
-- cancellation of the task at any await. A cleanup that is shielded is taken to run on to its end,
-- as it does in a task of its own; in one that is not, the cancellation comes at an await of any of
-- its steps, which is then announced and, if it calls the daemon, sent, or at the closing of the
-- session. An assertion comes to a verdict, to a RecipeError, or to another exception, which
-- nothing catches. The client's calls are taken to raise no other exceptions than FieldDeckError
-- and CancelledError. The runner logs the steps that it announces and those whose calls it sends.
-- The publication of an event is taken not to raise in the cleanup. The order of preflight checks,
-- of the loop, of the question why a run stops and of the cleanup is the code's in each of the ways
-- in which the loop ends. The event bus of Daemon/Bus is modelled by itself; the log of the manager
-- stands for it elsewhere.
--
-- Recursion is structural. The loop of cobs_decode runs on fuel: the length of the block is enough,
-- because each round consumes the code byte, and the round trip goes through that very bound. The
-- frames of split_fixed and of bytes_to_ints are cut on as much fuel as there are bytes, which is
-- enough since a frame has one or more.
--
-- Not modelled: the transports, the drivers of instruments, the simulator, the user interface, the
-- command line, the MCP server, captures, sessions and the RPC transport, which do input and output
-- around this core; the compiler of recipes and their assertions; the statistics of captures; Modbus and
-- the other protocol decoders and converters; floats and printing; LimitEnforcer.describe and
-- check_derived_power; the parsing of the configuration files.
pub mod Prelude
pub mod Common
pub mod Safety
pub mod Daemon
pub mod Codec
pub mod Recipes
