-- ===== src/Lib.antt =====
-- Verification of the runtime of CompilableWorld.
--
-- The program compiles a described world to a package, runs it, and serves it to agents over MCP.
-- The kernel (src/compilableworld/kernel.py) holds versioned cells, a scheduler, an event log and an
-- event bus, and runs each action of an actor as one transaction: a module decides on deltas, the
-- store commits them, the events are logged as one batch, and a failure on the way puts the cells
-- back. The MCP layer (src/compilableworld_mcp) keeps the action of a client from running twice or
-- from losing its receipt: the ledger reserves its key, the journal records how far it came, and the
-- outbox hands its receipt to one worker. Hosts that share a world hold leases with fencing tokens.
--
-- Files:
-- - Base and its children: shared names, results of code that may raise, object state beside them,
--   dictionaries, texts and integers.
-- - Kernel/Value, State: values, StateStore. Kernel/Models: models.py. Kernel/Scheduler: Scheduler.
-- - Kernel/World: the state of WorldRuntime, EntityRegistry, EventLog and EventBus. Kernel/Runtime:
--   its reads, records and payloads. Kernel/Execution: _execute and _fail. Kernel/Admission and
--   Kernel/Control: submit, cancel_action, interrupts and commit_reaction. Kernel/EntityTransaction:
--   entity_transaction.py. Kernel/Behavior: action_behavior.py and the records of long actions.
--   Kernel/Conditions, Child, Checkpoint: what becomes of each queued long action at a tick, by
--   _action_checkpoint_decisions and _static_action_checkpoint_decision. Kernel/Advance: advance.
-- - Coordination/Lease, Ownership: runtime_ownership.py. Ownership/Exclusion: the call that
--   RuntimeCoordinationGateway.acquire makes of it.
-- - Delivery/Reservation, Ledger: action_ledger.py. Delivery/Outbox: outbox.py. Delivery/Entry,
--   Journal: action_journal.py.
-- - Access/RateLimit: rate_limit.py. Access/Revocation: revocation.py.
-- - Access/Quorum: runtime_quorum.py.
-- - Functions and its children: src/compilableworld/functions.py.
-- - Migrations and its children: migration_registry.py.
-- A component's theorems stand in its child modules, its examples in its module Tests.
--
-- How the code is read: a method that changes an object and may raise takes the state and gives the
-- result or the error beside the new state, so that what was written before a raise stays written.
-- The dictionaries are association lists in the order of insertion. An action object that several
-- containers share is kept once, under its id. Event and action ids, new lease ids, times, SHA-256,
-- fnmatch, JSON round trips, the decimal digits of a number, the arithmetic of functions.py, regular
-- expressions, the modules' evaluate and the subscribers' callbacks are arguments. The disk under the
-- event log is a list that says which of the coming writes succeed. All loops run over lists or
-- numbers that get smaller, but for the search of find_path, which runs on fuel: one round more than
-- there are steps, since each round after the first takes a version that a step has reached first.
-- The heap of the scheduler is the list of its entries in the order in which it gives them out; renew
-- and release of a lease are one step each, where the code takes its lock twice. The arithmetic of
-- functions.py may raise, and nothing else is assumed of it; the keys of the function cache compare
-- numbers with a test that holds of equal numbers only, unlike Python's for an int and a float.
--
-- Not modelled: the SQLite modes of the stores, threads and locks (each method is one step), floats
-- and the texts of error messages. The compiler, the world modules, the state machines and combat
-- formulas, snapshots and replay, sessions and access lists, the audit chain and the memory kernel
-- are left for later work; the code that serves HTTP, reads JSON files or generates players is input
-- and output around them.
pub mod Access
pub mod Functions
pub mod Base
pub mod Coordination
pub mod Delivery
pub mod Kernel
pub mod Migrations
