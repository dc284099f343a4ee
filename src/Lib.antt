-- ===== src/Lib.antt =====
-- AgentDock Verify: the event-sourced core of the run lifecycle.
--
-- A run is an append-only log of events. The reducer folds the log into a projection, the decision
-- function chooses the one next command for the projection, and the controller carries the command
-- out by appending events, which the store accepts only if the whole log still reduces. Workers share
-- the runs through leases: the lease manager gives one worker at a time the authority over a run, with
-- a fencing token that each takeover raises, and the managed controller carries a command out under a
-- lease, with one external action between its plan and its durable receipt. The policy decides which
-- tool requests are allowed, and the reasoner's stream is what the controller collects a model turn
-- from.
--
-- Files, by the part of the program that each models:
-- - Prelude: what the modules share: Boolean tests and equality (Tests), lists over native numbers
--   (Lists), Go's int (Int), calls that may fail (Results), and the formats %s, %d and %x (Text).
-- - Domain.Types, with Domain.Types.Enums: internal/domain/types.go. Named string types are data types
--   with a constructor for each constant, one for the empty string and one for any other string.
-- - Domain.Transition, Domain.Desired, Domain.Managed, Domain.Apply, Domain.Reduce:
--   internal/domain/reducer.go. A function that writes through a pointer to the projection returns
--   the projection after it; each case of applyEvent is a function of its own.
-- - Domain.Decide: internal/domain/decide.go. Domain.Receipt: internal/domain/receipt.go.
-- - Domain.Lifecycle: the lifecycle as an abstract machine, with its steps, that the reducer
--   implements, and the invariants of its reachable states.
-- - Store.Errors, Store.Equality, Store.Memory: internal/store/store.go and internal/store/memory.go.
--   Each operation runs under the lock of the store, so it is one function from store to store.
-- - Store.Validation: internal/store/validation.go.
-- - Controller: internal/controller/controller.go, over the EventStore interface, which the store in
--   memory fills; Controller.Created is CreateRun over that store. The reasoner is an argument of the
--   model.
-- - Controller.Managed: internal/controller/managed.go, over that interface and one of the lease
--   manager, which Controller.Managed.Stale fills with the operations of Lease. The result that the
--   source copies is apart from the one that its appender writes to.
-- - Lease.Types, Lease.Manager, Lease.Receipts: internal/lease/lease.go and internal/lease/postgres.go.
--   A transaction locks the row of its run, so each operation is one function from tables to tables;
--   Lease.Steps is every order of them. A time is in microseconds of the database's clock, and a row
--   keeps the text of a receipt's output.
-- - Worker.Session: internal/worker/worker.go, a session and its renewal loop, where each step is what
--   one of the two goroutines does at once.
-- - Policy.Types, Policy.Paths, Policy.Engine, Policy.Parse, Policy.Root: internal/policy/policy.go,
--   internal/policy/path.go and the recorder in memory of internal/policy/audit.go.
-- - Reasoner.Types, Reasoner.Stream, Reasoner.Collect, Reasoner.Requests, Reasoner.Agent:
--   internal/reasoner/stream.go, internal/reasoner/reasoner.go and internal/reasoner/coding_agent.go. A
--   stream is a state with Recv and Close.
-- - Examples: the theorems at concrete inputs.
--
-- Parameters: SHA-256 (a digest of 32 bytes), json.Marshal, what the lease manager uses of
-- json.Unmarshal and PostgreSQL (the text that a jsonb column gives back, and the interval of a
-- duration), the packages strings, regexp, net/url and encoding/json of the credential search, the
-- reasoner of the controller, the executor, the fault hook and the artifact store of the managed
-- controller, the packages yaml, path/filepath, os and strings of the policy with its recorder, the
-- Tool Contracts and the source of a model stream, and the tool service of the coding agent.
--
-- Bounds: the loop of SetDesiredState makes 64 rounds, as its constant says. The search of nested JSON
-- has the 32 levels of maxSensitiveJSONDepth as its structural argument. Decimal numbers are printed
-- by a loop of one round more than the number, which is enough since each round divides by ten.
-- uint64 sums of a stored version wrap at 2 ^ 64; lengths of slices do not reach that. The sum of a
-- usage's tokens wraps as Go's 64-bit int does. Collect runs on fuel; one round more than the rank of
-- its source is enough, for a source whose rank each event lowers. The loop of the coding agent is on
-- the number of turns that are left. A fencing token stays below 2 ^ 63, where Acquire refuses to
-- raise it.
--
-- Not modelled: the store in PostgreSQL, the tools, the sandbox, migrations and the command line; of
-- the lease manager ListReceipts and failing connections, of the policy the file recorder, of the
-- worker the loop around its sessions and its heartbeat, of the reasoner the replays and the
-- providers.
pub mod Prelude
pub mod Domain
pub mod Store
pub mod Lease
pub mod Policy
pub mod Reasoner
pub mod Controller
pub mod Worker
mod Examples
