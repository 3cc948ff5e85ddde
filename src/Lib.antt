-- ===== src/Lib.antt =====
-- Gooseherd, an orchestrator of coding agents: the parts of it that decide, as definitions that
-- can be run, and what holds of them.
--
-- Work items (WorkItems, of src/work-items). A work item is a record with a workflow, a state,
-- flags and a substate. WorkItems.Types has the record and the states, WorkItems.Workflow the
-- states and transitions that each workflow allows (workflow-policy.ts), and
-- WorkItems.DeliveryPolicy the next state behind each gate (feature-delivery-policy.ts).
-- WorkItems.Reducer is feature-delivery-reducer.ts: an event of GitHub or of a run becomes patches
-- of the work item and commands. Its child Decision has the events and the helpers, Path the walk
-- out of auto_review, Ci and Reviews the reductions, and Events `reduceFeatureDelivery`.
-- WorkItems.Store is store.ts over the table of WorkItems.Table, and WorkItems.Apply writes a
-- decision to the store (feature-delivery-decision.ts).
--
-- WorkItems.Discovery is the life of a product discovery. Its child Requests has the review
-- requests and their rounds (review-request-store.ts, product-discovery-policy.ts), Authorization
-- who may act (authorization.ts, actor.ts), and Calls what the methods of service.ts share: a
-- database of work items, requests and events, and calls that may throw; whether the insert of an
-- event succeeds is a parameter of the database. Service, Deliveries and Override are these methods;
-- Rounds, Answers, Delivered, Confirmed, Override.Laws and Override.Stops prove their theorems.
--
-- Runs (src/runs). Runs.Intents is run-intent.ts: what a run is asked to do, and the classes of
-- runs; its child Values has isRunIntent over JSON values, and Derive the intents that are made.
--
-- Supervisor (src/supervisor). Supervisor is run-supervisor.ts, a function for each piece of a
-- handler between two waits; its child Steps has the interleavings of the handlers, with the number
-- of retries that wait at a time as a bound, Chain the lemmas on the retry chain, and Caps what the
-- handlers keep.
--
-- Runtime (src/runtime). A run is launched with a token, and its runner reports one completion.
-- Runtime.Tokens and Runtime.Completions are control-plane-store.ts, over the tables of
-- Runtime.KeyedTable and of a record of Completions; each has its theorems in a child Laws.
-- Runtime.Reconciler is reconciler.ts: the update that a run gets from the state of its job and its
-- completion. Its wait has the grace in milliseconds as fuel, since every sleep is at least one.
-- Runtime.Slots is the pool of test databases (runner-db-slots.ts, runner-db-slot-manager.ts), where
-- whether a set-up, a resolver or a release fails is an argument; its child Laws is about one slot,
-- and Sweep about the sweep of orphans.
--
-- Pipeline (src/pipeline). Pipeline.Loader is pipeline-loader.ts, on the value that the YAML parser
-- gives, and its child Valid says what it takes. Pipeline.Ci has the conclusion of the check runs of
-- a commit (ci/ci-monitor.ts), and its child Classes compares it with the classes of the runs.
-- Pipeline.Types has the nodes and results, and a record of what the engine uses of the handlers and
-- the context bag, where the lint handler may throw. Pipeline.FixLoop is `handleLoopFailure`,
-- Pipeline.Engine one turn of the loop of `executePipeline`, and Pipeline.Run the loop, with ten
-- jumps as fuel: the count of jumps of the code is kept, and an eleventh jump is not made. The call
-- that is nested behind a sandbox is a second run with its own count.
--
-- Observer (src/observer). Observer.Safety is safety.ts, the checks that an event passes before it
-- becomes a run; its child Verdict compares them with one condition. Observer.Safety.Window has the
-- rate events of a source as the daemon reads and writes them: the pieces of `processEvent` between
-- its waits are steps, which may interleave, with the number of events that wait as a bound. Its
-- child Overlap has the room that waiting events leave, and Bounds what the windows hold.
--
-- Conventions. A method that changes the database takes it and returns its result and the new
-- database; a throw is an error value. The database and its query builder are a record of
-- operations and laws, and a table of rows in a list meets the laws. The clock and fresh
-- identifiers are arguments. Times are milliseconds. An optional Boolean that is only read by its
-- truth is a Boolean. A JavaScript set is a list in the order of insertion.
--
-- Not modelled: HTTP, Slack, GitHub and Jira calls, the dashboard, the agents themselves, the
-- sandboxes and the list queries of the stores, which compute nothing that a proof could be about.
pub mod Prelude
pub mod WorkItems
pub mod Runs
pub mod Supervisor
pub mod Runtime
pub mod Pipeline
pub mod Observer
pub mod Tests
