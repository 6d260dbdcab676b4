-- ===== src/Lib.antt =====
-- A2EX, the local execution daemon of daemon/: an agent's request is compiled, routed, planned or
-- put on the fast path, authorised against a policy and a capital reservation, and a registered
-- strategy is watched by a runtime of its own. The modules follow the crates under daemon/crates.
--
-- * Control (a2ex-control/src/lib.rs): the request types.
-- * Compiler (a2ex-compiler/src/lib.rs): Types holds the compiled forms and the issues, Normalize
--   `normalize_token` and `normalize_venues`, Envelope `validate_envelope` and `compile_audit`,
--   Intents `compile_intent` and Strategies `compile_strategy`; IntentLaws, StrategyLaws, Venues
--   and Tokens hold their theorems.
-- * Gateway (a2ex-gateway/src/lib.rs): `classify` and `route_decision`; theorems in Routes.
-- * Planner (a2ex-planner/src/lib.rs): Types, Matrix (the shipped capability matrix) and Plan
--   (`plan_intent` and its helpers); theorems in Success, Steps and Ranking.
-- * Policy (a2ex-policy/src/lib.rs): the baseline policy; theorems in Verdicts.
-- * FastPath (a2ex-fast-path/src/lib.rs): `template_from_compiled_intent` and
--   `prepare_fast_action`; theorems in Actions.
-- * Reservation (a2ex-reservation/src/lib.rs): Types and Table hold the two SQLite tables and the
--   statements on them, Manager `hold`, `require_held`, `consume` and `release`, each a function
--   from the store to a result and the store after it; theorems in Rows, Outcomes, Replay (the
--   journal against the table) and Counts.
-- * Runtime (a2ex-strategy-runtime/src/lib.rs): Types, Civil and Timestamp (dates), Metrics (the
--   flags in the JSON object), Triggers, Engine (`restore`, `evaluate`) and Supervisor (the loop);
--   theorems in Flags, Memory, Loop, Commands, RateLimit, Recovery, Unparsed and
--   Timestamp/Digits.
--
-- * Ipc (a2ex-ipc/src/lib.rs): the JSON-RPC messages.
-- * Signer (a2ex-signer-bridge/src/lib.rs): peers, approvals and the client that validates a peer;
--   theorems in Peers.
-- * Evm (a2ex-evm-adapter/src/lib.rs): the report of a transaction.
-- * Daemon (a2ex-daemon/src/lib.rs): Authorization holds the handlers that authorise and dispatch
--   a request, over the policy, the reservations and the signer's bridge; Steps, Rounds and
--   Execution the execution of a plan, `execute_plan_step` and `execute_planned_intent`; FastAction
--   `execute_fast_path_action`. The state that they change is the record World of Types. Theorems
--   in Dispatch and Spending, in Termination, Adapters, Holds, Reports and Plans, and in Payments.
-- * Bundle (a2ex-skill-bundle/src): Model and Reading hold the structs of model.rs; Versions,
--   Snapshots, Lifecycle and Diagnostics lifecycle.rs; Slugs, Sections and Interpret interpret.rs;
--   Proposal proposal.rs; Parser parser.rs. Theorems in Ordering, Changes, Drift, Slugs/Shape, Once
--   and Readiness, and in the Whole, Panics, RoundTrip and Collisions of Parser.
-- * Onboarding (a2ex-onboarding/src/model.rs): Reports, the reports on a strategy's runtime.
-- * Harness (a2ex-live-harness/src): Types, Rereads (a2ex_rereads.rs) and Verdict (verdict.rs), the
--   classifier of a live run; theorems in Control, Verdicts and Evidence.
--
-- Base holds what all parts share: lists, tests and results, `str` methods in Text, `i64` in Int,
-- and in Equality the interface of types with a derived `PartialEq`.
-- Tests applies the theorems to concrete inputs.
--
-- Conventions. `u64`, `u32` and `usize` are natural numbers; sums and products that can leave
-- their width wrap, as in a release build, and the width is written at that place. `Result` and
-- `?` are the type Result and its bind. A panic is `none`. A database is what Reservation.Table
-- makes of it: for each operation a record `Calls` says which of its calls fail.
--
-- Parameters stand for code outside the repository: `f64` and its parser, `serde_json::Value`
-- (Runtime.Platform, with the laws that its documentation states; a concrete instance is in
-- Tests.Documents), `serde_yaml` (Bundle.Parser.Types), SHA-256 and `hex::encode`, and the text
-- that `{:?}` writes.
--
-- Two definitions run on fuel. `Base.Text.digits` is called with one more than the number it
-- writes, so that the digits never run out. The loop of a plan's step has `2 * max_attempts + 2`
-- rounds, which is enough: each round is a retry below the limit or the one fallback.
--
-- Not modelled: the daemon's other handlers (submission, queries, the stateful hedge),
-- the state database (a2ex-state) but for the rows of a plan's steps, onboarding but for the values
-- that the live harness reads, the MCP server, the loader of skill bundles, the venue
-- adapters, whose answers are inputs, the wallet signer, the framing of the transport and the
-- launching of the live harness; and the plugin and the landing page, which hold no execution logic.
pub mod Base
pub mod Bundle
pub mod Control
pub mod Compiler
pub mod Gateway
pub mod Harness
pub mod Onboarding
pub mod Planner
pub mod Policy
pub mod FastPath
pub mod Reservation
pub mod Runtime
pub mod Ipc
pub mod Signer
pub mod Evm
pub mod Daemon
pub mod Tests
