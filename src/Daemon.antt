-- ===== src/Daemon.antt =====
-- The daemon's service, daemon/crates/a2ex-daemon/src/lib.rs: how a request for an action is
-- authorised, and how the steps of a plan are executed.
pub mod Types
pub mod Authorization
pub mod Dispatch
pub mod Spending
pub mod Steps
pub mod Rounds
pub mod Execution
pub mod Termination
pub mod Holds
pub mod Adapters
pub mod Reports
pub mod Plans
pub mod FastAction
pub mod Payments
