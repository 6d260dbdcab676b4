-- ===== src/Harness.antt =====
-- The live harness, daemon/crates/a2ex-live-harness/src: Types and Rereads hold the canonical
-- rereads (evidence_bundle.rs, a2ex_rereads.rs), Verdict the classifier of verdict.rs. The
-- theorems are in Control, Verdicts and Evidence.
pub mod Types
pub mod Rereads
pub mod Control
pub mod Verdict
pub mod Verdicts
pub mod Evidence
