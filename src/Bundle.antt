-- ===== src/Bundle.antt =====
-- Skill bundles, daemon/crates/a2ex-skill-bundle/src: Model holds the structs of model.rs, Versions
-- the daemon requirements, Snapshots and Lifecycle the comparison of two loads (lifecycle.rs),
-- Slugs, Sections and Interpret the reading of a bundle (interpret.rs), and Proposal the packet for
-- the owner (proposal.rs). The theorems are in Ordering, Changes, Drift, Once, Slugs/Shape and
-- Readiness.
pub mod Model
pub mod Versions
pub mod Snapshots
pub mod Lifecycle
pub mod Diagnostics
pub mod Ordering
pub mod Changes
pub mod Drift
pub mod Slugs
pub mod Sections
pub mod Reading
pub mod Interpret
pub mod Proposal
pub mod Readiness
pub mod Once
pub mod Parser
