-- ===== src/Planner.antt =====
-- The planner of daemon/crates/a2ex-planner/src/lib.rs: it turns a compiled intent into the steps
-- of an execution plan, by what each venue can do.
pub mod Types
pub mod Matrix
pub mod Plan
pub mod Success
pub mod Steps
pub mod Ranking
