-- ===== src/Compiler.antt =====
-- The compiler of daemon/crates/a2ex-compiler/src/lib.rs: it validates an agent's request and
-- normalises it. The thresholds of a strategy are `f64`: the type and `str::parse::<f64>` are the
-- parameters of `Compiler/Strategies.antt`.
pub mod Types
pub mod Normalize
pub mod Envelope
pub mod Intents
pub mod Strategies
pub mod Tokens
pub mod Venues
pub mod IntentLaws
pub mod StrategyLaws
