-- ===== src/Runtime.antt =====
-- The strategy runtime of daemon/crates/a2ex-strategy-runtime/src/lib.rs: timestamps, the trigger
-- engine and the supervisor that feeds it events.
pub mod Civil
pub mod Timestamp
pub mod Platform
pub mod Types
pub mod Metrics
pub mod Triggers
pub mod Engine
pub mod Supervisor
pub mod Flags
pub mod Recovery
pub mod Memory
pub mod Loop
pub mod Commands
pub mod RateLimit
pub mod Unparsed
