-- ===== src/Tests.antt =====
-- Concrete inputs on which the theorems are applied.
pub mod Numbers
pub mod Documents
pub mod Requests
pub mod Reservations
pub mod Runtimes
pub mod Dispatches
pub mod Executions
pub mod Actions
pub mod Harnesses
pub mod Bundles
pub mod Parsing
