-- ===== src/Reservation.antt =====
-- The capital reservations of daemon/crates/a2ex-reservation/src/lib.rs, kept in SQLite: the data,
-- the database calls and the four operations of `SqliteReservationManager`.
pub mod Types
pub mod Table
pub mod Manager
pub mod Rows
pub mod Outcomes
pub mod Replay
pub mod Counts
