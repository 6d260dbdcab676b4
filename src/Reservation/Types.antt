-- ===== src/Reservation/Types.antt =====
-- Requests, decisions and errors, and the two tables of `BOOTSTRAP_SQL`.
use a2ex.Base.{ℕ, String, List}

pub record ReservationRequest : Type 0 where
  pub reservation_id : String
  pub execution_id : String
  pub asset : String
  pub amount : ℕ  -- u64

pub data ReservationState : Type 0 where
  held consumed released : ReservationState

unfoldable pub as_str : ReservationState → String
as_str held = "held"
as_str consumed = "consumed"
as_str released = "released"

pub record ReservationDecision : Type 0 where
  pub reservation_id : String
  pub execution_id : String
  pub asset : String
  pub amount : ℕ
  pub state : ReservationState

-- The paths and the sources of the database errors are left out.
pub data ReservationError : Type 0 where
  open_failed initialize_failed persist : ReservationError
  not_found : String → ReservationError
  invalid_state : String → String → ReservationError
  amount_exceeded : String → ℕ → ℕ → ReservationError

-- A row of `capital_reservations`; `updated_at` is the database's clock.
pub record StoredReservation : Type 0 where
  pub reservation_id : String
  pub execution_id : String
  pub asset : String
  pub amount : ℕ
  pub state : String
  pub updated_at : String

-- the value whose JSON text is the column `payload_json`
pub record JournalPayload : Type 0 where
  pub reservation_id : String
  pub execution_id : String
  pub asset : String
  pub amount : ℕ
  pub state : ReservationState

-- a row of `event_journal`
pub record JournalEntry : Type 0 where
  pub event_id : String
  pub stream_type : String
  pub stream_id : String
  pub event_type : String
  pub payload : JournalPayload
  pub created_at : String

-- The journal has its newest row last.
pub record Store : Type 0 where
  pub reservations : List StoredReservation
  pub journal : List JournalEntry
