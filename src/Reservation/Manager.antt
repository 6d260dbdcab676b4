-- ===== src/Reservation/Manager.antt =====
-- `hold`, `require_held`, `consume` and `release` of `SqliteReservationManager`.
use a2ex.Base.{
  ℕ, String, not, Option, some, Result, ok, ◌>>=◌, ◌>>◌, fail_if, or_fail, get_or, ltb, ◌==◌,
  map_err,
}
use a2ex.Reservation.Types.{
  ReservationRequest, ReservationDecision, ReservationState, held, consumed, released,
  ReservationError, persist, not_found, invalid_state, StoredReservation, Store, as_str,
}
use a2ex.Reservation.Table.{
  DbError, Calls, succeeds, binds, select, upsert, update_state, append_journal_entry, settle,
  with_result,
}

abbrev pub held_event_type : String
held_event_type = "reservation_held"

abbrev pub consumed_event_type : String
consumed_event_type = "reservation_consumed"

abbrev pub released_event_type : String
released_event_type = "reservation_released"

-- the `map_err` of `transition` and `require_held`
abbrev db_error : String → ReservationState → DbError → ReservationError
db_error id expected DbError.no_rows = not_found id
db_error id expected DbError.invalid_parameter = invalid_state id (as_str expected)
db_error id expected DbError.other = persist

abbrev decision_of : ReservationRequest → ReservationDecision
decision_of req = record {
  reservation_id = req.reservation_id;
  execution_id = req.execution_id;
  asset = req.asset;
  amount = req.amount;
  state = held;
}

abbrev pub held_row : Calls → ReservationRequest → StoredReservation
held_row calls req = record {
  reservation_id = req.reservation_id;
  execution_id = req.execution_id;
  asset = req.asset;
  amount = req.amount;
  state = as_str held;
  updated_at = calls.now;
}

-- the store that the transaction of `hold` commits
unfoldable pub held_store : Calls → ReservationRequest → Store → Store
held_store calls req store =
    append_journal_entry calls req.reservation_id held_event_type req.execution_id req.asset
      req.amount held
      (record store { reservations = upsert (held_row calls req) store.reservations })

-- the closure that `hold` hands to the connection
unfoldable hold_call :
    Calls → ReservationRequest → Store → Result DbError (ReservationDecision × Store)
unfolding held_store
hold_call calls req store = do
  succeeds calls.connects
  binds req.amount
  succeeds calls.writes
  succeeds calls.journals
  succeeds calls.commits
  ok (decision_of req, held_store calls req store)

unfoldable pub hold :
    Calls → ReservationRequest → Store → Result ReservationError ReservationDecision × Store
unfolding hold_call
hold calls req store = with_result (λ e. persist) (settle store (hold_call calls req store))

-- the closure of `require_held`; it writes nothing
unfoldable require_held_call : Calls → String → ℕ → Store → Result DbError ReservationDecision
require_held_call calls id amount store = do
  succeeds calls.connects
  succeeds calls.reads
  reservation ← or_fail (select id store.reservations) DbError.no_rows
  fail_if (not (reservation.state == as_str held)) DbError.invalid_parameter
  fail_if (ltb reservation.amount amount) DbError.invalid_parameter
  ok (record {
    reservation_id = reservation.reservation_id;
    execution_id = reservation.execution_id;
    asset = reservation.asset;
    amount = reservation.amount;
    state = held;
  })

unfoldable pub require_held :
    Calls → String → ℕ → Store → Result ReservationError ReservationDecision
unfolding require_held_call
require_held calls id amount store =
    map_err (db_error id held) (require_held_call calls id amount store)

-- the store that the transaction of `transition` commits
unfoldable pub moved_store :
    Calls → StoredReservation → String → ℕ → ReservationState → String → Store → Store
moved_store calls reservation id amount next event_type store =
    append_journal_entry calls reservation.reservation_id event_type reservation.execution_id
      reservation.asset amount next
      (record store { reservations = update_state id (as_str next) calls.now store.reservations })

-- the closure that `transition` hands to the connection
unfoldable transition_call :
    Calls
    → String
    → Option ℕ
    → ReservationState
    → ReservationState
    → String
    → Store
    → Result DbError (Unit {0} × Store)
unfolding moved_store
transition_call calls id amount expected next event_type store = do
  succeeds calls.connects
  succeeds calls.reads
  reservation ← or_fail (select id store.reservations) DbError.no_rows
  fail_if (not (reservation.state == as_str expected)) DbError.invalid_parameter
  let transition_amount = get_or amount reservation.amount
  fail_if (ltb reservation.amount transition_amount) DbError.invalid_parameter
  succeeds calls.writes
  succeeds calls.journals
  succeeds calls.commits
  ok (tt, moved_store calls reservation id transition_amount next event_type store)

unfoldable pub transition :
    Calls
    → String
    → Option ℕ
    → ReservationState
    → ReservationState
    → String
    → Store
    → Result ReservationError (Unit {0}) × Store
unfolding transition_call
transition calls id amount expected next event_type store =
    with_result (db_error id expected)
      (settle store (transition_call calls id amount expected next event_type store))

unfoldable pub consume : Calls → String → ℕ → Store → Result ReservationError (Unit {0}) × Store
unfolding transition
consume calls id amount = transition calls id (some amount) held consumed consumed_event_type

unfoldable pub release :
    Calls → String → Option ℕ → Store → Result ReservationError (Unit {0}) × Store
unfolding transition
release calls id amount = transition calls id amount consumed released released_event_type
