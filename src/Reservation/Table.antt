-- ===== src/Reservation/Table.antt =====
-- The SQL statements of the source on the two tables, and a transaction.
--
-- `Calls` says, for one operation, which of its database calls succeed, what `CURRENT_TIMESTAMP` is
-- and which id `Uuid::now_v7` gives. A transaction that is not committed is rolled back when it is
-- dropped. rusqlite refuses to bind a `u64` above the largest `i64`.
use a2ex.Base.{
  ℕ, ◌-◌, ◌^◌, String, Bool, not, Option, none, some, List, [], ◌∷◌, ◌++◌, Result, ok, err, fail_if,
  ltb, ◌==◌, if◌then◌else◌,
}
use a2ex.Reservation.Types.{StoredReservation, ReservationState, Store}

-- what the operations tell apart of `rusqlite::Error`
pub data DbError : Type 0 where
  no_rows invalid_parameter other : DbError

pub record Calls : Type 0 where
  pub connects : Bool
  pub reads : Bool
  pub writes : Bool
  pub journals : Bool
  pub commits : Bool
  pub now : String
  pub event_id : String

-- a statement that the database may refuse
abbrev pub succeeds : Bool → Result DbError (Unit {0})
succeeds call = fail_if (not call) DbError.other

abbrev i64_max : ℕ
i64_max = 2 ^ 63 - 1

abbrev pub binds : ℕ → Result DbError (Unit {0})
binds amount = fail_if (ltb i64_max amount) DbError.other

-- `SELECT … WHERE reservation_id = ?1`
unfoldable pub select : String → List StoredReservation → Option StoredReservation
select id [] = none
select id (row ∷ rows) = if row.reservation_id == id then some row else select id rows

-- `INSERT … ON CONFLICT(reservation_id) DO UPDATE SET …`: every column is given anew
unfoldable pub upsert : StoredReservation → List StoredReservation → List StoredReservation
upsert row [] = row ∷ []
upsert row (r ∷ rows) =
    if r.reservation_id == row.reservation_id then row ∷ rows else r ∷ upsert row rows

-- `UPDATE … SET state = ?2, updated_at = CURRENT_TIMESTAMP WHERE reservation_id = ?1`
unfoldable pub update_state :
    String → String → String → List StoredReservation → List StoredReservation
update_state id state now [] = []
update_state id state now (r ∷ rows) =
    (if r.reservation_id == id then record r { state = state; updated_at = now } else r)
    ∷ update_state id state now rows

abbrev reservation_stream_type : String
reservation_stream_type = "reservation"

unfoldable pub append_journal_entry :
    Calls → String → String → String → String → ℕ → ReservationState → Store → Store
append_journal_entry calls reservation_id event_type execution_id asset amount state store =
    record store {
      journal =
          store.journal
          ++ record {
            event_id = calls.event_id;
            stream_type = reservation_stream_type;
            stream_id = reservation_id;
            event_type = event_type;
            payload = record {
              reservation_id = reservation_id;
              execution_id = execution_id;
              asset = asset;
              amount = amount;
              state = state;
            };
            created_at = calls.now;
          }
            ∷ [];
    }

-- what a transaction leaves behind: its store if it was committed, else the store before it
abbrev pub settle : {A : Type 0} → Store → Result DbError (A × Store) → Result DbError A × Store
settle before (ok (a, after)) = (ok a, after)
settle before (err e) = (err e, before)

abbrev pub with_result : {E F A : Type 0} → (E → F) → Result E A × Store → Result F A × Store
with_result f (ok a, store) = (ok a, store)
with_result f (err e, store) = (err (f e), store)
