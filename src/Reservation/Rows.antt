-- ===== src/Reservation/Rows.antt =====
-- What a lookup finds after an upsert or an update of the table of reservations.
use a2ex.Base.{String, ◌≡◌, refl, some, List, [], ◌∷◌, arith, ◌==◌, eq_iff, if◌then◌else◌}
use mathlib.Core.Option
use a2ex.Reservation.Types.{StoredReservation}
use a2ex.Reservation.Table.{select, upsert, update_state}

pub select-upsert :
    (id : String) (row : StoredReservation) (rows : List StoredReservation)
    → select id (upsert row rows) ≡ (if row.reservation_id == id then some row else select id rows)
unfolding select upsert
select-upsert id row [] = refl
select-upsert id row (r ∷ rows) = ground (
  arith,
  select-upsert id row rows,
  eq_iff r.reservation_id row.reservation_id,
  eq_iff r.reservation_id id,
  eq_iff row.reservation_id id,
)

-- what an update of `key` makes of the row found
abbrev pub moved : String → String → StoredReservation → StoredReservation
moved state now row = record row { state = state; updated_at = now }

pub select-update_state :
    (id key state now : String) (rows : List StoredReservation)
    → select id (update_state key state now rows)
      ≡ (if key == id then Option.map (moved state now) (select id rows) else select id rows)
unfolding select update_state
select-update_state id key state now [] = ground arith
select-update_state id key state now (r ∷ rows) = ground (
  arith,
  select-update_state id key state now rows,
  eq_iff r.reservation_id key,
  eq_iff r.reservation_id id,
  eq_iff key id,
)

-- A row that is found has the id that was asked for.
pub select_id :
    (id : String) (row : StoredReservation) (rows : List StoredReservation)
    → select id rows ≡ some row
    → row.reservation_id ≡ id
unfolding select
select_id id row [] h = ground arith
select_id id row (r ∷ rows) h = ground (arith, eq_iff r.reservation_id id, select_id id row rows)
