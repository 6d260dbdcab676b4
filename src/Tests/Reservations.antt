-- ===== src/Tests/Reservations.antt =====
-- The reservations' theorems on concrete tables.
use a2ex.Base.{List, true, false, some, none, [], ◌∷◌, refl, ◌≡◌, ◌↔◌, ◌≤◌, ok, get_or}
use mathlib.Core.Option
use a2ex.Reservation.Types.{ReservationRequest, ReservationDecision, held, StoredReservation, Store}
use a2ex.Reservation.Table.{Calls, select}
use a2ex.Reservation.Manager.{consume, release, require_held}
use a2ex.Reservation.Replay.{Op, run, empty, replay, view_of, journal_rebuilds_table}
use a2ex.Reservation.Counts.{IsCounted, spent_at_most_once}
use a2ex.Reservation.Outcomes.{Responds, consume-release_iff, require_held_iff}

abbrev pub answers : Calls
answers = record {
  connects = true;
  reads = true;
  writes = true;
  journals = true;
  commits = true;
  now = "2026-03-11 00:00:00";
  event_id = "evt-1";
}

pub answers-Responds : Responds answers
answers-Responds = record {
  connects = refl;
  reads = refl;
  writes = refl;
  journals = refl;
  commits = refl;
}

-- a database that refuses to commit
abbrev refuses : Calls
refuses = record answers { commits = false }

abbrev request : ReservationRequest
request = record { reservation_id = "res-1"; execution_id = "exec-1"; asset = "USDC"; amount = 25 }

abbrev three_ops : List Op
three_ops =
    Op.hold answers request
    ∷ Op.consume answers "res-1" 20
    ∷ Op.release refuses "res-1" none
    ∷ Op.release answers "res-1" none
    ∷ []

abbrev row : StoredReservation
row = record {
  reservation_id = "res-1";
  execution_id = "exec-1";
  asset = "USDC";
  amount = 25;
  state = "held";
  updated_at = "2026-03-11 00:00:00";
}

abbrev one_held : Store
one_held = record { reservations = row ∷ []; journal = [] }

abbrev approved : ReservationDecision
approved = record {
  reservation_id = "res-1";
  execution_id = "exec-1";
  asset = "USDC";
  amount = 25;
  state = held;
}

spent_at_most_once_example : IsCounted "res-1" (run three_ops empty)
spent_at_most_once_example = spent_at_most_once three_ops "res-1"

journal_rebuilds_table_example :
    replay "res-1" (run three_ops empty).journal
    ≡ Option.map view_of (select "res-1" (run three_ops empty).reservations)
journal_rebuilds_table_example = journal_rebuilds_table three_ops "res-1"

consume-release_iff_example :
    (((consume answers "res-1" 20 one_held).0 ≡ ok tt) ↔ (
      (r : StoredReservation) × (select "res-1" one_held.reservations ≡ some r)
      × (r.state ≡ "held")
      × (20 ≤ r.amount)))
    × (((release answers "res-1" none one_held).0 ≡ ok tt) ↔ (
        (r : StoredReservation) × (select "res-1" one_held.reservations ≡ some r)
        × (r.state ≡ "consumed")
        × (get_or none r.amount ≤ r.amount)))
consume-release_iff_example = consume-release_iff answers "res-1" 20 none one_held answers-Responds

require_held_iff_example : (require_held answers "res-1" 20 one_held ≡ ok approved) ↔ (
    (r : StoredReservation) × (select "res-1" one_held.reservations ≡ some r)
    × (r.state ≡ "held")
    × (20 ≤ r.amount)
    × (approved ≡ record {
      reservation_id = r.reservation_id;
      execution_id = r.execution_id;
      asset = r.asset;
      amount = r.amount;
      state = held;
    }))
require_held_iff_example = require_held_iff answers "res-1" 20 one_held approved answers-Responds

select-one_held : select "res-1" one_held.reservations ≡ some row
unfolding select
select-one_held = refl
