-- ===== src/Reservation/Replay.antt =====
-- A sequence of operations against its journal: the journal rebuilds every reservation, and no
-- hold is consumed or released more often than it was taken.
use a2ex.Base.{
  ℕ, String, ◌≡◌, refl, inl, inr, false, Option, none, some, List, [], ◌∷◌, ◌++◌, arith, get_or,
  ◌==◌, eq_iff, if◌then◌else◌,
}
use mathlib.Core.Option
use mathlib.Core.List.{foldl, foldl-append}
use a2ex.Reservation.Types.{
  ReservationRequest, ReservationState, held, consumed, released, StoredReservation, JournalEntry,
  Store, as_str,
}
use a2ex.Reservation.Table.{Calls, select, append_journal_entry}
use a2ex.Reservation.Manager
use a2ex.Reservation.Manager.{
  transition, held_row, held_store, moved_store, held_event_type, consumed_event_type,
  released_event_type,
}
use a2ex.Reservation.Rows.{select-upsert, select-update_state, select_id}
use a2ex.Reservation.Outcomes.{transition_store, hold_store}

-- One call of the manager, with how the database answers it.
pub data Op : Type 0 where
  hold : Calls → ReservationRequest → Op
  consume : Calls → String → ℕ → Op
  release : Calls → String → Option ℕ → Op

unfoldable pub apply : Op → Store → Store
apply (Op.hold calls req) store = (Manager.hold calls req store).1
apply (Op.consume calls id amount) store = (Manager.consume calls id amount store).1
apply (Op.release calls id amount) store = (Manager.release calls id amount store).1

unfoldable pub run : List Op → Store → Store
unfolding apply
run [] store = store
run (op ∷ ops) store = run ops (apply op store)

abbrev pub empty : Store
empty = record { reservations = []; journal = [] }

-- What a client sees of a reservation.
pub record View : Type 0 where
  pub execution_id : String
  pub asset : String
  pub amount : ℕ
  pub state : String

abbrev pub view_of : StoredReservation → View
view_of row = record {
  execution_id = row.execution_id;
  asset = row.asset;
  amount = row.amount;
  state = row.state;
}

-- what the journal says of one reservation after one more entry: a hold gives all columns anew,
-- and any other entry changes the state
unfoldable replay_entry : String → Option View → JournalEntry → Option View
unfolding as_str
replay_entry id view entry =
    if entry.stream_id == id
    then (if entry.event_type == held_event_type
        then some (record {
          execution_id = entry.payload.execution_id;
          asset = entry.payload.asset;
          amount = entry.payload.amount;
          state = as_str entry.payload.state;
        })
        else Option.map (λ (v : View). record v { state = as_str entry.payload.state }) view)
    else view

unfoldable pub replay : String → List JournalEntry → Option View
unfolding replay_entry
replay id = foldl (replay_entry id) none

replay-append :
    (id : String) (journal : List JournalEntry) (entry : JournalEntry)
    → replay id (journal ++ entry ∷ []) ≡ replay_entry id (replay id journal) entry
unfolding replay
replay-append id journal entry = rw foldl-append

-- The journal rebuilds what the table shows of every reservation.
abbrev IsRebuilt : Store → Type 0
IsRebuilt store =
    (id : String) → replay id store.journal ≡ Option.map view_of (select id store.reservations)

held_store-IsRebuilt :
    (calls : Calls) (req : ReservationRequest) (store : Store)
    → IsRebuilt store
    → IsRebuilt (held_store calls req store)
unfolding held_store append_journal_entry replay_entry
held_store-IsRebuilt calls req store h id =
    rw (replay-append, select-upsert) (ground (arith, h id, eq_iff req.reservation_id id))

moved_store-IsRebuilt :
    (calls : Calls) (row : StoredReservation) (id : String) (amount : ℕ) (next : ReservationState)
    (event_type : String) (store : Store)
    → select id store.reservations ≡ some row
    → (event_type == held_event_type) ≡ false
    → IsRebuilt store
    → IsRebuilt (moved_store calls row id amount next event_type store)
unfolding moved_store append_journal_entry replay_entry
moved_store-IsRebuilt calls row id amount next event_type store found other h j =
    rw (replay-append, select-update_state)
      (ground (
        arith,
        h j,
        select_id id row store.reservations found,
        eq_iff id j,
        eq_iff row.reservation_id j,
      ))

transition-IsRebuilt :
    (calls : Calls) (id : String) (amount : Option ℕ) (expected next : ReservationState)
    (event_type : String) (store : Store)
    → (event_type == held_event_type) ≡ false
    → IsRebuilt store
    → IsRebuilt (transition calls id amount expected next event_type store).1
transition-IsRebuilt calls id amount expected next event_type store other h =
    elim (transition_store calls id amount expected next event_type store) [
      | inl same ↦ rw same h
      | inr (row, found, state, committed) ↦ rw committed (
          moved_store-IsRebuilt calls row id (get_or amount row.amount) next event_type store found
            other h)
    ]

apply-IsRebuilt : (op : Op) (store : Store) → IsRebuilt store → IsRebuilt (apply op store)
unfolding apply Manager.consume Manager.release
apply-IsRebuilt (Op.hold calls req) store h = elim (hold_store calls req store) [
  | inl same ↦ rw same h
  | inr committed ↦ rw committed (held_store-IsRebuilt calls req store h)
]
apply-IsRebuilt (Op.consume calls id amount) store h =
    transition-IsRebuilt calls id (some amount) held consumed consumed_event_type store refl h
apply-IsRebuilt (Op.release calls id amount) store h =
    transition-IsRebuilt calls id amount consumed released released_event_type store refl h

run-IsRebuilt : (ops : List Op) (store : Store) → IsRebuilt store → IsRebuilt (run ops store)
unfolding run
run-IsRebuilt [] store h = h
run-IsRebuilt (op ∷ ops) store h = run-IsRebuilt ops (apply op store) (apply-IsRebuilt op store h)

-- After any operations on an empty database, with any of its calls failing, the journal of a
-- reservation replays to the columns that the table holds for it.
pub journal_rebuilds_table :
    (ops : List Op) (id : String)
    → replay id (run ops empty).journal
      ≡ Option.map view_of (select id (run ops empty).reservations)
unfolding replay select
journal_rebuilds_table ops id = run-IsRebuilt ops empty (λ j. refl) id
