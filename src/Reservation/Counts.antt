-- ===== src/Reservation/Counts.antt =====
-- How often the journal holds, consumes and releases one reservation.
use a2ex.Base.{
  ℕ, ◌+◌, ◌≤◌, String, ◌≡◌, inl, inr, ◌&&◌, Option, none, some, List, [], ◌∷◌, ◌++◌, arith, get_or,
  ◌==◌, eq_iff, if◌then◌else◌,
}
use a2ex.Reservation.Types.{
  ReservationRequest, held, consumed, released, StoredReservation, JournalEntry, Store, as_str,
}
use a2ex.Reservation.Table.{Calls, select, append_journal_entry}
use a2ex.Reservation.Manager
use a2ex.Reservation.Manager.{
  transition, held_store, moved_store, held_event_type, consumed_event_type, released_event_type,
}
use a2ex.Reservation.Rows.{select-upsert, select-update_state, select_id}
use a2ex.Reservation.Outcomes.{transition_store, hold_store}
use a2ex.Reservation.Replay.{Op, apply, run, empty}

-- the number of a reservation's journal entries of one type
unfoldable pub count : String → String → List JournalEntry → ℕ
count event_type id [] = 0
count event_type id (entry ∷ journal) =
    (if entry.event_type == event_type && entry.stream_id == id then 1 else 0)
    + count event_type id journal

-- 1 if the reservation is in the state, else 0
unfoldable pub in_state : String → Option StoredReservation → ℕ
in_state state none = 0
in_state state (some row) = if row.state == state then 1 else 0

count-append :
    (event_type id : String) (journal : List JournalEntry) (entry : JournalEntry)
    → count event_type id (journal ++ entry ∷ [])
      ≡ count event_type id journal
        + (if entry.event_type == event_type && entry.stream_id == id then 1 else 0)
unfolding count
count-append event_type id [] entry = omega arith
count-append event_type id (e ∷ journal) entry =
    omega (arith, count-append event_type id journal entry)

-- Every consume has a hold of its own, and every release a consume of its own; a reservation that
-- is held has a hold to spare, and a consumed one a consume to spare.
pub record IsCounted (id : String) (store : Store) : Type 0 where
  pub consumes :
      count consumed_event_type id store.journal + in_state "held" (select id store.reservations)
      ≤ count held_event_type id store.journal
  pub releases :
      count released_event_type id store.journal
        + in_state "consumed" (select id store.reservations)
      ≤ count consumed_event_type id store.journal

held_store-IsCounted :
    (calls : Calls) (req : ReservationRequest) (id : String) (store : Store)
    → IsCounted id store
    → IsCounted id (held_store calls req store)
unfolding held_store append_journal_entry in_state as_str
held_store-IsCounted calls req id store h = record {
  consumes = simp (count-append, select-upsert) (ground (arith, h.consumes));
  releases = simp (count-append, select-upsert) (ground (arith, h.releases));
}

consumed_store-IsCounted :
    (calls : Calls) (row : StoredReservation) (key : String) (amount : ℕ) (id : String)
    (store : Store)
    → select key store.reservations ≡ some row
    → row.state ≡ "held"
    → IsCounted id store
    → IsCounted id (moved_store calls row key amount consumed consumed_event_type store)
unfolding moved_store append_journal_entry in_state as_str
consumed_store-IsCounted calls row key amount id store found state h = record {
  consumes =
      simp (count-append, select-update_state)
        (ground (
          arith,
          h.consumes,
          select_id key row store.reservations found,
          eq_iff key id,
          eq_iff row.reservation_id id,
          eq_iff row.state "held",
        ));
  releases =
      simp (count-append, select-update_state)
        (ground (
          arith,
          h.releases,
          select_id key row store.reservations found,
          eq_iff key id,
          eq_iff row.reservation_id id,
          eq_iff row.state "consumed",
        ));
}

released_store-IsCounted :
    (calls : Calls) (row : StoredReservation) (key : String) (amount : ℕ) (id : String)
    (store : Store)
    → select key store.reservations ≡ some row
    → row.state ≡ "consumed"
    → IsCounted id store
    → IsCounted id (moved_store calls row key amount released released_event_type store)
unfolding moved_store append_journal_entry in_state as_str
released_store-IsCounted calls row key amount id store found state h = record {
  consumes =
      simp (count-append, select-update_state)
        (ground (
          arith,
          h.consumes,
          select_id key row store.reservations found,
          eq_iff key id,
          eq_iff row.reservation_id id,
          eq_iff row.state "held",
        ));
  releases =
      simp (count-append, select-update_state)
        (ground (
          arith,
          h.releases,
          select_id key row store.reservations found,
          eq_iff key id,
          eq_iff row.reservation_id id,
          eq_iff row.state "consumed",
        ));
}

apply-IsCounted :
    (op : Op) (id : String) (store : Store) → IsCounted id store → IsCounted id (apply op store)
unfolding apply Manager.consume Manager.release as_str
apply-IsCounted (Op.hold calls req) id store h = elim (hold_store calls req store) [
  | inl same ↦ rw same h
  | inr committed ↦ rw committed (held_store-IsCounted calls req id store h)
]
apply-IsCounted (Op.consume calls key amount) id store h =
    elim (transition_store calls key (some amount) held consumed consumed_event_type store) [
      | inl same ↦ rw same h
      | inr (row, found, state, committed) ↦
          rw committed (consumed_store-IsCounted calls row key amount id store found state h)
    ]
apply-IsCounted (Op.release calls key amount) id store h =
    elim (transition_store calls key amount consumed released released_event_type store) [
      | inl same ↦ rw same h
      | inr (row, found, state, committed) ↦
          rw committed (
            released_store-IsCounted calls row key (get_or amount row.amount) id store found state
              h)
    ]

run-IsCounted :
    (ops : List Op) (id : String) (store : Store)
    → IsCounted id store
    → IsCounted id (run ops store)
unfolding run
run-IsCounted [] id store h = h
run-IsCounted (op ∷ ops) id store h =
    run-IsCounted ops id (apply op store) (apply-IsCounted op id store h)

-- After any operations on an empty database, a reservation has been consumed at most as often as
-- it was held, and released at most as often as it was consumed; one hold less is consumed while
-- it is held, and one consume less is released while it is consumed.
pub spent_at_most_once : (ops : List Op) (id : String) → IsCounted id (run ops empty)
unfolding select in_state count
spent_at_most_once ops id =
    run-IsCounted ops id empty (record { consumes = omega arith; releases = omega arith })
