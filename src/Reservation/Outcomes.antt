-- ===== src/Reservation/Outcomes.antt =====
-- What each operation of the manager returns and leaves behind, on every path.
use a2ex.Base.{
  ℕ, ◌≤◌, ◌<◌, String, ◌≡◌, ◌≢◌, true, ◌⊎◌, ◌↔◌, Option, some, ok, err, get_or, arith, eq_iff,
  Result-cases, Option-cases, inl, inr,
}
use a2ex.Reservation.Types.{
  ReservationRequest, ReservationDecision, ReservationState, held, ReservationError, invalid_state,
  amount_exceeded, StoredReservation, Store, as_str,
}
use a2ex.Reservation.Table.{Calls, select}
use a2ex.Reservation.Manager.{
  hold, held_store, require_held, transition, moved_store, consume, release,
}

-- every database call of the operation succeeds
pub record Responds (calls : Calls) : Type 0 where
  pub connects : calls.connects ≡ true
  pub reads : calls.reads ≡ true
  pub writes : calls.writes ≡ true
  pub journals : calls.journals ≡ true
  pub commits : calls.commits ≡ true

-- A transition that returns `Ok` found the row in the expected state, with an amount that covers
-- the request, and committed exactly the new state and one journal entry.
pub transition_ok :
    (calls : Calls) (id : String) (amount : Option ℕ) (expected next : ReservationState)
    (event_type : String) (store : Store)
    → (transition calls id amount expected next event_type store).0 ≡ ok tt
    → (row : StoredReservation) × (select id store.reservations ≡ some row)
      × (row.state ≡ as_str expected)
      × (get_or amount row.amount ≤ row.amount)
      × ((transition calls id amount expected next event_type store).1
          ≡ moved_store calls row id (get_or amount row.amount) next event_type store)
unfolding transition
transition_ok calls id amount expected next event_type store h =
    elim (Option-cases (select id store.reservations)) [
      | inl missing ↦ ground arith
      | inr (row, found) ↦ (
        row,
        found,
        ground (arith, eq_iff row.state (as_str expected)),
        ground arith,
        ground arith,
      )
    ]

-- The store after a transition: the old one, or the one that the transaction committed.
pub transition_store :
    (calls : Calls) (id : String) (amount : Option ℕ) (expected next : ReservationState)
    (event_type : String) (store : Store)
    → ((transition calls id amount expected next event_type store).1 ≡ store)
      ⊎ ((row : StoredReservation) × (select id store.reservations ≡ some row)
          × (row.state ≡ as_str expected)
          × ((transition calls id amount expected next event_type store).1
              ≡ moved_store calls row id (get_or amount row.amount) next event_type store))
unfolding transition
transition_store calls id amount expected next event_type store =
    elim (Option-cases (select id store.reservations)) [
      | inl missing ↦ inl (ground arith)
      | inr (row, found) ↦
          elim (Result-cases (transition calls id amount expected next event_type store).0) [
            | inl (done, h) ↦
                inr (row, found, ground (arith, eq_iff row.state (as_str expected)), ground arith)
            | inr (e, h) ↦ inl (ground arith)
          ]
    ]

pub hold_store :
    (calls : Calls) (req : ReservationRequest) (store : Store)
    → ((hold calls req store).1 ≡ store) ⊎ ((hold calls req store).1 ≡ held_store calls req store)
unfolding hold
hold_store calls req store = elim (Result-cases (hold calls req store).0) [
  | inl (done, h) ↦ inr (ground arith)
  | inr (e, h) ↦ inl (ground arith)
]

-- An operation that returns an error, whatever its cause, leaves both tables as they were.
pub error_rolls_back :
    (calls : Calls) (req : ReservationRequest) (id : String) (amount : ℕ) (given : Option ℕ)
    (store : Store) (e : ReservationError)
    → ((hold calls req store).0 ≡ err e → (hold calls req store).1 ≡ store)
      × ((consume calls id amount store).0 ≡ err e → (consume calls id amount store).1 ≡ store)
      × ((release calls id given store).0 ≡ err e → (release calls id given store).1 ≡ store)
unfolding hold consume release
error_rolls_back calls req id amount given store e =
    (λ h. ground arith, λ h. ground arith, λ h. ground arith)

-- When the database responds, `require_held` approves exactly a held reservation whose amount
-- covers the request, and its decision repeats that row.
pub require_held_iff :
    (calls : Calls) (id : String) (amount : ℕ) (store : Store) (d : ReservationDecision)
    → Responds calls
    → (require_held calls id amount store ≡ ok d) ↔ (
        (row : StoredReservation) × (select id store.reservations ≡ some row)
        × (row.state ≡ "held")
        × (amount ≤ row.amount)
        × (d ≡ record {
          reservation_id = row.reservation_id;
          execution_id = row.execution_id;
          asset = row.asset;
          amount = row.amount;
          state = held;
        }))
unfolding require_held as_str
require_held_iff calls id amount store d r = (
  λ h. elim (Option-cases (select id store.reservations)) [
    | inl missing ↦ ground arith
    | inr (row, found) ↦
        (row, found, ground (arith, eq_iff row.state "held"), ground arith, ground arith)
  ],
  λ (row, found, state, covers, d_eq). ground (arith, eq_iff row.state "held"),
)

-- When the database responds, `consume` succeeds exactly on a held reservation whose amount covers
-- the request, and `release` exactly on a consumed one, whatever amount was consumed.
pub consume-release_iff :
    (calls : Calls) (id : String) (amount : ℕ) (given : Option ℕ) (store : Store)
    → Responds calls
    → (((consume calls id amount store).0 ≡ ok tt) ↔ (
        (row : StoredReservation) × (select id store.reservations ≡ some row)
        × (row.state ≡ "held")
        × (amount ≤ row.amount)))
      × (((release calls id given store).0 ≡ ok tt) ↔ (
          (row : StoredReservation) × (select id store.reservations ≡ some row)
          × (row.state ≡ "consumed")
          × (get_or given row.amount ≤ row.amount)))
unfolding consume release as_str
consume-release_iff calls id amount given store r = (
  (
    λ h. elim (Option-cases (select id store.reservations)) [
      | inl missing ↦ ground arith
      | inr (row, found) ↦ (row, found, ground (arith, eq_iff row.state "held"), ground arith)
    ],
    λ (row, found, state, covers). ground (arith, eq_iff row.state "held"),
  ),
  (
    λ h. elim (Option-cases (select id store.reservations)) [
      | inl missing ↦ ground arith
      | inr (row, found) ↦ (row, found, ground (arith, eq_iff row.state "consumed"), ground arith)
    ],
    λ (row, found, state, covers). ground (arith, eq_iff row.state "consumed"),
  ),
)

-- A request for more than the held amount is reported as a wrong state, although the reservation
-- is in the state that the error names, and nothing is written.
pub over_amount_is_invalid_state :
    (calls : Calls) (id : String) (amount : ℕ) (store : Store) (row : StoredReservation)
    → Responds calls
    → select id store.reservations ≡ some row
    → row.state ≡ "held"
    → row.amount < amount
    → (consume calls id amount store ≡ (err (invalid_state id "held"), store))
      × (require_held calls id amount store ≡ err (invalid_state id "held"))
unfolding consume require_held as_str
over_amount_is_invalid_state calls id amount store row r found state over =
    (ground (arith, eq_iff row.state "held"), ground (arith, eq_iff row.state "held"))

-- No operation ever returns `AmountExceeded`.
pub never_amount_exceeded :
    (calls : Calls) (req : ReservationRequest) (id j : String) (amount n m : ℕ) (given : Option ℕ)
    (store : Store)
    → ((hold calls req store).0 ≢ err (amount_exceeded j n m))
      × (require_held calls id amount store ≢ err (amount_exceeded j n m))
      × ((consume calls id amount store).0 ≢ err (amount_exceeded j n m))
      × ((release calls id given store).0 ≢ err (amount_exceeded j n m))
unfolding hold require_held consume release
never_amount_exceeded calls req id j amount n m given store =
    (λ h. ground arith, λ h. ground arith, λ h. ground arith, λ h. ground arith)
