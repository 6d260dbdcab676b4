-- ===== src/Daemon/Payments.antt =====
-- What a fast-path action leaves of its reservation.
use mathlib.Core.Path.{subst}
use a2ex.Base.{
  ℕ, suc, ◌≡◌, refl, inl, inr, Bool, some, List, [], ◌∷◌, ok, err, Bool-cases, Option-cases,
  Result-cases, if◌then◌else◌,
}
use a2ex.Evm.{TxLifecycleEvent, TxLifecycleReport, terminal_status}
use a2ex.FastPath.{PreparedFastAction}
use a2ex.Ipc.{LocalTransport}
use a2ex.Signer.{LocalPeerIdentity, ValidatedSignerBridge}
use a2ex.Reservation.Types.{Store}
use a2ex.Reservation.Manager.{require_held, consume, release}
use a2ex.Daemon.Types.{World}
use a2ex.Daemon.Dispatch.{IsReleased, release-IsReleased}
use a2ex.Daemon.FastAction.{
  ActionAnswers, ActionReply, action_notional_usd, action_request, action_approval, is_confirmed,
  prepared_action_into_evm_transaction, with_state, persist_events, pay, submit,
  execute_fast_path_action,
}

-- A report that ends confirmed is paid: the reservation is released. Another report leaves the
-- reservations as they were.
abbrev pub IsSettled : PreparedFastAction → Store → ActionReply → Type 0
IsSettled action before (err e, after) = Unit
IsSettled action before (ok report, after) =
    if is_confirmed (terminal_status report)
    then IsReleased action.reservation_id after.store
    else (after.store ≡ before)

persist_events_store :
    (action : PreparedFastAction) (persists : ℕ → Bool) (index : ℕ) (events : List TxLifecycleEvent)
    (world : World)
    → (persist_events action persists index events world).1.store ≡ world.store
unfolding persist_events
persist_events_store action persists index [] world = refl
persist_events_store action persists index (event ∷ events) world =
    elim (Bool-cases (persists index)) [
      | inr bad ↦ rw (bad, persist_events)
      | inl good ↦
          rw (good, persist_events) (persist_events_store action persists (suc index) events _)
    ]

pay-IsSettled :
    (answers : ActionAnswers) (action : PreparedFastAction) (report : TxLifecycleReport)
    (world : World)
    → IsSettled action world.store (pay answers action report world)
unfolding pay
pay-IsSettled answers action report world =
    let paid =
      consume answers.consumes action.reservation_id (action_notional_usd action) world.store in
    let freed =
      release answers.releases action.reservation_id (some (action_notional_usd action)) paid.1 in
    elim (Bool-cases (is_confirmed (terminal_status report))) [
      | inr other ↦ rw (other, pay) (rw other refl)
      | inl confirmed ↦ elim (Result-cases paid.0) [
        | inr (e, f) ↦ rw (confirmed, pay) (rw f tt)
        | inl (t, f) ↦ elim (Result-cases freed.0) [
          | inr (e, g) ↦ rw (confirmed, pay) (rw (f, g) tt)
          | inl (t', g) ↦
              rw (confirmed, pay)
                (rw (f, g)
                  (rw confirmed
                    (release-IsReleased answers.releases (action_request action) paid.1 g)))
        ]
      ]
    ]

submit-IsSettled :
    (answers : ActionAnswers) (action : PreparedFastAction) (world : World)
    → IsSettled action world.store (submit answers action world)
unfolding submit
submit-IsSettled answers action world = elim (Bool-cases answers.opens) [
  | inr bad ↦ rw (bad, submit) tt
  | inl good ↦ elim (Option-cases answers.submits) [
    | inl refused ↦ rw (good, submit) (rw refused tt)
    | inr (report, e) ↦
        let kept =
          persist_events_store action answers.persists 0 report.events
            (with_state action "prepared" world) in
        let (all, after) =
          persist_events action answers.persists 0 report.events
            (with_state action "prepared" world) in
        elim (Bool-cases all) [
          | inr bad ↦ rw (good, submit) (rw e (rw bad tt))
          | inl persisted ↦
              rw (good, submit)
                (rw e (
                  rw persisted (
                    subst (λ (s : Store). IsSettled action s (pay answers action report after)) kept
                      (pay-IsSettled answers action report after))))
        ]
  ]
]

-- A fast-path action that returns a report has its reservation released if the report ends
-- confirmed, and otherwise leaves the reservations as they were.
pub execute_fast_path_action-IsSettled :
    (transport : LocalTransport) (bridge : ValidatedSignerBridge) (answers : ActionAnswers)
    (action : PreparedFastAction) (peer : LocalPeerIdentity) (world : World)
    → IsSettled action world.store
        (execute_fast_path_action transport bridge answers action peer world)
unfolding execute_fast_path_action
execute_fast_path_action-IsSettled transport bridge answers action peer world =
    elim (Result-cases (
      require_held answers.requires action.reservation_id (action_notional_usd action)
        world.store)) [
          | inr (e, f) ↦ rw (f, execute_fast_path_action) tt
          | inl (d, f) ↦
              elim (Result-cases
                (bridge.request_approval_from_peer peer (action_approval transport action))) [
                  | inr (e, g) ↦ rw (f, execute_fast_path_action) (rw g tt)
                  | inl (r, g) ↦
                      elim (Result-cases (
                        bridge.sign_transaction_from_peer peer (record {
                          payload = (prepared_action_into_evm_transaction action).calldata;
                        }))) [
                          | inr (e, k) ↦ rw (f, execute_fast_path_action) (rw (g, k) tt)
                          | inl (signed, k) ↦
                              rw (f, execute_fast_path_action)
                                (rw (g, k) (submit-IsSettled answers action _))
                        ]
                ]
        ]
