-- ===== src/Daemon/Dispatch.antt =====
-- What reaches the signer and what is spent when a request for an action is authorised.
use a2ex.Base.{
  ◌≤◌, String, ◌≡◌, refl, ◌⊎◌, inl, inr, true, some, [], ◌∷◌, ◌++◌, arith, ok, Result-cases,
  Bool-cases, Option-cases, eq_refl, eq_iff,
}
use a2ex.Base.Int.{ℤ}
use a2ex.Ipc.{LocalTransport, JsonRpcRequest}
use a2ex.Policy.{PolicyInput, PolicyDecision}
use a2ex.Signer.{ApprovalResult, LocalPeerIdentity, ValidatedSignerBridge}
use a2ex.Reservation.Types.{
  ReservationDecision, StoredReservation, Store, consumed, released, as_str,
}
use a2ex.Reservation.Table.{Calls, select, append_journal_entry}
use a2ex.Reservation.Manager.{consume, release, require_held, moved_store, released_event_type}
use a2ex.Reservation.Rows.{moved, select-update_state}
use a2ex.Reservation.Outcomes.{transition_ok}
use a2ex.Daemon.Types.{ExecutionRequest, AuthorizationVerdict, World}
use a2ex.Daemon.Authorization.{
  DecodedControlRequest, Answers, Reply, policy_input, verdict_of, is_allowed, deny, spend,
  record_dispatch, dispatch_allowed, authorize_and_dispatch_to_signer, decode_control_request,
  approval_of, no_hold_code, no_release_code, no_hold_message, no_release_message,
}

-- the reservation is released
abbrev pub IsReleased : String → Store → Type 0
IsReleased id store =
    (row : StoredReservation) × (select id store.reservations ≡ some row) × (row.state ≡ "released")

-- the policy allows the request, as it is or with modifications
abbrev pub IsAllowed : {V : Type 0} → (PolicyInput → PolicyDecision V) → ExecutionRequest → Type 0
IsAllowed {V} policy request =
    (verdict : AuthorizationVerdict V) × (verdict_of (policy (policy_input request)) ≡ ok verdict)
    × (is_allowed verdict ≡ true)

-- the signer's bridge answers the request for approval
abbrev pub IsAnswered :
    LocalTransport → ValidatedSignerBridge → LocalPeerIdentity → ExecutionRequest → Type 0
IsAnswered transport bridge peer request =
    (r : ApprovalResult) × (bridge.request_approval_from_peer peer (approval_of transport request)
      ≡ ok r)

-- a held reservation covers the amount
abbrev pub IsCovered : ExecutionRequest → Store → Type 0
IsCovered request store =
    (row : StoredReservation) × (select request.reservation_id store.reservations ≡ some row)
    × (row.state ≡ "held")
    × (request.notional_usd ≤ row.amount)

pub release-IsReleased :
    (calls : Calls) (request : ExecutionRequest) (store : Store)
    → (release calls request.reservation_id (some request.notional_usd) store).0 ≡ ok tt
    → IsReleased request.reservation_id
        (release calls request.reservation_id (some request.notional_usd) store).1
unfolding release moved_store append_journal_entry as_str
release-IsReleased calls request store h =
    let (row, found, _, _, left) =
      transition_ok calls request.reservation_id (some request.notional_usd) consumed released
        released_event_type store h in
    (moved "released" calls.now row, rw (left, select-update_state, found, eq_refl) refl, refl)

pub decoded_request :
    (transport : LocalTransport) (request : JsonRpcRequest ExecutionRequest)
    (decoded : DecodedControlRequest)
    → decode_control_request transport request ≡ ok decoded
    → decoded.request ≡ request.params
unfolding decode_control_request
decoded_request transport request decoded h = ground arith

module _ {V : Type 0} (path : String) where
  -- A request's reservation is spent and the handler goes on, or the handler stops with a denial.
  pub spend_cases :
      (answers : Answers) (id : String) (request : ExecutionRequest) (world : World)
      (k : World → Reply V)
      → ((code : ℤ) × (message : String) × (store : Store) × (spend path answers id request world k
            ≡ deny id code message (record world { store = store })))
        ⊎ ((store : Store) × (spend path answers id request world k
              ≡ k (record world { store = store }))
            × IsReleased request.reservation_id store)
  unfolding spend
  spend_cases answers id request world k =
      let c = consume answers.consumes request.reservation_id request.notional_usd world.store in
      let r = release answers.releases request.reservation_id (some request.notional_usd) c.1 in
      elim (Result-cases c.0) [
        | inr (e, f) ↦ inl (no_hold_code, no_hold_message path request e, c.1, rw (f, spend))
        | inl (t, f) ↦ elim (Result-cases r.0) [
          | inr (e, g) ↦
              inl (no_release_code, no_release_message path request e, r.1, rw (f, spend) (rw g))
          | inl (t', g) ↦
              inr (r.1, rw (f, spend) (rw g), release-IsReleased answers.releases request c.1 g)
        ]
      ]

  module _ (policy : PolicyInput → PolicyDecision V) (transport : LocalTransport)
      (bridge : ValidatedSignerBridge) where
    -- the signer was handed nothing, or the request with a hold and the bridge's answer
    abbrev HandsOff : ExecutionRequest → LocalPeerIdentity → World → World → Type 0
    HandsOff request peer before after =
        (after.handoffs ≡ before.handoffs)
        ⊎ ((after.handoffs ≡ before.handoffs ++ request ∷ [])
            × IsCovered request before.store
            × IsAnswered transport bridge peer request)

    pub spend-handoffs :
        (answers : Answers) (id : String) (request : ExecutionRequest)
        (verdict : AuthorizationVerdict V) (world : World)
        → (spend path answers id request world
            (record_dispatch policy transport path answers id request verdict)).1.handoffs
          ≡ world.handoffs
    unfolding record_dispatch
    spend-handoffs answers id request verdict world =
        elim (spend_cases answers id request world
          (record_dispatch policy transport path answers id request verdict)) [
            | inl (code, message, store, e) ↦ rw e
            | inr (store, e, _) ↦ elim (Bool-cases answers.persists) [
              | inl good ↦ rw (e, good)
              | inr bad ↦ rw (e, bad)
            ]
          ]

    require_held-IsCovered :
        (calls : Calls) (request : ExecutionRequest) (store : Store) (d : ReservationDecision)
        → require_held calls request.reservation_id request.notional_usd store ≡ ok d
        → IsCovered request store
    unfolding require_held as_str
    require_held-IsCovered calls request store d h =
        elim (Option-cases (select request.reservation_id store.reservations)) [
          | inl missing ↦ ground arith
          | inr (row, found) ↦ (row, found, ground (arith, eq_iff row.state "held"), ground arith)
        ]

    dispatch_allowed-HandsOff :
        (answers : Answers) (id : String) (request : ExecutionRequest)
        (verdict : AuthorizationVerdict V) (peer : LocalPeerIdentity) (world : World)
        → HandsOff request peer world
            (dispatch_allowed policy transport path bridge answers id request verdict peer world).1
    unfolding dispatch_allowed
    dispatch_allowed-HandsOff answers id request verdict peer world =
        elim (Result-cases
          (require_held answers.requires request.reservation_id request.notional_usd world.store)) [
            | inr (e, f) ↦ inl (rw (f, dispatch_allowed))
            | inl (d, f) ↦
                elim (Result-cases
                  (bridge.request_approval_from_peer peer (approval_of transport request))) [
                    | inr (e, g) ↦ inl (rw (f, dispatch_allowed) (rw g))
                    | inl (r, g) ↦ inr (
                      rw (f, dispatch_allowed) (rw g (spend-handoffs answers id request verdict _)),
                      require_held-IsCovered answers.requires request world.store d f,
                      (r, g),
                    )
                  ]
          ]

    -- A dispatch hands the signer nothing, or just the request; the latter only if the policy
    -- allows it, a held reservation covers its notional, and the signer's bridge answers without
    -- an error.
    pub dispatch_hands_off :
        (answers : Answers) (request : JsonRpcRequest ExecutionRequest) (peer : LocalPeerIdentity)
        (world : World)
        → ((authorize_and_dispatch_to_signer policy transport path bridge answers request peer
              world).1.handoffs
            ≡ world.handoffs)
          ⊎ (((authorize_and_dispatch_to_signer policy transport path bridge answers request peer
                  world).1.handoffs
                ≡ world.handoffs ++ request.params ∷ [])
              × IsAllowed policy request.params
              × IsCovered request.params world.store
              × IsAnswered transport bridge peer request.params)
    unfolding authorize_and_dispatch_to_signer
    dispatch_hands_off answers request peer world =
        elim (Result-cases (decode_control_request transport request)) [
          | inr (x, d) ↦ inl (rw (d, authorize_and_dispatch_to_signer))
          | inl (decoded, d) ↦
              let same = decoded_request transport request decoded d in
              elim (Result-cases (verdict_of (policy (policy_input decoded.request)))) [
                | inr (reason, e) ↦ inl (rw (d, authorize_and_dispatch_to_signer) (rw e))
                | inl (verdict, e) ↦ elim (Bool-cases (is_allowed verdict)) [
                  | inr held_back ↦
                      inl (rw (d, authorize_and_dispatch_to_signer) (rw e (rw held_back)))
                  | inl may ↦
                      elim (dispatch_allowed-HandsOff answers request.id decoded.request verdict
                        peer world) [
                          | inl none' ↦
                              inl (rw (d, authorize_and_dispatch_to_signer) (rw e (rw may none')))
                          | inr (one, covered, answered) ↦ inr (
                            rw (d, authorize_and_dispatch_to_signer)
                                (rw e (rw may (rw (← same) one))),
                            rw (← same) (verdict, e, may),
                            rw (← same) covered,
                            rw (← same) answered,
                          )
                        ]
                ]
              ]
        ]
