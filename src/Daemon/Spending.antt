-- ===== src/Daemon/Spending.antt =====
-- What an authorised request leaves of its reservation, and what a failure after the hand-off
-- leaves.
use a2ex.Base.{
  String, ◌≡◌, refl, inl, inr, true, false, [], ◌∷◌, ◌++◌, arith, ok, err, Result-cases, Bool-cases,
  eq_iff,
}
use a2ex.Ipc.{LocalTransport, JsonRpcRequest, JsonRpcResponse, respond, daemon_control_method}
use a2ex.Policy.{PolicyInput, PolicyDecision}
use a2ex.Signer.{ApprovalResult, LocalPeerIdentity, ValidatedSignerBridge}
use a2ex.Reservation.Types.{Store, persist}
use a2ex.Reservation.Table.{Calls}
use a2ex.Reservation.Manager.{consume, require_held}
use a2ex.Reservation.Outcomes.{Responds, require_held_iff}
use a2ex.Daemon.Types.{ExecutionRequest, AuthorizationVerdict, AuthorizationResult, World}
use a2ex.Daemon.Authorization.{
  Answers, Reply, policy_input, verdict_of, is_allowed, answer, deny, spend, record_dispatch,
  dispatch_allowed, authorize_and_prepare_execution, authorize_and_dispatch_to_signer,
  decode_control_request, approval_of, no_hold_code, no_hold_message,
}
use a2ex.Daemon.Dispatch.{
  IsReleased, IsCovered, IsAllowed, spend-handoffs, spend_cases, decoded_request,
}

-- the success that a handler answers for a verdict
abbrev pub granted :
    {V : Type 0}
    → String
    → ExecutionRequest
    → AuthorizationVerdict V
    → JsonRpcResponse (AuthorizationResult V)
granted id request verdict =
    respond id (record { action_id = request.action_id; verdict = verdict })

-- a database that does not connect consumes nothing
consume-down :
    (calls : Calls) (request : ExecutionRequest) (store : Store)
    → calls.connects ≡ false
    → consume calls request.reservation_id request.notional_usd store ≡ (err persist, store)
unfolding consume
consume-down calls request store down = ground arith

module _ {V : Type 0} (path : String) where
  spend-IsReleased :
      (answers : Answers) (id : String) (request : ExecutionRequest) (world : World)
      (k : World → Reply V) (verdict : AuthorizationVerdict V)
      → ((w : World) → (k w).1.store ≡ w.store)
      → (spend path answers id request world k).0 ≡ ok (granted id request verdict)
      → IsReleased request.reservation_id (spend path answers id request world k).1.store
  spend-IsReleased answers id request world k verdict keeps h =
      elim (spend_cases path answers id request world k) [
        | inl (code, message, store, e) ↦ ground arith
        | inr (store, e, done) ↦ rw (e, keeps (record world { store = store })) done
      ]

  module _ (policy : PolicyInput → PolicyDecision V) (transport : LocalTransport) where
    record_dispatch_store :
        (answers : Answers) (id : String) (request : ExecutionRequest)
        (verdict : AuthorizationVerdict V) (world : World)
        → (record_dispatch policy transport path answers id request verdict world).1.store
          ≡ world.store
    unfolding record_dispatch
    record_dispatch_store answers id request verdict world = elim (Bool-cases answers.persists) [
      | inl good ↦ rw good
      | inr bad ↦ rw bad
    ]

    -- If `authorize_and_prepare_execution` grants a request that the policy allows, the request's
    -- reservation is released.
    pub prepare-IsReleased :
        (answers : Answers) (request : JsonRpcRequest ExecutionRequest) (world : World)
        (verdict : AuthorizationVerdict V)
        → (authorize_and_prepare_execution policy transport path answers request world).0
          ≡ ok (granted request.id request.params verdict)
        → is_allowed verdict ≡ true
        → IsReleased request.params.reservation_id
            (authorize_and_prepare_execution policy transport path answers request world).1.store
    unfolding authorize_and_prepare_execution
    prepare-IsReleased answers request world verdict h allowed =
        elim (Result-cases (decode_control_request transport request)) [
          | inr (x, d) ↦ let bad = rw (d, authorize_and_prepare_execution) at h in ground arith
          | inl (decoded, d) ↦
              let same = decoded_request transport request decoded d in
              elim (Result-cases (verdict_of (policy (policy_input decoded.request)))) [
                | inr (reason, e) ↦
                    let bad = rw (d, authorize_and_prepare_execution, e) at h in ground arith
                | inl (given, e) ↦ elim (Bool-cases (is_allowed given)) [
                  | inr held_back ↦
                      let bad = rw (d, authorize_and_prepare_execution, e, held_back) at h in
                      ground arith
                  | inl may ↦
                      rw (d, authorize_and_prepare_execution)
                        (rw e (
                          rw (may, ← same)
                            (spend-IsReleased answers request.id decoded.request world
                              (answer request.id decoded.request given) verdict (λ w. refl)
                              (rw (d, authorize_and_prepare_execution, e, may, ← same) at h))))
                ]
              ]
        ]

    module _ (bridge : ValidatedSignerBridge) where
      dispatch_allowed-IsReleased :
          (answers : Answers) (id : String) (request : ExecutionRequest)
          (given verdict : AuthorizationVerdict V) (peer : LocalPeerIdentity) (world : World)
          → (dispatch_allowed policy transport path bridge answers id request given peer world).0
            ≡ ok (granted id request verdict)
          → IsReleased request.reservation_id
              (dispatch_allowed policy transport path bridge answers id request given peer
                world).1.store
      unfolding dispatch_allowed
      dispatch_allowed-IsReleased answers id request given verdict peer world h =
          elim (Result-cases (
            require_held answers.requires request.reservation_id request.notional_usd
              world.store)) [
                | inr (e, f) ↦ let bad = rw (f, dispatch_allowed) at h in ground arith
                | inl (row, f) ↦
                    elim (Result-cases
                      (bridge.request_approval_from_peer peer (approval_of transport request))) [
                        | inr (e, g) ↦ let bad = rw (f, dispatch_allowed, g) at h in ground arith
                        | inl (r, g) ↦
                            rw (f, dispatch_allowed)
                              (rw g (
                                spend-IsReleased answers id request _
                                  (record_dispatch policy transport path answers id request given)
                                  verdict (record_dispatch_store answers id request given)
                                  (rw (f, dispatch_allowed, g) at h)))
                      ]
              ]

      -- If `authorize_and_dispatch_to_signer` grants a request that the policy allows, the request's
      -- reservation is released.
      pub dispatch-IsReleased :
          (answers : Answers) (request : JsonRpcRequest ExecutionRequest) (peer : LocalPeerIdentity)
          (world : World) (verdict : AuthorizationVerdict V)
          → (authorize_and_dispatch_to_signer policy transport path bridge answers request peer
              world).0
            ≡ ok (granted request.id request.params verdict)
          → is_allowed verdict ≡ true
          → IsReleased request.params.reservation_id
              (authorize_and_dispatch_to_signer policy transport path bridge answers request peer
                world).1.store
      unfolding authorize_and_dispatch_to_signer
      dispatch-IsReleased answers request peer world verdict h allowed =
          elim (Result-cases (decode_control_request transport request)) [
            | inr (x, d) ↦ let bad = rw (d, authorize_and_dispatch_to_signer) at h in ground arith
            | inl (decoded, d) ↦
                let same = decoded_request transport request decoded d in
                elim (Result-cases (verdict_of (policy (policy_input decoded.request)))) [
                  | inr (reason, e) ↦
                      let bad = rw (d, authorize_and_dispatch_to_signer, e) at h in ground arith
                  | inl (given, e) ↦ elim (Bool-cases (is_allowed given)) [
                    | inr held_back ↦
                        let bad = rw (d, authorize_and_dispatch_to_signer, e, held_back) at h in
                        ground arith
                    | inl may ↦
                        rw (d, authorize_and_dispatch_to_signer)
                          (rw e (
                            rw (may, ← same)
                              (dispatch_allowed-IsReleased answers request.id decoded.request given
                                verdict peer world
                                (rw (d, authorize_and_dispatch_to_signer, e, may, ← same) at h))))
                  ]
                ]
          ]

      -- an allowed request with a hold and an answer of the bridge goes straight to the signer
      goes_through :
          (answers : Answers) (id : String) (request : ExecutionRequest)
          (verdict : AuthorizationVerdict V) (peer : LocalPeerIdentity) (world : World)
          (r : ApprovalResult)
          → bridge.request_approval_from_peer peer (approval_of transport request) ≡ ok r
          → IsCovered request world.store
          → Responds answers.requires
          → dispatch_allowed policy transport path bridge answers id request verdict peer world
            ≡ spend path answers id request
                (record world { handoffs = world.handoffs ++ request ∷ [] })
                (record_dispatch policy transport path answers id request verdict)
      unfolding dispatch_allowed
      goes_through answers id request verdict peer world r h covered responds =
          let (row, found, state, covers) = covered in
          let required =
            (require_held_iff answers.requires request.reservation_id request.notional_usd
                world.store _ responds).1
              (row, found, state, covers, refl) in
          rw (required, dispatch_allowed) (rw h)

      -- A request of the control method that the policy allows and that a held reservation covers,
      -- in a database that answers, is handed to the signer even if the bridge answers that it is
      -- not approved.
      pub denied_yet_handed_off :
          (answers : Answers) (request : JsonRpcRequest ExecutionRequest) (peer : LocalPeerIdentity)
          (world : World) (r : ApprovalResult)
          → request.method ≡ daemon_control_method
          → IsAllowed policy request.params
          → IsCovered request.params world.store
          → Responds answers.requires
          → bridge.request_approval_from_peer peer (approval_of transport request.params) ≡ ok r
          → r.approved ≡ false
          → (authorize_and_dispatch_to_signer policy transport path bridge answers request peer
              world).1.handoffs
            ≡ world.handoffs ++ request.params ∷ []
      unfolding authorize_and_dispatch_to_signer decode_control_request
      denied_yet_handed_off answers request peer world r method allowed covered responds h denied =
          let (verdict, e, may) = allowed in
          let d : decode_control_request transport request
              ≡ ok (record { transport = transport; request = request.params }) =
            ground (arith, eq_iff request.method daemon_control_method) in
          rw (d, authorize_and_dispatch_to_signer)
            (rw e (
              rw may (
                rw
                  (goes_through answers request.id request.params verdict peer world r h covered
                    responds)
                  (spend-handoffs path policy transport bridge answers request.id request.params
                    verdict (record world { handoffs = world.handoffs ++ request.params ∷ [] })))))

      -- Where a held reservation covers an allowed request and the bridge answers, but the database
      -- is lost before the reservation is consumed, the request has been handed to the signer and
      -- is answered with the denial for a missing hold, and the reservations are as before.
      pub handed_off_and_held :
          (answers : Answers) (id : String) (request : ExecutionRequest)
          (verdict : AuthorizationVerdict V) (peer : LocalPeerIdentity) (world : World)
          (r : ApprovalResult)
          → bridge.request_approval_from_peer peer (approval_of transport request) ≡ ok r
          → IsCovered request world.store
          → Responds answers.requires
          → answers.consumes.connects ≡ false
          → dispatch_allowed policy transport path bridge answers id request verdict peer world
            ≡ deny id no_hold_code
                (no_hold_message path request persist)
                (record world { handoffs = world.handoffs ++ request ∷ [] })
      unfolding spend
      handed_off_and_held answers id request verdict peer world r h covered responds down =
          rw (goes_through answers id request verdict peer world r h covered responds) (
            let refused = consume-down answers.consumes request world.store down in
            rw (refused, spend) (rw refused))
