-- ===== src/Daemon/Authorization.antt =====
-- `authorize_request`, `authorize_and_prepare_execution` and `authorize_and_dispatch_to_signer`.
-- `V` is `serde_json::Value`; the policy and the signer bridge are the service's type parameters,
-- and `path` is the reservations' database.
use Prim.Native.String.{◌++◌}
use a2ex.Base.{String, Bool, true, false, [], ◌∷◌, some, Result, ok, err, ◌==◌, if◌then◌else◌}
use a2ex.Base.{◌++◌ as append}
use a2ex.Base.Int.{ℤ, negsuc}
use a2ex.Ipc.{
  LocalTransport, JsonRpcRequest, JsonRpcResponse, respond, refuse, daemon_control_method,
}
use a2ex.Policy.{PolicyInput, PolicyDecision}
use a2ex.Signer.{ApprovalRequest, LocalPeerIdentity, ValidatedSignerBridge, show_signer_error}
use a2ex.Reservation.Types.{ReservationError}
use a2ex.Reservation.Table.{Calls}
use a2ex.Reservation.Manager.{require_held, consume, release}
use a2ex.Daemon.Types.{
  ExecutionRequest, AuthorizationVerdict, AuthorizationResult, DaemonError, World,
  show_reservation_error,
}

pub record DecodedControlRequest : Type 0 where
  pub transport : LocalTransport
  pub request : ExecutionRequest

unfoldable pub decode_control_request :
    LocalTransport → JsonRpcRequest ExecutionRequest → Result DaemonError DecodedControlRequest
decode_control_request transport request =
    if request.method == daemon_control_method
    then ok (record { transport = transport; request = request.params })
    else err (DaemonError.unsupported_control_method request.method)

abbrev pub policy_input : ExecutionRequest → PolicyInput
policy_input request = record {
  action_id = request.action_id;
  action_kind = request.action_kind;
  notional_usd = request.notional_usd;
}

abbrev pub approval_of : LocalTransport → ExecutionRequest → ApprovalRequest
approval_of transport request = record {
  action_id = request.action_id;
  action_kind = request.action_kind;
  reservation_id = request.reservation_id;
  notional_usd = request.notional_usd;
  origin_transport = transport;
}

-- how the databases answer the calls of one request
pub record Answers : Type 0 where
  pub requires : Calls
  pub consumes : Calls
  pub releases : Calls
  pub persists : Bool

-- -32_010 to -32_013
abbrev rejected_code : ℤ
rejected_code = negsuc 32009

abbrev pub no_hold_code : ℤ
no_hold_code = negsuc 32010

abbrev pub no_release_code : ℤ
no_release_code = negsuc 32011

abbrev no_approval_code : ℤ
no_approval_code = negsuc 32012

abbrev pub no_hold_message : String → ExecutionRequest → ReservationError → String
no_hold_message path request error =
    "execution requires an active reservation hold for "
    ++ (request.reservation_id ++ (": " ++ show_reservation_error path error))

abbrev pub no_release_message : String → ExecutionRequest → ReservationError → String
no_release_message path request error =
    "execution cannot release reservation "
    ++ (request.reservation_id ++ (": " ++ show_reservation_error path error))

-- what a handler returns, and the state it leaves
abbrev pub Reply : Type 0 → Type 0
Reply V = Result DaemonError (JsonRpcResponse (AuthorizationResult V)) × World

module _ {V : Type 0} where
  -- the verdict of a decision, or the reason of a rejection
  abbrev pub verdict_of : PolicyDecision V → Result String (AuthorizationVerdict V)
  verdict_of PolicyDecision.allow = ok AuthorizationVerdict.allow
  verdict_of (PolicyDecision.allow_with_modifications m) =
      ok (AuthorizationVerdict.allow_with_modifications m)
  verdict_of (PolicyDecision.hold reason) = ok (AuthorizationVerdict.hold reason)
  verdict_of (PolicyDecision.reject reason) = err reason

  abbrev pub is_allowed : AuthorizationVerdict V → Bool
  is_allowed (AuthorizationVerdict.hold _) = false
  is_allowed _ = true

  abbrev pub answer : String → ExecutionRequest → AuthorizationVerdict V → World → Reply V
  answer id request verdict world =
      (ok (respond id (record { action_id = request.action_id; verdict = verdict })), world)

  abbrev pub deny : String → ℤ → String → World → Reply V
  deny id code message world = (ok (refuse id code message), world)

  -- `consume` and `release` of the request's reservation, each failure answered at once; `k` goes on
  unfoldable pub spend :
      String → Answers → String → ExecutionRequest → World → (World → Reply V) → Reply V
  spend path answers id request world k =
      let consumed =
        consume answers.consumes request.reservation_id request.notional_usd world.store in
      elim consumed.0 [
        | err e ↦
            deny id no_hold_code (no_hold_message path request e)
              (record world { store = consumed.1 })
        | ok _ ↦
            let released =
              release answers.releases request.reservation_id (some request.notional_usd)
                consumed.1 in
            elim released.0 [
              | err e ↦
                  deny id no_release_code (no_release_message path request e)
                    (record world { store = released.1 })
              | ok _ ↦ k (record world { store = released.1 })
            ]
      ]

  module _ (policy : PolicyInput → PolicyDecision V) (transport : LocalTransport)
      (path : String) where
    unfoldable authorize_request : JsonRpcRequest ExecutionRequest → World → Reply V
    unfolding decode_control_request
    authorize_request request world = elim (decode_control_request transport request) [
      | err e ↦ (err e, world)
      | ok decoded ↦ elim (verdict_of (policy (policy_input decoded.request))) [
        | err reason ↦ deny request.id rejected_code reason world
        | ok verdict ↦ answer request.id decoded.request verdict world
      ]
    ]

    unfoldable pub authorize_and_prepare_execution :
        Answers → JsonRpcRequest ExecutionRequest → World → Reply V
    authorize_and_prepare_execution answers request world =
        elim (decode_control_request transport request) [
          | err e ↦ (err e, world)
          | ok decoded ↦ elim (verdict_of (policy (policy_input decoded.request))) [
            | err reason ↦ deny request.id rejected_code reason world
            | ok verdict ↦
                if is_allowed verdict
                then spend path answers request.id decoded.request world
                    (answer request.id decoded.request verdict)
                else answer request.id decoded.request verdict world
          ]
        ]

    -- the end of a dispatch: the state is persisted, and the answer given
    unfoldable pub record_dispatch :
        Answers → String → ExecutionRequest → AuthorizationVerdict V → World → Reply V
    record_dispatch answers id request verdict world =
        if answers.persists
        then answer id request verdict (record world {
          executions = append world.executions (
              record {
                execution_id = request.action_id;
                plan_id = request.action_kind;
                status = "dispatched";
              }
              ∷ []);
        })
        else (err DaemonError.state, world)

    module _ (bridge : ValidatedSignerBridge) where
      -- what an allowed request goes through: the hold is required, the signer approves and is
      -- handed the request, and only then the reservation is spent
      unfoldable pub dispatch_allowed :
          Answers
          → String
          → ExecutionRequest
          → AuthorizationVerdict V
          → LocalPeerIdentity
          → World
          → Reply V
      dispatch_allowed answers id request verdict peer world =
          elim (require_held answers.requires request.reservation_id request.notional_usd
            world.store) [
              | err e ↦ deny id no_hold_code (no_hold_message path request e) world
              | ok _ ↦
                  elim (bridge.request_approval_from_peer peer (approval_of transport request)) [
                    | err e ↦ deny id no_approval_code (show_signer_error e) world
                    | ok _ ↦
                        spend path answers id request
                          (record world { handoffs = append world.handoffs (request ∷ []) })
                          (record_dispatch answers id request verdict)
                  ]
            ]

      unfoldable pub authorize_and_dispatch_to_signer :
          Answers → JsonRpcRequest ExecutionRequest → LocalPeerIdentity → World → Reply V
      authorize_and_dispatch_to_signer answers request peer world =
          elim (decode_control_request transport request) [
            | err e ↦ (err e, world)
            | ok decoded ↦ elim (verdict_of (policy (policy_input decoded.request))) [
              | err reason ↦ deny request.id rejected_code reason world
              | ok verdict ↦
                  if is_allowed verdict
                  then dispatch_allowed answers request.id decoded.request verdict peer world
                  else answer request.id decoded.request verdict world
            ]
          ]
