-- ===== src/Tests/Dispatches.antt =====
-- The theorems of the signer's client and of the authorisation on one request.
use a2ex.Base.{ℕ, ◌≡◌, refl, ◌↔◌, ◌⊎◌, Bool, true, false, [], ◌∷◌, ◌++◌, arith, ok}
use a2ex.Ipc.{unix_domain_socket, JsonRpcRequest, daemon_control_method}
use a2ex.Policy.{PolicyInput, PolicyDecision, default, evaluate}
use a2ex.Signer.{
  ApprovalResult, LocalPeerIdentity, SignerBridge, ValidatedSignerBridge, approval,
  strict_local_only, client,
}
use a2ex.Signer.Peers.{client-strict}
use a2ex.Reservation.Types.{StoredReservation, persist, as_str}
use a2ex.Reservation.Manager.{require_held, consume, release}
use a2ex.Reservation.Table.{select, append_journal_entry, update_state}
use a2ex.Daemon.Types.{ExecutionRequest, AuthorizationVerdict, World}
use a2ex.Daemon.Authorization.{
  decode_control_request, spend, record_dispatch, Answers, authorize_and_prepare_execution,
  authorize_and_dispatch_to_signer, dispatch_allowed, approval_of, deny, no_hold_code,
  no_hold_message,
}
use a2ex.Daemon.Dispatch.{IsAllowed, IsCovered, IsAnswered, IsReleased, dispatch_hands_off}
use a2ex.Daemon.Spending.{granted, dispatch-IsReleased, denied_yet_handed_off, handed_off_and_held}
use a2ex.Tests.Reservations.{answers, answers-Responds}

abbrev request : ExecutionRequest
request = record {
  action_id = "act-1";
  action_kind = "swap";
  notional_usd = 20;
  reservation_id = "res-1";
}

abbrev rpc : JsonRpcRequest ExecutionRequest
rpc = record { jsonrpc = "2.0"; id = "1"; method = daemon_control_method; params = request }

abbrev pub peer : LocalPeerIdentity
peer = record { transport = unix_domain_socket; same_user = true; runtime_owned_endpoint = true }

-- a bridge that gives one answer to every request for approval
abbrev pub bridge : Bool → SignerBridge
bridge approved = record {
  request_approval = λ req. ok (record { approved = approved; audit = approval req });
  sign_transaction = λ req. ok (record { bytes = req.payload });
}

abbrev pub local_client : Bool → ValidatedSignerBridge
local_client approved = client (bridge approved) strict_local_only

abbrev pub row : StoredReservation
row = record {
  reservation_id = "res-1";
  execution_id = "exec-1";
  asset = "USDC";
  amount = 25;
  state = "held";
  updated_at = "2026-03-11 00:00:00";
}

abbrev pub world : World
world = record {
  store = record { reservations = row ∷ []; journal = [] };
  handoffs = [];
  executions = [];
  steps = [];
  plans = [];
}

abbrev all_answer : Answers
all_answer = record { requires = answers; consumes = answers; releases = answers; persists = true }

-- the database is lost after the hand-off
abbrev lost : Answers
lost = record {
  requires = answers;
  consumes = record answers { connects = false };
  releases = answers;
  persists = true;
}

abbrev policy : PolicyInput → PolicyDecision ℕ
policy = evaluate default

abbrev verdict : AuthorizationVerdict ℕ
verdict = AuthorizationVerdict.allow

abbrev answer_of : Bool → ApprovalResult
answer_of approved = record {
  approved = approved;
  audit = approval (approval_of unix_domain_socket request);
}

world-IsCovered : IsCovered request world.store
unfolding select
world-IsCovered = (row, refl, refl, omega arith)

policy-IsAllowed : IsAllowed policy request
unfolding evaluate
policy-IsAllowed = (verdict, refl, refl)

answers_approval :
    (approved : Bool)
    → (local_client approved).request_approval_from_peer peer
        (approval_of unix_domain_socket request)
      ≡ ok (answer_of approved)
unfolding client
answers_approval approved = refl

client-strict_example :
    ((client (bridge true) strict_local_only).request_approval_from_peer peer
        (approval_of unix_domain_socket request)
      ≡ ok (answer_of true))
    ↔ ((peer.same_user ≡ true)
        × (peer.runtime_owned_endpoint ≡ true)
        × ((bridge true).request_approval (approval_of unix_domain_socket request)
            ≡ ok (answer_of true)))
client-strict_example =
    client-strict (bridge true) peer (approval_of unix_domain_socket request) (answer_of true)

dispatch_hands_off_example :
    ((authorize_and_dispatch_to_signer policy unix_domain_socket "state.db"
        (local_client true)
        all_answer
        rpc
        peer
        world).1.handoffs
      ≡ world.handoffs)
    ⊎ (((authorize_and_dispatch_to_signer policy unix_domain_socket "state.db"
            (local_client true)
            all_answer
            rpc
            peer
            world).1.handoffs
          ≡ world.handoffs ++ request ∷ [])
        × IsAllowed policy request
        × IsCovered request world.store
        × IsAnswered unix_domain_socket (local_client true) peer request)
dispatch_hands_off_example =
    dispatch_hands_off "state.db" policy unix_domain_socket (local_client true) all_answer rpc peer
      world

prepared :
    (authorize_and_prepare_execution policy unix_domain_socket "state.db" all_answer rpc world).0
    ≡ ok (granted rpc.id request verdict)
unfolding authorize_and_prepare_execution decode_control_request evaluate spend consume select
    as_str release append_journal_entry update_state
prepared = refl

dispatched :
    (authorize_and_dispatch_to_signer policy unix_domain_socket "state.db"
      (local_client true)
      all_answer
      rpc
      peer
      world).0
    ≡ ok (granted rpc.id request verdict)
unfolding authorize_and_dispatch_to_signer decode_control_request evaluate dispatch_allowed
    require_held select as_str client spend consume release append_journal_entry update_state
    record_dispatch
dispatched = refl

dispatch-IsReleased_example :
    IsReleased "res-1"
      (authorize_and_dispatch_to_signer policy unix_domain_socket "state.db"
        (local_client true)
        all_answer
        rpc
        peer
        world).1.store
dispatch-IsReleased_example =
    dispatch-IsReleased "state.db" policy unix_domain_socket (local_client true) all_answer rpc peer
      world verdict dispatched refl

denied_yet_handed_off_example :
    (authorize_and_dispatch_to_signer policy unix_domain_socket "state.db"
      (local_client false)
      all_answer
      rpc
      peer
      world).1.handoffs
    ≡ world.handoffs ++ request ∷ []
denied_yet_handed_off_example =
    denied_yet_handed_off "state.db" policy unix_domain_socket (local_client false) all_answer rpc
      peer world (answer_of false) refl policy-IsAllowed world-IsCovered answers-Responds
      (answers_approval false) refl

handed_off_and_held_example :
    dispatch_allowed policy unix_domain_socket "state.db"
      (local_client true)
      lost
      "1"
      request
      verdict
      peer
      world
    ≡ deny "1" no_hold_code
        (no_hold_message "state.db" request persist)
        (record world { handoffs = world.handoffs ++ request ∷ [] })
handed_off_and_held_example =
    handed_off_and_held "state.db" policy unix_domain_socket (local_client true) lost "1" request
      verdict peer world (answer_of true) (answers_approval true) world-IsCovered answers-Responds
      refl
