-- ===== src/Signer.antt =====
-- The signer bridge of daemon/crates/a2ex-signer-bridge/src/lib.rs: who may talk to the signer, and
-- what an approval asks and answers. `{:?}` of a transport is written out.
pub mod Peers
use Prim.Native.String.{◌++◌}
use a2ex.Base.{
  ℕ, String, Bool, true, false, not, ◌&&◌, ◌||◌, List, [], ◌∷◌, any, Result, ◌>>◌, fail_if,
}
use a2ex.Base.Text.{decimal}
use a2ex.Ipc.{LocalTransport, unix_domain_socket, named_pipe}

pub record TxSignRequest : Type 0 where
  pub payload : List ℕ  -- bytes

pub record SignedTx : Type 0 where
  pub bytes : List ℕ

pub record ApprovalRequest : Type 0 where
  pub action_id : String
  pub action_kind : String
  pub reservation_id : String
  pub notional_usd : ℕ  -- u64
  pub origin_transport : LocalTransport

pub record SignerBridgeRequestRecord : Type 0 where
  pub request_kind : String
  pub action_id : String
  pub reservation_id : String
  pub action_kind : String
  pub notional_usd : ℕ  -- u64
  pub origin_transport : LocalTransport

-- `SignerBridgeRequestRecord::approval`
abbrev pub approval : ApprovalRequest → SignerBridgeRequestRecord
approval req = record {
  request_kind = "approval";
  action_id = req.action_id;
  reservation_id = req.reservation_id;
  action_kind = req.action_kind;
  notional_usd = req.notional_usd;
  origin_transport = req.origin_transport;
}

pub record ApprovalResult : Type 0 where
  pub approved : Bool
  pub audit : SignerBridgeRequestRecord

pub record LocalPeerIdentity : Type 0 where
  pub transport : LocalTransport
  pub same_user : Bool
  pub runtime_owned_endpoint : Bool

pub record LocalPeerValidator : Type 0 where
  pub allowed_transports : List LocalTransport
  pub require_same_user : Bool
  pub require_runtime_owned_endpoint : Bool

pub data SignerBridgeError : Type 0 where
  explicit_bridge_required : SignerBridgeError
  peer_validation unsupported_operation : String → SignerBridgeError
  http_error : ℕ → String → SignerBridgeError
  auth_error network_error : String → SignerBridgeError

-- the error's `Display`
abbrev pub show_signer_error : SignerBridgeError → String
show_signer_error explicit_bridge_required =
    "signer request requires an explicit local bridge contract"
show_signer_error (peer_validation reason) = reason
show_signer_error (unsupported_operation operation) =
    operation ++ " is not implemented by this signer bridge"
show_signer_error (http_error status message) =
    "HTTP error " ++ (decimal status ++ (": " ++ message))
show_signer_error (auth_error message) = "authentication error: " ++ message
show_signer_error (network_error message) = "network error: " ++ message

abbrev pub strict_local_only : LocalPeerValidator
strict_local_only = record {
  allowed_transports = unix_domain_socket ∷ named_pipe ∷ [];
  require_same_user = true;
  require_runtime_owned_endpoint = true;
}

abbrev same_transport : LocalTransport → LocalTransport → Bool
same_transport unix_domain_socket unix_domain_socket = true
same_transport named_pipe named_pipe = true
same_transport _ _ = false

abbrev show_transport : LocalTransport → String
show_transport unix_domain_socket = "UnixDomainSocket"
show_transport named_pipe = "NamedPipe"

unfoldable validate : LocalPeerValidator → LocalPeerIdentity → Result SignerBridgeError (Unit {0})
validate validator peer = do
  fail_if (not (any (same_transport peer.transport) validator.allowed_transports))
      (peer_validation ("unsupported local signer transport: " ++ show_transport peer.transport))
  fail_if (validator.require_same_user && not peer.same_user) (
      peer_validation
        "local signer bridge peer validation failed: peer is not owned by the runtime user")
  fail_if (validator.require_runtime_owned_endpoint && not peer.runtime_owned_endpoint) (
      peer_validation "local signer bridge peer validation failed: endpoint ownership check failed")

-- what the daemon asks of `ValidatedSignerBridge`
pub record ValidatedSignerBridge : Type 0 where
  pub request_approval_from_peer :
      LocalPeerIdentity → ApprovalRequest → Result SignerBridgeError ApprovalResult
  pub sign_transaction_from_peer :
      LocalPeerIdentity → TxSignRequest → Result SignerBridgeError SignedTx

-- `SignerBridge`, with the two operations that the client below forwards
pub record SignerBridge : Type 0 where
  pub request_approval : ApprovalRequest → Result SignerBridgeError ApprovalResult
  pub sign_transaction : TxSignRequest → Result SignerBridgeError SignedTx

-- `LocalSignerBridgeClient`
unfoldable pub client : SignerBridge → LocalPeerValidator → ValidatedSignerBridge
unfolding validate
client bridge validator = record {
  request_approval_from_peer = λ peer req. validate validator peer >> bridge.request_approval req;
  sign_transaction_from_peer = λ peer req. validate validator peer >> bridge.sign_transaction req;
}
