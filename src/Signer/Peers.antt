-- ===== src/Signer/Peers.antt =====
-- Which peers the strict client lets through to the signer.
use a2ex.Base.{true, ok, ◌≡◌, ◌↔◌, arith}
use a2ex.Signer.{
  ApprovalRequest, ApprovalResult, LocalPeerIdentity, SignerBridge, strict_local_only, client,
}

-- The strict client passes a request for approval on exactly for a peer of the runtime's own user
-- at an endpoint that the runtime owns, and then answers what the bridge answers.
pub client-strict :
    (bridge : SignerBridge) (peer : LocalPeerIdentity) (req : ApprovalRequest) (r : ApprovalResult)
    → ((client bridge strict_local_only).request_approval_from_peer peer req ≡ ok r) ↔ (
        (peer.same_user ≡ true)
        × (peer.runtime_owned_endpoint ≡ true)
        × (bridge.request_approval req ≡ ok r))
unfolding client
client-strict bridge peer req r =
    (λ h. (ground arith, ground arith, ground arith), λ (user, endpoint, answer). ground arith)
