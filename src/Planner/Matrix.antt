-- ===== src/Planner/Matrix.antt =====
-- The capability matrix that ships with the daemon, and the lookup of a venue.
use a2ex.Base.{String, true, Option, none, some, [], ◌∷◌, find?, ◌==◌}
use a2ex.Planner.Types.{CapabilityMatrix, VenueCapability, bridge, prediction_market, hedge}

-- `matrix.venue(venue)`
unfoldable pub venue : CapabilityMatrix → String → Option VenueCapability
venue matrix name = find? (λ capability. capability.venue == name) matrix.venues

abbrev across : VenueCapability
across = record {
  venue = "across";
  kind = bridge;
  supported_step_types = "bridge_asset" ∷ [];
  supported_chains = "base" ∷ "arbitrum" ∷ "polygon" ∷ [];
  approval_requirements =
      record {
        approval_type = "erc20_allowance";
        asset = some "USDC";
        context = some "bridge_submit";
        required = true;
        summary = "Across bridge deposits require token allowance approval before submit.";
      }
      ∷ [];
  auth_summary = "Onchain bridge deposit signed locally through signer bridge.";
}

abbrev polymarket : VenueCapability
polymarket = record {
  venue = "polymarket";
  kind = prediction_market;
  supported_step_types = "place_order" ∷ "query_order_state" ∷ [];
  supported_chains = "polygon" ∷ [];
  approval_requirements =
      record {
        approval_type = "order_signature";
        asset = some "USDC";
        context = some "entry_order_submit";
        required = true;
        summary = "Polymarket orders require locally-derived auth plus signed order payloads.";
      }
      ∷ [];
  auth_summary = "Local L1 wallet auth derives and signs CLOB order payloads.";
}

abbrev kalshi : VenueCapability
kalshi = record {
  venue = "kalshi";
  kind = prediction_market;
  supported_step_types = "place_order" ∷ "query_order_state" ∷ [];
  supported_chains = [];
  approval_requirements =
      record {
        approval_type = "api_request_signature";
        asset = none;
        context = some "entry_order_submit";
        required = true;
        summary = "Kalshi REST requests require signed local API authentication.";
      }
      ∷ [];
  auth_summary = "Local API key auth signs each order request without moving credentials remote.";
}

abbrev hyperliquid : VenueCapability
hyperliquid = record {
  venue = "hyperliquid";
  kind = hedge;
  supported_step_types = "adjust_hedge" ∷ "query_position" ∷ [];
  supported_chains = [];
  approval_requirements =
      record {
        approval_type = "exchange_order_signature";
        asset = none;
        context = some "hedge_order_submit";
        required = true;
        summary = "Hyperliquid hedge orders are signed locally with signer/account separation.";
      }
      ∷ [];
  auth_summary = "Locally-signed exchange payloads with distinct signer and account identities.";
}

abbrev pub m001_defaults : CapabilityMatrix
m001_defaults = record { venues = across ∷ polymarket ∷ kalshi ∷ hyperliquid ∷ [] }
