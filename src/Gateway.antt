-- ===== src/Gateway.antt =====
-- The gateway of daemon/crates/a2ex-gateway/src/lib.rs: it decides which runtime serves a compiled
-- request. `F` is the type of a strategy's thresholds.
pub mod Routes
use Prim.Native.String.{◌++◌}
use a2ex.Base.{
  String, Bool, ◌&&◌, none, some, get_or, get_elem?, length, is_empty, eqb, if◌then◌else◌,
}
use a2ex.Control.{RouteDecision, RouteTarget}
use a2ex.Compiler.Types.{CompiledAgentRequest, CompiledIntent, CompiledStrategy}

pub data HoldReason : Type 0 where
  preview_only : HoldReason

abbrev summary : HoldReason → String
summary preview_only = "preview-only request stops before execution handoff"

abbrev code : HoldReason → String
code preview_only = "preview_only"

pub record FastPathRoute : Type 0 where
  pub request_id : String
  pub intent_id : String
  pub venue : String
  pub summary : String

pub record PlannedExecutionRoute : Type 0 where
  pub request_id : String
  pub source_id : String
  pub summary : String

pub record StatefulRuntimeRoute : Type 0 where
  pub request_id : String
  pub strategy_id : String
  pub summary : String

pub record HoldRoute : Type 0 where
  pub request_id : String
  pub source_id : String
  pub reason : HoldReason
  pub summary : String

pub data GatewayVerdict : Type 0 where
  fast_path : FastPathRoute → GatewayVerdict
  planned_execution : PlannedExecutionRoute → GatewayVerdict
  stateful_runtime : StatefulRuntimeRoute → GatewayVerdict
  hold : HoldRoute → GatewayVerdict

unfoldable pub route_decision : GatewayVerdict → RouteDecision
route_decision (fast_path route) = record {
  route = RouteTarget.fast_path;
  summary = route.summary;
  hold_reason = none;
}
route_decision (planned_execution route) = record {
  route = RouteTarget.planned_execution;
  summary = route.summary;
  hold_reason = none;
}
route_decision (stateful_runtime route) = record {
  route = RouteTarget.stateful_runtime;
  summary = route.summary;
  hold_reason = none;
}
route_decision (hold route) = record {
  route = RouteTarget.hold;
  summary = route.summary;
  hold_reason = some (code route.reason);
}

unfoldable is_fast_path_eligible : CompiledIntent → Bool
is_fast_path_eligible intent =
    eqb (length intent.constraints.allowed_venues) 1
    && eqb intent.constraints.hedge_ratio_bps 0
    && is_empty intent.post_actions

-- the route of `classify_intent` to a venue
abbrev pub fast_route : CompiledIntent → String → FastPathRoute
fast_route intent venue = record {
  request_id = intent.audit.request_id;
  intent_id = intent.intent_id;
  venue = venue;
  summary = "deterministic single-venue intent " ++ (intent.intent_id ++ " can use fast path");
}

-- `allowed_venues[0]` stands behind the test of the length, so its default is never taken.
unfoldable pub classify_intent : CompiledIntent → GatewayVerdict
unfolding is_fast_path_eligible
classify_intent intent =
    if intent.audit.preview_only
    then hold (record {
      request_id = intent.audit.request_id;
      source_id = intent.intent_id;
      reason = preview_only;
      summary = summary preview_only;
    })
    else if is_fast_path_eligible intent
    then fast_path (fast_route intent (get_or (get_elem? intent.constraints.allowed_venues 0) ""))
    else planned_execution (record {
      request_id = intent.audit.request_id;
      source_id = intent.intent_id;
      summary =
          "intent "
          ++ (intent.intent_id
              ++ " needs planned execution because it spans multiple routing concerns");
    })

unfoldable classify_strategy : {F : Type 0} → CompiledStrategy F → GatewayVerdict
classify_strategy strategy =
    if strategy.audit.preview_only
    then hold (record {
      request_id = strategy.audit.request_id;
      source_id = strategy.strategy_id;
      reason = preview_only;
      summary = summary preview_only;
    })
    else stateful_runtime (record {
      request_id = strategy.audit.request_id;
      strategy_id = strategy.strategy_id;
      summary = "strategy " ++ (strategy.strategy_id ++ " requires stateful runtime orchestration");
    })

unfoldable pub classify : {F : Type 0} → CompiledAgentRequest F → GatewayVerdict
unfolding classify_intent classify_strategy
classify (CompiledAgentRequest.intent intent) = classify_intent intent
classify (CompiledAgentRequest.strategy strategy) = classify_strategy strategy
