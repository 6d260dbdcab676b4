-- ===== src/Tests/Requests.antt =====
-- The theorems of the compiler, the gateway, the planner, the policy and the fast path on one
-- intent and one strategy.
use a2ex.Base.{
  ℕ, ◌-◌, ◌*◌, ◌/◌, ◌^◌, ◌<◌, String, true, false, some, none, List, [], ◌∷◌, refl, ◌≡◌, ◌↔◌, All,
  arith, ok,
}
use a2ex.Base.Text.{to_ascii_uppercase}
use a2ex.Control.{AgentRequestEnvelope, AgentRequestKind, Intent, Strategy, ExecutionUrgency}
use a2ex.Compiler.Types.{CompiledIntent, CompiledPostAction, CompiledStrategy, CompiledAgentRequest}
use a2ex.Compiler.Normalize.{normalize_venues}
use a2ex.Compiler.Envelope.{validate_envelope, compile_audit}
use a2ex.Compiler.Intents.{compile_post_action, compile_intent}
use a2ex.Compiler.Venues.{Chain, Lt, Mem, requested, normalize_venues_lem}
use a2ex.Compiler.IntentLaws.{
  IsCompilable, IsWellFormed, compile_intent_iff, compile_intent-IsWellFormed,
}
use a2ex.Compiler.StrategyLaws
use a2ex.Compiler.StrategyLaws.{compile_strategy_iff}
use a2ex.Compiler.Strategies.{compile_strategy}
use a2ex.Policy.{PolicyInput}
use a2ex.Planner.Types.{ExecutionPlan, VenueKind}
use a2ex.Planner.Matrix.{m001_defaults, venue}
use a2ex.Planner.Plan.{
  prediction_candidates, hedge_venue, requested_hedge, build_plan, plan_intent, hedge_notional,
}
use a2ex.Planner.Success.{IsKnown, HasKind, Any, HedgeIsKnown, plan_intent_iff}
use a2ex.Planner.Steps.{
  IsOrdered, TradesTarget, traded, plan_intent-unhedged, plan_intent-IsOrdered, plan-TradesTarget,
  hedge_notional_overflow,
}
use a2ex.Planner.Ranking.{IsBest, plan_intent-IsBest}
use a2ex.Tests.Numbers.{parse_hundredths}

abbrev envelope_of : {T : Type 0} → AgentRequestKind → T → AgentRequestEnvelope T
envelope_of kind payload = record {
  request_id = "req-1";
  request_kind = kind;
  source_agent_id = "agent-1";
  submitted_at = "2026-03-11T00:00:00Z";
  payload = payload;
  rationale = record { summary = "hedged entry"; main_risks = [] };
  execution_preferences = record {
    preview_only = false;
    allow_fast_path = true;
    client_request_label = none;
  };
}

abbrev intent_envelope : AgentRequestEnvelope Intent
intent_envelope = envelope_of AgentRequestKind.intent (record {
  intent_id = "intent-1";
  intent_type = "open_exposure";
  objective = record {
    domain = "prediction_market";
    target_market = "us-election-2028";
    side = "yes";
    target_notional_usd = 3000;
  };
  constraints = record {
    allowed_venues = " Polymarket" ∷ "kalshi" ∷ "hyperliquid" ∷ [];
    max_slippage_bps = 80;
    max_fee_usd = 25;
    urgency = ExecutionUrgency.normal;
    hedge_ratio_bps = some 4000;
  };
  funding = record { preferred_asset = "usdc"; source_chain = "base" };
  post_actions = record { action_type = "hedge"; venue = "hyperliquid" } ∷ [];
})

abbrev pub hedge_action : CompiledPostAction
hedge_action = record { action_type = "hedge"; venue = "hyperliquid" }

abbrev pub intent : CompiledIntent
intent = record {
  audit = record {
    request_id = "req-1";
    source_agent_id = "agent-1";
    submitted_at = "2026-03-11T00:00:00Z";
    rationale_summary = "hedged entry";
    preview_only = false;
    client_request_label = none;
  };
  intent_id = "intent-1";
  intent_type = "open_exposure";
  objective = record {
    domain = "prediction_market";
    target_market = "us-election-2028";
    side = "yes";
    target_notional_usd = 3000;
  };
  constraints = record {
    allowed_venues = "hyperliquid" ∷ "kalshi" ∷ "polymarket" ∷ [];
    max_slippage_bps = 80;
    max_fee_usd = 25;
    urgency = ExecutionUrgency.normal;
    hedge_ratio_bps = 4000;
  };
  funding = record { preferred_asset = "USDC"; source_chain = "base" };
  post_actions = hedge_action ∷ [];
}

compile_intent-envelope : compile_intent intent_envelope ≡ ok intent
unfolding compile_intent compile_audit validate_envelope compile_post_action normalize_venues
    to_ascii_uppercase
compile_intent-envelope = refl

abbrev pub plan : ExecutionPlan
plan = build_plan intent m001_defaults "polymarket" (some "kalshi") (some "hyperliquid")

plan_intent-intent : plan_intent intent m001_defaults ≡ ok plan
unfolding plan_intent prediction_candidates hedge_venue venue
plan_intent-intent = refl

compile_intent_iff_example :
    ((c : CompiledIntent) × (compile_intent intent_envelope ≡ ok c)) ↔ IsCompilable intent_envelope
compile_intent_iff_example = compile_intent_iff intent_envelope

compile_intent-IsWellFormed_example : IsWellFormed intent
compile_intent-IsWellFormed_example =
    compile_intent-IsWellFormed intent_envelope intent compile_intent-envelope

normalize_venues_lem_example :
    Chain Lt (normalize_venues ("kalshi" ∷ " Across" ∷ "kalshi" ∷ []))
    × (Mem "across" (normalize_venues ("kalshi" ∷ " Across" ∷ "kalshi" ∷ []))
        ↔ Mem "across" (requested ("kalshi" ∷ " Across" ∷ "kalshi" ∷ [])))
normalize_venues_lem_example = normalize_venues_lem ("kalshi" ∷ " Across" ∷ "kalshi" ∷ []) "across"

plan_intent_iff_example : ((p : ExecutionPlan) × (plan_intent intent m001_defaults ≡ ok p)) ↔ (
    All (IsKnown m001_defaults) intent.constraints.allowed_venues
    × Any (HasKind m001_defaults VenueKind.prediction_market) intent.constraints.allowed_venues
    × HedgeIsKnown m001_defaults (requested_hedge intent))
plan_intent_iff_example = plan_intent_iff intent m001_defaults

plan_intent-IsOrdered_example : IsOrdered plan
plan_intent-IsOrdered_example = plan_intent-IsOrdered intent m001_defaults plan plan_intent-intent

plan_intent-IsBest_example : IsBest m001_defaults intent.constraints.allowed_venues plan
plan_intent-IsBest_example = plan_intent-IsBest intent m001_defaults plan plan_intent-intent

hedged_at : plan.route.hedge_venue ≡ some "hyperliquid"
unfolding build_plan
hedged_at = refl

plan-TradesTarget_example : TradesTarget intent plan
plan-TradesTarget_example =
    plan-TradesTarget intent m001_defaults plan "hyperliquid" plan_intent-intent hedged_at
      (omega arith) (omega arith)

-- the intent without its hedge action, but with its ratio
abbrev unhedged : CompiledIntent
unhedged = record intent { post_actions = [] }

abbrev unhedged_plan : ExecutionPlan
unhedged_plan = build_plan unhedged m001_defaults "polymarket" (some "kalshi") none

plan_intent_of_unhedged : plan_intent unhedged m001_defaults ≡ ok unhedged_plan
unfolding plan_intent prediction_candidates hedge_venue venue
plan_intent_of_unhedged = refl

no_hedge : unhedged_plan.route.hedge_venue ≡ none
unfolding build_plan
no_hedge = refl

plan_intent-unhedged_example :
    traded unhedged_plan.steps ≡ unhedged.objective.target_notional_usd - hedge_notional unhedged
plan_intent-unhedged_example =
    plan_intent-unhedged unhedged m001_defaults unhedged_plan plan_intent_of_unhedged no_hedge

-- the intent with a target of 2 ^ 60 dollars
abbrev huge : CompiledIntent
huge = record intent {
  objective = record {
    domain = "prediction_market";
    target_market = "us-election-2028";
    side = "yes";
    target_notional_usd = 2 ^ 60;
  };
}

hedge_notional_overflow_example : hedge_notional huge < 2 ^ 60 * 4000 / 10000
hedge_notional_overflow_example = hedge_notional_overflow huge (omega arith)

abbrev request : CompiledAgentRequest ℕ
request = CompiledAgentRequest.intent intent

abbrev swap : PolicyInput
swap = record { action_id = "act-1"; action_kind = "swap"; notional_usd = 100001 }

-- a digest of no bytes and an empty text for it
abbrev no_digest : String → List ℕ
no_digest s = []

abbrev no_text : List ℕ → String
no_text bytes = ""

abbrev strategy_envelope : AgentRequestEnvelope Strategy
strategy_envelope = envelope_of AgentRequestKind.strategy (record {
  strategy_id = "strategy-1";
  strategy_type = "hedged_lp";
  watchers =
      record { watcher_type = "lp_position"; source = "local"; chain = none; target = none } ∷ [];
  trigger_rules =
      record {
        trigger_type = "drift";
        metric = "delta_exposure_pct";
        operator = ">";
        value = "2";
        cooldown_sec = some 300;
      }
      ∷ [];
  calculation_model = record { model_type = "delta_neutral"; inputs = [] };
  action_templates =
      record {
        action_type = "adjust_hedge";
        venue = "hyperliquid";
        instrument = some "ETH-PERP";
        target = none;
      }
      ∷ [];
  constraints = record {
    min_order_usd = some 100;
    max_slippage_bps = 40;
    max_rebalances_per_hour = some 2;
  };
  unwind_rules = [];
})

compile_strategy_iff_example :
    ((s : CompiledStrategy ℕ) × (compile_strategy parse_hundredths strategy_envelope ≡ ok s))
    ↔ StrategyLaws.IsCompilable parse_hundredths strategy_envelope
compile_strategy_iff_example = compile_strategy_iff parse_hundredths strategy_envelope
