-- ===== src/Control.antt =====
-- The request types of daemon/crates/a2ex-control/src/lib.rs: what an agent sends to the daemon.
use a2ex.Base.{ℕ, String, Bool, Option, List}

pub data AgentRequestKind : Type 0 where
  intent strategy control : AgentRequestKind

pub record RationaleSummary : Type 0 where
  pub summary : String
  pub main_risks : List String

pub record ExecutionPreferences : Type 0 where
  pub preview_only : Bool
  pub allow_fast_path : Bool
  pub client_request_label : Option String

pub record AgentRequestEnvelope (T : Type 0) : Type 0 where
  pub request_id : String
  pub request_kind : AgentRequestKind
  pub source_agent_id : String
  pub submitted_at : String
  pub payload : T
  pub rationale : RationaleSummary
  pub execution_preferences : ExecutionPreferences

pub data ExecutionUrgency : Type 0 where
  low normal high : ExecutionUrgency

pub record IntentObjective : Type 0 where
  pub domain : String
  pub target_market : String
  pub side : String
  pub target_notional_usd : ℕ  -- u64

pub record IntentConstraints : Type 0 where
  pub allowed_venues : List String
  pub max_slippage_bps : ℕ  -- u64
  pub max_fee_usd : ℕ  -- u64
  pub urgency : ExecutionUrgency
  pub hedge_ratio_bps : Option ℕ  -- u64

pub record IntentFunding : Type 0 where
  pub preferred_asset : String
  pub source_chain : String

pub record PostAction : Type 0 where
  pub action_type : String
  pub venue : String

pub record Intent : Type 0 where
  pub intent_id : String
  pub intent_type : String
  pub objective : IntentObjective
  pub constraints : IntentConstraints
  pub funding : IntentFunding
  pub post_actions : List PostAction

pub record WatcherSpec : Type 0 where
  pub watcher_type : String
  pub source : String
  pub chain : Option String
  pub target : Option String

pub record TriggerRule : Type 0 where
  pub trigger_type : String
  pub metric : String
  pub operator : String
  pub value : String
  pub cooldown_sec : Option ℕ  -- u64

pub record CalculationModel : Type 0 where
  pub model_type : String
  pub inputs : List String

pub record ActionTemplate : Type 0 where
  pub action_type : String
  pub venue : String
  pub instrument : Option String
  pub target : Option String

pub record StrategyConstraints : Type 0 where
  pub min_order_usd : Option ℕ  -- u64
  pub max_slippage_bps : ℕ  -- u64
  pub max_rebalances_per_hour : Option ℕ  -- u64

pub record UnwindRule : Type 0 where
  pub condition : String

pub record Strategy : Type 0 where
  pub strategy_id : String
  pub strategy_type : String
  pub watchers : List WatcherSpec
  pub trigger_rules : List TriggerRule
  pub calculation_model : CalculationModel
  pub action_templates : List ActionTemplate
  pub constraints : StrategyConstraints
  pub unwind_rules : List UnwindRule

pub data RouteTarget : Type 0 where
  fast_path planned_execution stateful_runtime hold : RouteTarget

pub record RouteDecision : Type 0 where
  pub route : RouteTarget
  pub summary : String
  pub hold_reason : Option String
