-- ===== src/Compiler/Types.antt =====
-- The compiled forms of requests, and the compiler's issues.
use a2ex.Base.{ℕ, String, Bool, Option, List, [], ◌∷◌}
use a2ex.Control.{ExecutionUrgency}

pub record CompileAuditContext : Type 0 where
  pub request_id : String
  pub source_agent_id : String
  pub submitted_at : String
  pub rationale_summary : String
  pub preview_only : Bool
  pub client_request_label : Option String

pub record CompiledIntentObjective : Type 0 where
  pub domain : String
  pub target_market : String
  pub side : String
  pub target_notional_usd : ℕ

pub record CompiledIntentConstraints : Type 0 where
  pub allowed_venues : List String
  pub max_slippage_bps : ℕ
  pub max_fee_usd : ℕ
  pub urgency : ExecutionUrgency
  pub hedge_ratio_bps : ℕ

pub record CompiledFunding : Type 0 where
  pub preferred_asset : String
  pub source_chain : String

pub record CompiledPostAction : Type 0 where
  pub action_type : String
  pub venue : String

pub record CompiledIntent : Type 0 where
  pub audit : CompileAuditContext
  pub intent_id : String
  pub intent_type : String
  pub objective : CompiledIntentObjective
  pub constraints : CompiledIntentConstraints
  pub funding : CompiledFunding
  pub post_actions : List CompiledPostAction

pub record CompiledWatcher : Type 0 where
  pub watcher_type : String
  pub source : String
  pub chain : Option String
  pub target : Option String

-- `F` is the type of thresholds, `f64` in the source.
pub record CompiledTriggerRule (F : Type 0) : Type 0 where
  pub trigger_type : String
  pub metric : String
  pub operator : String
  pub threshold : F
  pub cooldown_sec : ℕ

pub record CompiledCalculationModel : Type 0 where
  pub model_type : String
  pub inputs : List String

pub record CompiledActionTemplate : Type 0 where
  pub action_type : String
  pub venue : String
  pub instrument : Option String
  pub target : Option String

pub record CompiledStrategyConstraints : Type 0 where
  pub min_order_usd : ℕ
  pub max_slippage_bps : ℕ
  pub max_rebalances_per_hour : ℕ

pub record CompiledStrategy (F : Type 0) : Type 0 where
  pub audit : CompileAuditContext
  pub strategy_id : String
  pub strategy_type : String
  pub watchers : List CompiledWatcher
  pub trigger_rules : List (CompiledTriggerRule F)
  pub calculation_model : CompiledCalculationModel
  pub action_templates : List CompiledActionTemplate
  pub constraints : CompiledStrategyConstraints
  pub unwind_conditions : List String

pub data CompiledAgentRequest (F : Type 0) : Type 0 where
  intent : CompiledIntent → CompiledAgentRequest F
  strategy : CompiledStrategy F → CompiledAgentRequest F

pub record CompilerIssue : Type 0 where
  pub field : String
  pub code : String
  pub message : String

pub record CompilerFailure : Type 0 where
  pub issues : List CompilerIssue

pub record CompilerError : Type 0 where
  pub failure : CompilerFailure

-- `CompilerError::from_issues`
abbrev pub from_issues : List CompilerIssue → CompilerError
from_issues issues = record { failure = record { issues = issues } }

-- `CompilerError::single`
abbrev pub single : String → String → String → CompilerError
single field code message =
    from_issues (record { field = field; code = code; message = message } ∷ [])
