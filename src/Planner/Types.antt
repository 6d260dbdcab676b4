-- ===== src/Planner/Types.antt =====
-- Venues, plans and their steps.
use a2ex.Base.{ℕ, String, Bool, Option, List}

pub data VenueKind : Type 0 where
  bridge prediction_market hedge : VenueKind

pub record ApprovalRequirement : Type 0 where
  pub approval_type : String
  pub asset : Option String
  pub context : Option String
  pub required : Bool
  pub summary : String

pub record VenueCapability : Type 0 where
  pub venue : String
  pub kind : VenueKind
  pub supported_step_types : List String
  pub supported_chains : List String
  pub approval_requirements : List ApprovalRequirement
  pub auth_summary : String

pub record CapabilityMatrix : Type 0 where
  pub venues : List VenueCapability

pub record PlannedRoute : Type 0 where
  pub bridge_venue : Option String
  pub entry_venue : String
  pub hedge_venue : Option String
  pub destination_chain : Option String
  pub fallback_entry_venue : Option String

pub record RetryPolicy : Type 0 where
  pub max_attempts : ℕ  -- u8
  pub backoff_ms : ℕ  -- u64

pub data FailureMode : Type 0 where
  abort retry fallback : FailureMode

pub record StepFailurePolicy : Type 0 where
  pub mode : FailureMode
  pub retry : RetryPolicy
  pub fallback_venue : Option String

pub record BridgeStepParams : Type 0 where
  pub asset : String
  pub amount_usd : ℕ  -- u64
  pub source_chain : String
  pub destination_chain : String

pub record EntryStepParams : Type 0 where
  pub market : String
  pub side : String
  pub notional_usd : ℕ  -- u64
  pub max_fee_usd : ℕ  -- u64
  pub max_slippage_bps : ℕ  -- u64

pub record HedgeStepParams : Type 0 where
  pub instrument : String
  pub notional_usd : ℕ  -- u64
  pub reduce_only : Bool

pub data PlanStepParams : Type 0 where
  bridge : BridgeStepParams → PlanStepParams
  entry : EntryStepParams → PlanStepParams
  hedge : HedgeStepParams → PlanStepParams

pub record PlanStep : Type 0 where
  pub step_id : String
  pub sequence : ℕ  -- u32
  pub step_type : String
  pub adapter : String
  pub approval_required : Bool
  pub idempotency_key : String
  pub failure_policy : StepFailurePolicy
  pub params : PlanStepParams

pub record PlanRiskSummary : Type 0 where
  pub expected_fee_usd : ℕ  -- u64
  pub expected_slippage_bps : ℕ  -- u64
  pub residual_unhedged_exposure_usd : ℕ  -- u64

pub record ExecutionPlan : Type 0 where
  pub plan_id : String
  pub source_kind : String
  pub source_id : String
  pub request_id : String
  pub summary : String
  pub route : PlannedRoute
  pub steps : List PlanStep
  pub risk_summary : PlanRiskSummary

pub data PlannerError : Type 0 where
  no_prediction_venue : String → PlannerError
  unsupported_venue unsupported_hedge_venue : String → String → PlannerError
