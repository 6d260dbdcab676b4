-- ===== src/Onboarding/Reports.antt =====
-- The reports on a strategy's runtime that other crates read, of
-- daemon/crates/a2ex-onboarding/src/model.rs. Of each struct it has the fields that they read.
use a2ex.Base.{String, Option, none, some, ◌≡◌, refl, ◌↔◌, ◌==◌, if◌then◌else◌, arith, eq_iff, ap}
use a2ex.Base.Equality.{PartialEq, eq_by, text_eq, pair_eq}

pub data StrategyRuntimeHoldReason : Type 0 where
  route_readiness_stale : StrategyRuntimeHoldReason
  route_readiness_incomplete : StrategyRuntimeHoldReason
  route_readiness_missing : StrategyRuntimeHoldReason
  approved_selection_revision_stale : StrategyRuntimeHoldReason
  runtime_control_paused : StrategyRuntimeHoldReason
  runtime_control_stopped : StrategyRuntimeHoldReason

abbrev pub as_str : StrategyRuntimeHoldReason → String
as_str route_readiness_stale = "route_readiness_stale"
as_str route_readiness_incomplete = "route_readiness_incomplete"
as_str route_readiness_missing = "route_readiness_missing"
as_str approved_selection_revision_stale = "approved_selection_revision_stale"
as_str runtime_control_paused = "runtime_control_paused"
as_str runtime_control_stopped = "runtime_control_stopped"

unfoldable pub from_str : String → Option StrategyRuntimeHoldReason
from_str value =
    if value == "route_readiness_stale"
    then some route_readiness_stale
    else if value == "route_readiness_incomplete"
    then some route_readiness_incomplete
    else if value == "route_readiness_missing"
    then some route_readiness_missing
    else if value == "approved_selection_revision_stale"
    then some approved_selection_revision_stale
    else if value == "runtime_control_paused"
    then some runtime_control_paused
    else if value == "runtime_control_stopped"
    then some runtime_control_stopped
    else none

from_str-as_str : (reason : StrategyRuntimeHoldReason) → from_str (as_str reason) ≡ some reason
unfolding from_str
from_str-as_str route_readiness_stale = refl
from_str-as_str route_readiness_incomplete = refl
from_str-as_str route_readiness_missing = refl
from_str-as_str approved_selection_revision_stale = refl
from_str-as_str runtime_control_paused = refl
from_str-as_str runtime_control_stopped = refl

as_str-from_str :
    (value : String) (reason : StrategyRuntimeHoldReason)
    → from_str value ≡ some reason
    → value ≡ as_str reason
unfolding from_str
as_str-from_str value reason h = ground (
  arith,
  eq_iff value "route_readiness_stale",
  eq_iff value "route_readiness_incomplete",
  eq_iff value "route_readiness_missing",
  eq_iff value "approved_selection_revision_stale",
  eq_iff value "runtime_control_paused",
  eq_iff value "runtime_control_stopped",
)

-- A text is read as a hold reason exactly when it is the text that the reason is written as, so
-- that writing a reason and reading it back gives the reason.
pub from_str_iff :
    (value : String) (reason : StrategyRuntimeHoldReason)
    → (from_str value ≡ some reason) ↔ (value ≡ as_str reason)
from_str_iff value reason = (as_str-from_str value reason, λ e. rw e (from_str-as_str reason))

pub as_str_injective : (a b : StrategyRuntimeHoldReason) → as_str a ≡ as_str b → a ≡ b
as_str_injective a b h = cc (from_str-as_str a, from_str-as_str b, ap from_str h)

instance abbrev pub hold_reason_eq : PartialEq StrategyRuntimeHoldReason
hold_reason_eq = eq_by as_str as_str_injective

pub record StrategyRuntimeLastOutcome : Type 0 where
  pub code : String
  pub message : String
  pub observed_at : String

abbrev pub outcome_parts : StrategyRuntimeLastOutcome → (String × String) × String
outcome_parts o = ((o.code, o.message), o.observed_at)

pub outcome_injective :
    (a b : StrategyRuntimeLastOutcome) → outcome_parts a ≡ outcome_parts b → a ≡ b
outcome_injective a b h = ground arith

instance abbrev pub last_outcome_eq : PartialEq StrategyRuntimeLastOutcome
last_outcome_eq = eq_by outcome_parts outcome_injective

pub record StrategyOperatorReport : Type 0 where
  pub hold_reason : Option StrategyRuntimeHoldReason
  pub control_mode : String
  pub last_runtime_failure : Option StrategyRuntimeLastOutcome
  pub last_runtime_rejection : Option StrategyRuntimeLastOutcome

pub record StrategyRuntimeHoldException : Type 0 where
  pub reason_code : StrategyRuntimeHoldReason
  pub summary : String
  pub observed_at : Option String

pub record StrategyExceptionRollup : Type 0 where
  pub active_hold : Option StrategyRuntimeHoldException
  pub last_runtime_failure : Option StrategyRuntimeLastOutcome
  pub last_runtime_rejection : Option StrategyRuntimeLastOutcome

pub record StrategyReportWindow : Type 0 where
  pub current_operator_report : StrategyOperatorReport
