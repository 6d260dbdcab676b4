-- ===== src/Harness/Types.antt =====
-- The references, rereads and states that the live harness passes to its verdict: the structs of
-- evidence_bundle.rs, a2ex_rereads.rs, run_state.rs and verdict.rs of
-- daemon/crates/a2ex-live-harness/src.
use Prim.Native.String.{◌++◌}
use a2ex.Base.{String, List, [], ◌∷◌, Option, none, some, Bool, false, get_or}
use a2ex.Onboarding.Reports.{StrategyOperatorReport, StrategyReportWindow, StrategyExceptionRollup}

pub record CanonicalRereadRef : Type 0 where
  pub label : String
  pub evidence_ref : String
  pub description : String

pub record CanonicalRereadRefs : Type 0 where
  pub operator_report : CanonicalRereadRef
  pub report_window : CanonicalRereadRef
  pub exception_rollup : CanonicalRereadRef
  pub runtime_control_status : CanonicalRereadRef
  pub runtime_control_failures : CanonicalRereadRef

unfoldable pub for_selection : Option String → Option String → Option String → CanonicalRereadRefs
for_selection install proposal selection =
    let install_id = get_or install "{install_id}" in
    let proposal_id = get_or proposal "{proposal_id}" in
    let selection_id = get_or selection "{selection_id}" in
    let strategy_prefix =
      "a2ex://strategy-runtime/selections/"
      ++ (install_id ++ ("/" ++ (proposal_id ++ ("/" ++ selection_id)))) in
    let runtime_prefix = "a2ex://runtime/control/" ++ install_id in
    record {
      operator_report = record {
        label = "operator-report";
        evidence_ref = strategy_prefix ++ "/operator-report";
        description = "canonical operator-report reread for reconnect-safe terminal evidence";
      };
      report_window = record {
        label = "report-window";
        evidence_ref = strategy_prefix ++ "/report-window/bootstrap";
        description = "canonical report-window reread for bounded recent-change inspection";
      };
      exception_rollup = record {
        label = "exception-rollup";
        evidence_ref = strategy_prefix ++ "/exception-rollup";
        description =
            "canonical exception-rollup reread for typed hold/failure/rejection inspection";
      };
      runtime_control_status = record {
        label = "runtime control status";
        evidence_ref = runtime_prefix ++ "/status";
        description = "canonical runtime control status reread for install-scoped autonomy state";
      };
      runtime_control_failures = record {
        label = "runtime control failures";
        evidence_ref = runtime_prefix ++ "/failures";
        description = "canonical runtime control failures reread for durable rejection diagnostics";
      };
    }

abbrev pub all_refs : CanonicalRereadRefs → List String
all_refs refs =
    refs.operator_report.evidence_ref ∷ refs.report_window.evidence_ref
    ∷ refs.exception_rollup.evidence_ref ∷ refs.runtime_control_status.evidence_ref
    ∷ refs.runtime_control_failures.evidence_ref ∷ []

pub record A2exRereadDiagnostic : Type 0 where
  pub code : String
  pub summary : String
  pub evidence_refs : List String

pub record RuntimeControlRejectionSnapshot : Type 0 where
  pub code : String
  pub message : String
  pub attempted_operation : String
  pub rejected_at : String

pub record RuntimeControlStatusSnapshot : Type 0 where
  pub install_id : String
  pub scope_key : String
  pub control_mode : String
  pub autonomy_eligibility : String
  pub transition_reason : String
  pub transition_source : String
  pub transitioned_at : String
  pub last_cleared_at : Option String
  pub last_cleared_reason : Option String
  pub last_cleared_source : Option String
  pub updated_at : String
  pub status_uri : String
  pub failures_uri : String
  pub derived_from_default_state : Bool

pub record RuntimeControlFailuresSnapshot : Type 0 where
  pub install_id : String
  pub scope_key : String
  pub control_mode : String
  pub autonomy_eligibility : String
  pub transition_reason : String
  pub transition_source : String
  pub transitioned_at : String
  pub last_cleared_at : Option String
  pub last_cleared_reason : Option String
  pub last_cleared_source : Option String
  pub last_rejection : Option RuntimeControlRejectionSnapshot
  pub updated_at : String
  pub status_uri : String
  pub failures_uri : String
  pub derived_from_default_state : Bool

pub record A2exCanonicalRereads : Type 0 where
  pub collected_at : Option String
  pub operator_report : Option StrategyOperatorReport
  pub report_window : Option StrategyReportWindow
  pub exception_rollup : Option StrategyExceptionRollup
  pub runtime_control_status : Option RuntimeControlStatusSnapshot
  pub runtime_control_failures : Option RuntimeControlFailuresSnapshot
  pub diagnostics : List A2exRereadDiagnostic

pub data Verdict : Type 0 where
  pass : Verdict
  fail : Verdict
  hold : Verdict
  blocked : Verdict

pub data AuthorityDecision : Type 0 where
  pass : AuthorityDecision
  fail : AuthorityDecision
  hold : AuthorityDecision
  blocked : AuthorityDecision

pub data PreTradeOutcome : Type 0 where
  pending : PreTradeOutcome
  blocked : PreTradeOutcome
  incomplete : PreTradeOutcome
  approval_boundary_reached : PreTradeOutcome

pub record WaiaasAuthorityState : Type 0 where
  pub session_id : Option String
  pub policy_id : Option String
  pub authority_decision : AuthorityDecision
  pub reason_code : String
  pub authority_timestamp : Option String
  pub wallet_boundary : String
  pub evidence_ref : Option String

pub record LiveRouteVerdictState : Type 0 where
  pub attempt_decision : Verdict
  pub reason_code : String
  pub summary : String
  pub decisive_signal : String
  pub evidence_ref : Option String
  pub destination_chain_receipt_ref : Option String
  pub command_configured : Bool
  pub command_completed : Bool
  pub execution_success : Bool

-- `LiveRouteVerdictState::default`
abbrev pub default_live_route : LiveRouteVerdictState
default_live_route = record {
  attempt_decision = Verdict.hold;
  reason_code = "awaiting_live_route_execution";
  summary = "approval or mutation receipts alone cannot mark the bounded live route green";
  decisive_signal = "destination-chain USDC receipt on Base";
  evidence_ref = some "live-route-evidence.json";
  destination_chain_receipt_ref = none;
  command_configured = false;
  command_completed = false;
  execution_success = false;
}

pub record VerdictMismatchDiagnostic : Type 0 where
  pub code : String
  pub summary : String
  pub evidence_refs : List String

-- The field `evidence_bundle`, which nothing of verdict.rs reads, is left out.
pub record VerdictClassifierInput : Type 0 where
  pub canonical_rereads : A2exCanonicalRereads
  pub canonical_reread_refs : CanonicalRereadRefs
  pub waiaas_authority : WaiaasAuthorityState
  pub live_route : LiveRouteVerdictState
  pub pre_trade_outcome : PreTradeOutcome
  pub regenerated_from_persisted_facts : Bool

pub record ClassifiedVerdict : Type 0 where
  pub verdict : Verdict
  pub reason_code : String
  pub decisive_evidence_ref : Option String
  pub decisive_evidence_refs : List String
  pub summary : String
  pub reasoning_summary : String
  pub reasoning_evidence_refs : List String
  pub reread_snapshot_refs : List String
  pub regenerated_from_persisted_facts : Bool
  pub mismatch_diagnostics : List VerdictMismatchDiagnostic
