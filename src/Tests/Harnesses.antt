-- ===== src/Tests/Harnesses.antt =====
-- The theorems of the live harness on one run whose surfaces agree.
use a2ex.Base.{none, some, true, false, ok, ◌≡◌, refl}
use a2ex.Onboarding.Reports.{StrategyOperatorReport, StrategyExceptionRollup}
use a2ex.Harness.Types.{
  for_selection, default_live_route, Verdict, AuthorityDecision, PreTradeOutcome,
  WaiaasAuthorityState, LiveRouteVerdictState, VerdictClassifierInput,
}
use a2ex.Harness.Rereads.{
  Answers, RuntimeControlRow, collect_canonical_rereads, collected_successfully,
}
use a2ex.Harness.Verdict.{classify_verdict}
use a2ex.Harness.Verdicts.{passes_iff}
use a2ex.Harness.Evidence.{IsTraceable, classify_verdict-IsTraceable}
use a2ex.Harness.Control.{collected_successfully_iff}

abbrev quiet_report : StrategyOperatorReport
quiet_report = record {
  hold_reason = none;
  control_mode = "active";
  last_runtime_failure = none;
  last_runtime_rejection = none;
}

abbrev quiet_rollup : StrategyExceptionRollup
quiet_rollup = record {
  active_hold = none;
  last_runtime_failure = none;
  last_runtime_rejection = none;
}

abbrev active_row : RuntimeControlRow
active_row = record {
  scope_key = "autonomous_runtime";
  control_mode = "active";
  transition_reason = "operator";
  transition_source = "mcp";
  transitioned_at = "unix:10";
  last_cleared_at = none;
  last_cleared_reason = none;
  last_cleared_source = none;
  last_rejection_code = none;
  last_rejection_message = none;
  last_rejection_operation = none;
  last_rejection_at = none;
  updated_at = "unix:10";
}

abbrev answers : Answers
answers = record {
  now = "unix:20";
  operator_report = ok quiet_report;
  report_window = ok (record { current_operator_report = quiet_report });
  exception_rollup = ok quiet_rollup;
  runtime_control = ok (some active_row);
}

abbrev authority : WaiaasAuthorityState
authority = record {
  session_id = some "session-1";
  policy_id = some "policy-1";
  authority_decision = AuthorityDecision.pass;
  reason_code = "authority_granted";
  authority_timestamp = some "unix:15";
  wallet_boundary = "waiaas";
  evidence_ref = some "waiaas-authority.json";
}

abbrev passing_route : LiveRouteVerdictState
passing_route = record default_live_route {
  attempt_decision = Verdict.pass;
  reason_code = "destination_receipt_captured";
  destination_chain_receipt_ref = some "receipt.json";
}

abbrev passing_input : VerdictClassifierInput
passing_input = record {
  canonical_rereads =
      collect_canonical_rereads answers (some "install") (some "proposal") (some "selection")
        (for_selection (some "install") (some "proposal") (some "selection"));
  canonical_reread_refs = for_selection (some "install") (some "proposal") (some "selection");
  waiaas_authority = authority;
  live_route = passing_route;
  pre_trade_outcome = PreTradeOutcome.approval_boundary_reached;
  regenerated_from_persisted_facts = false;
}

passes_iff_example : (classify_verdict passing_input).verdict ≡ Verdict.pass
unfolding collect_canonical_rereads
passes_iff_example =
    (passes_iff passing_input).1
      (((refl, refl, refl, refl), (refl, refl, refl), refl, refl), refl, refl, refl, refl)

classify_verdict-IsTraceable_example :
    IsTraceable passing_input.canonical_reread_refs (classify_verdict passing_input)
classify_verdict-IsTraceable_example = classify_verdict-IsTraceable passing_input

collected_successfully_iff_example : collected_successfully passing_input.canonical_rereads ≡ true
collected_successfully_iff_example =
    (collected_successfully_iff answers (some "install") (some "proposal") (some "selection")
        (for_selection (some "install") (some "proposal") (some "selection"))).1
      (refl, refl, refl, tt, tt, tt, tt)
