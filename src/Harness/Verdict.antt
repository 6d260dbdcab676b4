-- ===== src/Harness/Verdict.antt =====
-- The classifier of daemon/crates/a2ex-live-harness/src/verdict.rs.
use Prim.Native.String.{◌++◌ as append}
use mathlib.Core.Option
use a2ex.Base.{
  String, List, [], ◌∷◌, ◌++◌, Option, none, some, is_empty, map, Bool, not, ◌&&◌, if◌then◌else◌,
}
use a2ex.Base.Text.{join}
use a2ex.Base.Equality.{◌!=◌, contains, text_eq, option_eq, pair_eq}
use a2ex.Onboarding.Reports.{
  StrategyOperatorReport, StrategyExceptionRollup, StrategyReportWindow,
  StrategyRuntimeHoldException, as_str, outcome_parts, hold_reason_eq, last_outcome_eq,
}
use a2ex.Harness.Types.{
  CanonicalRereadRefs, all_refs, RuntimeControlStatusSnapshot, RuntimeControlFailuresSnapshot,
  RuntimeControlRejectionSnapshot, Verdict, AuthorityDecision, PreTradeOutcome,
  VerdictMismatchDiagnostic, VerdictClassifierInput, ClassifiedVerdict,
}

-- `if differs { diagnostics.push(...) }`
abbrev pub mismatch : Bool → String → String → List String → List VerdictMismatchDiagnostic
mismatch differs code summary refs =
    if differs then record { code = code; summary = summary; evidence_refs = refs } ∷ [] else []

-- `if let (Some(a), Some(b)) = (...)`
abbrev pub when_both : {A B D : Type 0} → (A → B → List D) → Option A → Option B → List D
when_both f (some a) (some b) = f a b
when_both f _ _ = []

unfoldable pub window_mismatches :
    CanonicalRereadRefs
    → StrategyOperatorReport
    → StrategyReportWindow
    → List VerdictMismatchDiagnostic
window_mismatches refs report window =
    let current = window.current_operator_report in
    let where_found = refs.operator_report.evidence_ref ∷ refs.report_window.evidence_ref ∷ [] in
    mismatch (report.hold_reason != current.hold_reason) "operator_report_hold_reason_mismatch"
      "operator-report and report-window.current_operator_report disagree about the active hold reason"
      where_found
    ++ mismatch (report.last_runtime_failure != current.last_runtime_failure)
        "operator_report_failure_mismatch"
        "operator-report and report-window.current_operator_report disagree about the last runtime failure"
        where_found
    ++ mismatch (report.last_runtime_rejection != current.last_runtime_rejection)
        "operator_report_rejection_mismatch"
        "operator-report and report-window.current_operator_report disagree about the last runtime rejection"
        where_found
    ++ mismatch (report.control_mode != current.control_mode)
        "operator_report_control_mode_mismatch"
        "operator-report and report-window.current_operator_report disagree about runtime control mode"
        where_found

unfoldable pub rollup_mismatches :
    CanonicalRereadRefs
    → StrategyOperatorReport
    → StrategyExceptionRollup
    → List VerdictMismatchDiagnostic
rollup_mismatches refs report rollup =
    let where_found = refs.operator_report.evidence_ref ∷ refs.exception_rollup.evidence_ref ∷ [] in
    mismatch (report.hold_reason != Option.map (λ hold. hold.reason_code) rollup.active_hold)
      "operator_report_exception_hold_mismatch"
      "operator-report and exception-rollup disagree about the active hold reason" where_found
    ++ mismatch (report.last_runtime_failure != rollup.last_runtime_failure)
        "operator_report_exception_failure_mismatch"
        "operator-report and exception-rollup disagree about the last runtime failure" where_found
    ++ mismatch (report.last_runtime_rejection != rollup.last_runtime_rejection)
        "operator_report_exception_rejection_mismatch"
        "operator-report and exception-rollup disagree about the last runtime rejection" where_found

unfoldable pub status_mismatches :
    CanonicalRereadRefs
    → StrategyOperatorReport
    → RuntimeControlStatusSnapshot
    → List VerdictMismatchDiagnostic
status_mismatches refs report status =
    mismatch (report.control_mode != status.control_mode) "runtime_control_status_mismatch"
      "operator-report control_mode disagrees with runtime control status"
      (refs.operator_report.evidence_ref ∷ refs.runtime_control_status.evidence_ref ∷ [])

abbrev pub rejection_parts : RuntimeControlRejectionSnapshot → (String × String) × String
rejection_parts r = ((r.code, r.message), r.rejected_at)

unfoldable pub failures_mismatches :
    CanonicalRereadRefs
    → StrategyOperatorReport
    → RuntimeControlFailuresSnapshot
    → List VerdictMismatchDiagnostic
failures_mismatches refs report failures =
    mismatch
      (Option.map rejection_parts failures.last_rejection
        != Option.map outcome_parts report.last_runtime_rejection)
      "runtime_control_failures_mismatch"
      "operator-report last_runtime_rejection disagrees with runtime control failures"
      (refs.operator_report.evidence_ref ∷ refs.runtime_control_failures.evidence_ref ∷ [])

unfoldable pub collect_mismatch_diagnostics :
    VerdictClassifierInput → List VerdictMismatchDiagnostic
collect_mismatch_diagnostics input =
    let refs = input.canonical_reread_refs in
    let rereads = input.canonical_rereads in
    when_both (window_mismatches refs) rereads.operator_report rereads.report_window
    ++ when_both (rollup_mismatches refs) rereads.operator_report rereads.exception_rollup
    ++ when_both (status_mismatches refs) rereads.operator_report rereads.runtime_control_status
    ++ when_both (failures_mismatches refs) rereads.operator_report rereads.runtime_control_failures

abbrev pub push_new : List String → Option String → List String
push_new refs none = refs
push_new refs (some extra) = if contains refs extra then refs else refs ++ extra ∷ []

unfoldable pub evidence_refs : List String → List (Option String) → List String
evidence_refs refs [] = refs
evidence_refs refs (extra ∷ extras) = evidence_refs (push_new refs extra) extras

-- `or_else`
abbrev pub or_else : {A : Type 0} → Option A → Option A → Option A
or_else none other = other
or_else (some a) _ = some a

abbrev pub decisive_refs : Option String → List String → List String
decisive_refs (some decisive) rereads = decisive ∷ []
decisive_refs none rereads = rereads

-- `build`, with the two arguments that are the same in all of its calls taken from the input
unfoldable pub build :
    VerdictClassifierInput
    → Verdict
    → String
    → Option String
    → String
    → List (Option String)
    → List VerdictMismatchDiagnostic
    → ClassifiedVerdict
build input verdict reason_code decisive summary extras mismatches =
    let rereads = all_refs input.canonical_reread_refs in
    record {
      verdict = verdict;
      reason_code = reason_code;
      decisive_evidence_ref = decisive;
      decisive_evidence_refs = decisive_refs decisive rereads;
      summary = summary;
      reasoning_summary = summary;
      reasoning_evidence_refs = evidence_refs rereads extras;
      reread_snapshot_refs = rereads;
      regenerated_from_persisted_facts = input.regenerated_from_persisted_facts;
      mismatch_diagnostics = mismatches;
    }

-- the last `match`, on the decision of the live route
unfoldable pub route_verdict : VerdictClassifierInput → Verdict → ClassifiedVerdict
route_verdict input Verdict.pass =
    let route = input.live_route in
    build input Verdict.pass route.reason_code
      (or_else route.destination_chain_receipt_ref route.evidence_ref)
      "canonical rereads, WAIaaS authority, and live-route evidence agree that decisive destination evidence was captured"
      (input.waiaas_authority.evidence_ref ∷ route.evidence_ref
        ∷ route.destination_chain_receipt_ref ∷ [])
      []
route_verdict input verdict =
    let route = input.live_route in
    build input verdict route.reason_code route.evidence_ref route.summary
      (input.waiaas_authority.evidence_ref ∷ route.evidence_ref ∷ []) []

-- the active hold of the exception rollup, if there is one
abbrev pub active_hold : Option StrategyExceptionRollup → Option StrategyRuntimeHoldException
active_hold none = none
active_hold (some rollup) = rollup.active_hold

unfoldable pub rollup_verdict :
    VerdictClassifierInput → Option StrategyRuntimeHoldException → ClassifiedVerdict
rollup_verdict input none = route_verdict input input.live_route.attempt_decision
rollup_verdict input (some hold) =
    let refs = input.canonical_reread_refs in
    build input Verdict.hold (as_str hold.reason_code) (some refs.exception_rollup.evidence_ref)
      (append "canonical exception-rollup shows an active hold even after approval boundary: "
        hold.summary)
      (input.live_route.evidence_ref ∷ some refs.runtime_control_failures.evidence_ref ∷ []) []

unfoldable pub authority_verdict : VerdictClassifierInput → AuthorityDecision → ClassifiedVerdict
authority_verdict input AuthorityDecision.pass =
    rollup_verdict input (active_hold input.canonical_rereads.exception_rollup)
authority_verdict input AuthorityDecision.blocked =
    let authority = input.waiaas_authority in
    build input Verdict.blocked authority.reason_code authority.evidence_ref
      "WAIaaS session or policy authority blocked the live attempt before route execution"
      (authority.evidence_ref ∷ input.live_route.evidence_ref ∷ []) []
authority_verdict input AuthorityDecision.fail =
    let authority = input.waiaas_authority in
    build input Verdict.fail authority.reason_code authority.evidence_ref
      "WAIaaS authority inspection failed before the bounded live route could start"
      (authority.evidence_ref ∷ input.live_route.evidence_ref ∷ []) []
authority_verdict input AuthorityDecision.hold =
    let authority = input.waiaas_authority in
    build input Verdict.hold authority.reason_code authority.evidence_ref
      "WAIaaS authority reported a recoverable hold before route execution"
      (authority.evidence_ref ∷ input.live_route.evidence_ref ∷ []) []

unfoldable pub pretrade_verdict : VerdictClassifierInput → PreTradeOutcome → ClassifiedVerdict
pretrade_verdict input PreTradeOutcome.approval_boundary_reached =
    authority_verdict input input.waiaas_authority.authority_decision
pretrade_verdict input PreTradeOutcome.blocked =
    build input Verdict.blocked "canonical_pretrade_blocked"
      (some input.canonical_reread_refs.operator_report.evidence_ref)
      "canonical A2EX rereads show the pre-trade path is blocked before live-route success criteria can be satisfied"
      (input.waiaas_authority.evidence_ref ∷ input.live_route.evidence_ref ∷ []) []
pretrade_verdict input _ =
    build input Verdict.hold "approval_boundary_not_reached"
      (some input.canonical_reread_refs.operator_report.evidence_ref)
      "canonical A2EX rereads have not yet reached an approved selection, so the bounded live route cannot be considered pass or fail"
      (input.waiaas_authority.evidence_ref ∷ input.live_route.evidence_ref ∷ []) []

abbrev pub is_blocked : PreTradeOutcome → Bool
is_blocked PreTradeOutcome.blocked = Bool.true
is_blocked _ = Bool.false

abbrev pub is_pass : Verdict → Bool
is_pass Verdict.pass = Bool.true
is_pass _ = Bool.false

-- whether the incomplete rereads hold the verdict back
abbrev pub is_incomplete : VerdictClassifierInput → Bool
is_incomplete input =
    not (is_empty input.canonical_rereads.diagnostics)
    && not (is_blocked input.pre_trade_outcome)
    && not (is_pass input.live_route.attempt_decision)

unfoldable pub classify_verdict : VerdictClassifierInput → ClassifiedVerdict
classify_verdict input =
    let mismatches = collect_mismatch_diagnostics input in
    let refs = input.canonical_reread_refs in
    let live_route_ref = input.live_route.evidence_ref in
    let authority_ref = input.waiaas_authority.evidence_ref in
    if not (is_empty mismatches)
    then build input Verdict.fail "canonical_reread_mismatch" (or_else live_route_ref authority_ref)
        "canonical rereads disagree about hold/failure/rejection state, so the final verdict cannot trust a single surface"
        (authority_ref ∷ live_route_ref ∷ some refs.runtime_control_failures.evidence_ref ∷ [])
        mismatches
    else if is_incomplete input
    then build input Verdict.hold "canonical_rereads_incomplete"
        (some refs.operator_report.evidence_ref)
        (append
          "canonical rereads are incomplete, so the verdict remains hold until operator/runtime truth can be reread safely: "
          (join "; " (map (λ d. d.summary) input.canonical_rereads.diagnostics)))
        (authority_ref ∷ live_route_ref ∷ []) []
    else pretrade_verdict input input.pre_trade_outcome
