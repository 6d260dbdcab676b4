-- ===== src/Harness/Rereads.antt =====
-- `collect_canonical_rereads` and `reread_runtime_control` of
-- daemon/crates/a2ex-live-harness/src/a2ex_rereads.rs. What onboarding's inspections, the state
-- database and the clock answer are inputs: a failed answer is the error's text.
use a2ex.Base.{
  String, List, [], ◌∷◌, ◌++◌, Option, none, some, is_some, is_empty, ◌==◌, Bool, true, false, ◌&&◌,
  if◌then◌else◌, Result, ok, err,
}
use a2ex.Onboarding.Reports.{StrategyOperatorReport, StrategyReportWindow, StrategyExceptionRollup}
use a2ex.Harness.Types.{
  CanonicalRereadRefs, RuntimeControlRejectionSnapshot, RuntimeControlStatusSnapshot,
  RuntimeControlFailuresSnapshot, A2exCanonicalRereads,
}

-- the row of the table runtime_control
pub record RuntimeControlRow : Type 0 where
  pub scope_key : String
  pub control_mode : String
  pub transition_reason : String
  pub transition_source : String
  pub transitioned_at : String
  pub last_cleared_at : Option String
  pub last_cleared_reason : Option String
  pub last_cleared_source : Option String
  pub last_rejection_code : Option String
  pub last_rejection_message : Option String
  pub last_rejection_operation : Option String
  pub last_rejection_at : Option String
  pub updated_at : String

abbrev rejection_of :
    Option String
    → Option String
    → Option String
    → Option String
    → Option RuntimeControlRejectionSnapshot
rejection_of (some code) (some message) (some operation) (some at) =
    some
      (record { code = code; message = message; attempted_operation = operation; rejected_at = at })
rejection_of _ _ _ _ = none

abbrev Control : Type 0
Control = RuntimeControlStatusSnapshot × RuntimeControlFailuresSnapshot

-- the two snapshots that agree on all that both hold
both : RuntimeControlStatusSnapshot → Option RuntimeControlRejectionSnapshot → Control
both s last_rejection = (
  s,
  record {
    install_id = s.install_id;
    scope_key = s.scope_key;
    control_mode = s.control_mode;
    autonomy_eligibility = s.autonomy_eligibility;
    transition_reason = s.transition_reason;
    transition_source = s.transition_source;
    transitioned_at = s.transitioned_at;
    last_cleared_at = s.last_cleared_at;
    last_cleared_reason = s.last_cleared_reason;
    last_cleared_source = s.last_cleared_source;
    last_rejection = last_rejection;
    updated_at = s.updated_at;
    status_uri = s.status_uri;
    failures_uri = s.failures_uri;
    derived_from_default_state = s.derived_from_default_state;
  },
)

snapshots : String → String → CanonicalRereadRefs → Option RuntimeControlRow → Control
unfolding both
snapshots now install_id refs (some row) =
    both
      (record {
        install_id = install_id;
        scope_key = row.scope_key;
        control_mode = row.control_mode;
        autonomy_eligibility = if row.control_mode == "active" then "eligible" else "blocked";
        transition_reason = row.transition_reason;
        transition_source = row.transition_source;
        transitioned_at = row.transitioned_at;
        last_cleared_at = row.last_cleared_at;
        last_cleared_reason = row.last_cleared_reason;
        last_cleared_source = row.last_cleared_source;
        updated_at = row.updated_at;
        status_uri = refs.runtime_control_status.evidence_ref;
        failures_uri = refs.runtime_control_failures.evidence_ref;
        derived_from_default_state = false;
      })
      (rejection_of row.last_rejection_code row.last_rejection_message row.last_rejection_operation
        row.last_rejection_at)
snapshots now install_id refs none =
    both
      (record {
        install_id = install_id;
        scope_key = "autonomous_runtime";
        control_mode = "active";
        autonomy_eligibility = "eligible";
        transition_reason = "default_active_state";
        transition_source = "state_db_default";
        transitioned_at = now;
        last_cleared_at = none;
        last_cleared_reason = none;
        last_cleared_source = none;
        updated_at = now;
        status_uri = refs.runtime_control_status.evidence_ref;
        failures_uri = refs.runtime_control_failures.evidence_ref;
        derived_from_default_state = true;
      })
      none

-- What the database, or the connection to it, answers to the query.
unfoldable pub reread_runtime_control :
    String
    → Result String (Option RuntimeControlRow)
    → String
    → CanonicalRereadRefs
    → Result String Control
unfolding snapshots
reread_runtime_control now (err error) install_id refs = err error
reread_runtime_control now (ok row) install_id refs = ok (snapshots now install_id refs row)

-- What the three inspections and the query answer, and what the clock shows.
pub record Answers : Type 0 where
  pub now : String
  pub operator_report : Result String StrategyOperatorReport
  pub report_window : Result String StrategyReportWindow
  pub exception_rollup : Result String StrategyExceptionRollup
  pub runtime_control : Result String (Option RuntimeControlRow)

abbrev diagnose : String → String → List String → A2exCanonicalRereads → A2exCanonicalRereads
diagnose code summary refs r = record r {
  diagnostics =
      r.diagnostics ++ record { code = code; summary = summary; evidence_refs = refs } ∷ [];
}

add_report :
    CanonicalRereadRefs
    → Result String StrategyOperatorReport
    → A2exCanonicalRereads
    → A2exCanonicalRereads
add_report refs (ok report) r = record r { operator_report = some report }
add_report refs (err error) r =
    diagnose "operator_report_reread_failed" error (refs.operator_report.evidence_ref ∷ []) r

add_window :
    CanonicalRereadRefs
    → Result String StrategyReportWindow
    → A2exCanonicalRereads
    → A2exCanonicalRereads
add_window refs (ok window) r = record r { report_window = some window }
add_window refs (err error) r =
    diagnose "report_window_reread_failed" error (refs.report_window.evidence_ref ∷ []) r

add_rollup :
    CanonicalRereadRefs
    → Result String StrategyExceptionRollup
    → A2exCanonicalRereads
    → A2exCanonicalRereads
add_rollup refs (ok rollup) r = record r { exception_rollup = some rollup }
add_rollup refs (err error) r =
    diagnose "exception_rollup_reread_failed" error (refs.exception_rollup.evidence_ref ∷ []) r

add_selection :
    Answers
    → CanonicalRereadRefs
    → Option String
    → Option String
    → Option String
    → A2exCanonicalRereads
    → A2exCanonicalRereads
unfolding add_report add_window add_rollup
add_selection answers refs (some _) (some _) (some _) r =
    add_rollup refs answers.exception_rollup
      (add_window refs answers.report_window (add_report refs answers.operator_report r))
add_selection answers refs _ _ _ r =
    diagnose "selection_identity_missing_for_strategy_rereads"
      "install_id, proposal_id, and selection_id are required before operator-report, report-window, and exception-rollup can be reread"
      (refs.operator_report.evidence_ref ∷ refs.report_window.evidence_ref
        ∷ refs.exception_rollup.evidence_ref ∷ [])
      r

add_control :
    CanonicalRereadRefs → Result String Control → A2exCanonicalRereads → A2exCanonicalRereads
add_control refs (ok (status, failures)) r = record r {
  runtime_control_status = some status;
  runtime_control_failures = some failures;
}
add_control refs (err error) r =
    diagnose "runtime_control_reread_failed" error
      (refs.runtime_control_status.evidence_ref ∷ refs.runtime_control_failures.evidence_ref ∷ []) r

add_install :
    Answers → CanonicalRereadRefs → Option String → A2exCanonicalRereads → A2exCanonicalRereads
unfolding add_control reread_runtime_control
add_install answers refs (some install_id) r =
    add_control refs (reread_runtime_control answers.now answers.runtime_control install_id refs) r
add_install answers refs none r =
    diagnose "install_identity_missing_for_runtime_control_rereads"
      "install_id is required before runtime control status and failures can be reread"
      (refs.runtime_control_status.evidence_ref ∷ refs.runtime_control_failures.evidence_ref ∷ []) r

unfoldable pub collect_canonical_rereads :
    Answers
    → Option String
    → Option String
    → Option String
    → CanonicalRereadRefs
    → A2exCanonicalRereads
unfolding add_selection add_install
collect_canonical_rereads answers install_id proposal_id selection_id refs =
    add_install answers refs install_id (
      add_selection answers refs install_id proposal_id selection_id (record {
        collected_at = some answers.now;
        operator_report = none;
        report_window = none;
        exception_rollup = none;
        runtime_control_status = none;
        runtime_control_failures = none;
        diagnostics = [];
      }))

abbrev pub collected_successfully : A2exCanonicalRereads → Bool
collected_successfully r =
    is_some r.operator_report
    && is_some r.report_window
    && is_some r.exception_rollup
    && is_some r.runtime_control_status
    && is_some r.runtime_control_failures
    && is_empty r.diagnostics
