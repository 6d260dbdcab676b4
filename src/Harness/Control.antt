-- ===== src/Harness/Control.antt =====
-- What the live harness makes of the answers to its rereads.
use a2ex.Base.{String, Option, none, some, is_some, true, Result, ok, err, ◌≡◌, ◌↔◌, arith, eq_iff}
use a2ex.Harness.Types.{
  CanonicalRereadRefs, RuntimeControlStatusSnapshot, RuntimeControlFailuresSnapshot,
}
use a2ex.Harness.Rereads.{
  RuntimeControlRow, Answers, reread_runtime_control, collect_canonical_rereads,
  collected_successfully,
}

abbrev pub IsSome : Option String → Type 0
IsSome o = is_some o ≡ true

abbrev pub IsOk : {A : Type 0} → Result String A → Type 0
IsOk (ok _) = Unit
IsOk (err _) = ⊥

-- A collection of rereads is complete exactly when all three identities are known and every
-- inspection and the query of the database succeed.
pub collected_successfully_iff :
    (answers : Answers) (install_id proposal_id selection_id : Option String)
    (refs : CanonicalRereadRefs)
    → (collected_successfully
          (collect_canonical_rereads answers install_id proposal_id selection_id refs)
        ≡ true)
      ↔ (IsSome install_id
          × IsSome proposal_id
          × IsSome selection_id
          × IsOk answers.operator_report
          × IsOk answers.report_window
          × IsOk answers.exception_rollup
          × IsOk answers.runtime_control)
unfolding collect_canonical_rereads
collected_successfully_iff answers (some i) (some p) (some s) refs =
    (λ h. ground arith, λ h. ground arith)
collected_successfully_iff answers none p s refs = (λ h. ground arith, λ h. ground arith)
collected_successfully_iff answers (some i) none s refs = (λ h. ground arith, λ h. ground arith)
collected_successfully_iff answers (some i) (some p) none refs =
    (λ h. ground arith, λ h. ground arith)

-- Of a row of the database, the two snapshots of the runtime control show the same mode and the
-- same eligibility for the install that was asked for; the runtime is eligible exactly where the
-- mode is "active"; and a rejection is shown exactly where all four of its columns are filled.
pub reread_runtime_control-IsConsistent :
    (now install_id : String) (refs : CanonicalRereadRefs) (row : RuntimeControlRow)
    (status : RuntimeControlStatusSnapshot) (failures : RuntimeControlFailuresSnapshot)
    → reread_runtime_control now (ok (some row)) install_id refs ≡ ok (status, failures)
    → (status.install_id ≡ install_id)
      × (failures.install_id ≡ install_id)
      × (status.control_mode ≡ failures.control_mode)
      × (status.autonomy_eligibility ≡ failures.autonomy_eligibility)
      × ((status.autonomy_eligibility ≡ "eligible") ↔ (row.control_mode ≡ "active"))
      × ((is_some failures.last_rejection ≡ true) ↔ (
          IsSome row.last_rejection_code
          × IsSome row.last_rejection_message
          × IsSome row.last_rejection_operation
          × IsSome row.last_rejection_at))
unfolding reread_runtime_control
reread_runtime_control-IsConsistent now install_id refs row status failures h =
    let mode = eq_iff row.control_mode "active" in
    (
      ground arith,
      ground arith,
      ground arith,
      ground arith,
      (λ e. ground (arith, mode, eq_iff "blocked" "eligible"), λ e. ground (arith, mode)),
      (λ e. ground arith, λ e. ground arith),
    )
