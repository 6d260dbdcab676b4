-- ===== src/Harness/Verdicts.antt =====
-- When the live harness lets a run pass, and when it fails one.
use mathlib.Core.Option
use a2ex.Base.{
  String, List, [], ◌++◌, Option, none, some, Bool, true, false, ◌≡◌, refl, ◌↔◌, arith,
  append-eq-nil_iff, ◌∙◌,
}
use a2ex.Base.Equality.{PartialEq, ◌!=◌, ne_iff, text_eq, option_eq, pair_eq}
use a2ex.Onboarding.Reports.{
  StrategyOperatorReport, StrategyExceptionRollup, StrategyReportWindow, outcome_parts,
  hold_reason_eq, last_outcome_eq,
}
use a2ex.Harness.Types.{
  RuntimeControlStatusSnapshot, RuntimeControlFailuresSnapshot, CanonicalRereadRefs, Verdict,
  AuthorityDecision, PreTradeOutcome, VerdictClassifierInput,
}
use a2ex.Harness.Verdict.{
  mismatch, when_both, window_mismatches, rollup_mismatches, status_mismatches, failures_mismatches,
  rejection_parts, collect_mismatch_diagnostics, active_hold, is_incomplete, build, route_verdict,
  rollup_verdict, authority_verdict, pretrade_verdict, classify_verdict,
}

-- What the two surfaces of a pair say is compared only where both were read.
abbrev Both : {A B : Type 0} → (A → B → Type 0) → Option A → Option B → Type 0
Both P (some a) (some b) = P a b
Both P _ _ = Unit

abbrev AgreesWithWindow : StrategyOperatorReport → StrategyReportWindow → Type 0
AgreesWithWindow report window =
    let current = window.current_operator_report in
    (report.hold_reason ≡ current.hold_reason)
    × (report.last_runtime_failure ≡ current.last_runtime_failure)
    × (report.last_runtime_rejection ≡ current.last_runtime_rejection)
    × (report.control_mode ≡ current.control_mode)

abbrev AgreesWithRollup : StrategyOperatorReport → StrategyExceptionRollup → Type 0
AgreesWithRollup report rollup =
    (report.hold_reason ≡ Option.map (λ hold. hold.reason_code) rollup.active_hold)
    × (report.last_runtime_failure ≡ rollup.last_runtime_failure)
    × (report.last_runtime_rejection ≡ rollup.last_runtime_rejection)

abbrev AgreesWithStatus : StrategyOperatorReport → RuntimeControlStatusSnapshot → Type 0
AgreesWithStatus report status = report.control_mode ≡ status.control_mode

abbrev AgreesWithFailures : StrategyOperatorReport → RuntimeControlFailuresSnapshot → Type 0
AgreesWithFailures report failures =
    Option.map rejection_parts failures.last_rejection
    ≡ Option.map outcome_parts report.last_runtime_rejection

-- The operator report agrees with each other surface that was read.
abbrev pub SurfacesAgree : VerdictClassifierInput → Type 0
SurfacesAgree input =
    let rereads = input.canonical_rereads in
    Both AgreesWithWindow rereads.operator_report rereads.report_window
    × Both AgreesWithRollup rereads.operator_report rereads.exception_rollup
    × Both AgreesWithStatus rereads.operator_report rereads.runtime_control_status
    × Both AgreesWithFailures rereads.operator_report rereads.runtime_control_failures

mismatch-eq-nil_iff :
    (differs : Bool) (code summary : String) (refs : List String)
    → (mismatch differs code summary refs ≡ []) ↔ (differs ≡ false)
mismatch-eq-nil_iff true code summary refs = (λ h. cc, λ h. cc)
mismatch-eq-nil_iff false code summary refs = (λ h. refl, λ h. refl)

no_mismatch_iff :
    {A : Type 0} ⦃e : PartialEq A⦄ (a b : A) (code summary : String) (refs : List String)
    → (mismatch (a != b) code summary refs ≡ []) ↔ (a ≡ b)
no_mismatch_iff a b code summary refs =
    let nothing = mismatch-eq-nil_iff (a != b) code summary refs in
    (λ h. (ne_iff a b).0 (nothing.0 h), λ h. nothing.1 ((ne_iff a b).1 h))

when_both-eq-nil_iff :
    {A B D : Type 0} (f : A → B → List D) (P : A → B → Type 0)
    → ((a : A) (b : B) → (f a b ≡ []) ↔ P a b)
    → (a : Option A) (b : Option B) → (when_both f a b ≡ []) ↔ Both P a b
when_both-eq-nil_iff f P same (some a) (some b) = same a b
when_both-eq-nil_iff f P same (some a) none = (λ h. tt, λ h. refl)
when_both-eq-nil_iff f P same none b = (λ h. tt, λ h. refl)

-- the parts of a concatenation are empty exactly when what they stand for holds
cat_iff :
    {D : Type 0} {P Q : Type 0} {xs ys : List D}
    → ((xs ≡ []) ↔ P)
    → ((ys ≡ []) ↔ Q)
    → ((xs ++ ys) ≡ []) ↔ (P × Q)
cat_iff {xs = xs} {ys = ys} p q = (
  λ h. let parts = (append-eq-nil_iff xs ys).0 h in (p.0 parts.0, q.0 parts.1),
  λ h. (append-eq-nil_iff xs ys).1 (p.1 h.0, q.1 h.1),
)

module _ (refs : CanonicalRereadRefs) (report : StrategyOperatorReport) where
  window_agrees :
      (window : StrategyReportWindow)
      → (window_mismatches refs report window ≡ []) ↔ AgreesWithWindow report window
  unfolding window_mismatches
  window_agrees window =
      let all =
        cat_iff
          (cat_iff (cat_iff (no_mismatch_iff _ _ _ _ _) (no_mismatch_iff _ _ _ _ _))
            (no_mismatch_iff _ _ _ _ _))
          (no_mismatch_iff _ _ _ _ _) in
      (λ h. let (((a, b), c), d) = all.0 h in (a, b, c, d), λ (a, b, c, d). all.1 (((a, b), c), d))

  rollup_agrees :
      (rollup : StrategyExceptionRollup)
      → (rollup_mismatches refs report rollup ≡ []) ↔ AgreesWithRollup report rollup
  unfolding rollup_mismatches
  rollup_agrees rollup =
      let all =
        cat_iff (cat_iff (no_mismatch_iff _ _ _ _ _) (no_mismatch_iff _ _ _ _ _))
          (no_mismatch_iff _ _ _ _ _) in
      (λ h. let ((a, b), c) = all.0 h in (a, b, c), λ (a, b, c). all.1 ((a, b), c))

  status_agrees :
      (status : RuntimeControlStatusSnapshot)
      → (status_mismatches refs report status ≡ []) ↔ AgreesWithStatus report status
  unfolding status_mismatches
  status_agrees status = no_mismatch_iff _ _ _ _ _

  failures_agrees :
      (failures : RuntimeControlFailuresSnapshot)
      → (failures_mismatches refs report failures ≡ []) ↔ AgreesWithFailures report failures
  unfolding failures_mismatches
  failures_agrees failures = no_mismatch_iff _ _ _ _ _

mismatches-eq-nil_iff :
    (input : VerdictClassifierInput)
    → (collect_mismatch_diagnostics input ≡ []) ↔ SurfacesAgree input
unfolding collect_mismatch_diagnostics
mismatches-eq-nil_iff input =
    let refs = input.canonical_reread_refs in
    let r = input.canonical_rereads in
    let all =
      cat_iff
        (cat_iff
          (cat_iff
            (when_both-eq-nil_iff _ AgreesWithWindow (window_agrees refs) r.operator_report
              r.report_window)
            (when_both-eq-nil_iff _ AgreesWithRollup (rollup_agrees refs) r.operator_report
              r.exception_rollup))
          (when_both-eq-nil_iff _ AgreesWithStatus (status_agrees refs) r.operator_report
            r.runtime_control_status))
        (when_both-eq-nil_iff _ AgreesWithFailures (failures_agrees refs) r.operator_report
          r.runtime_control_failures) in
    (λ h. let (((a, b), c), d) = all.0 h in (a, b, c, d), λ (a, b, c, d). all.1 (((a, b), c), d))

-- Everything that has to go right before the live route itself is judged.
abbrev ReachesRoute : VerdictClassifierInput → Type 0
ReachesRoute input =
    (input.pre_trade_outcome ≡ PreTradeOutcome.approval_boundary_reached)
    × (input.waiaas_authority.authority_decision ≡ AuthorityDecision.pass)
    × (active_hold input.canonical_rereads.exception_rollup ≡ none)

route_verdict-verdict :
    (input : VerdictClassifierInput) (v : Verdict) → (route_verdict input v).verdict ≡ v
unfolding route_verdict build
route_verdict-verdict input Verdict.pass = refl
route_verdict-verdict input Verdict.fail = refl
route_verdict-verdict input Verdict.hold = refl
route_verdict-verdict input Verdict.blocked = refl

pretrade_passes :
    (input : VerdictClassifierInput)
    → (pretrade_verdict input input.pre_trade_outcome).verdict ≡ Verdict.pass
    → ReachesRoute input × (input.live_route.attempt_decision ≡ Verdict.pass)
unfolding pretrade_verdict authority_verdict rollup_verdict build
pretrade_passes input h =
    ground (arith, route_verdict-verdict input input.live_route.attempt_decision)

passes_pretrade :
    (input : VerdictClassifierInput)
    → ReachesRoute input
    → (pretrade_verdict input input.pre_trade_outcome).verdict ≡ input.live_route.attempt_decision
unfolding pretrade_verdict authority_verdict rollup_verdict build
passes_pretrade input h =
    ground (arith, route_verdict-verdict input input.live_route.attempt_decision)

is_incomplete-pass :
    (input : VerdictClassifierInput)
    → input.live_route.attempt_decision ≡ Verdict.pass
    → is_incomplete input ≡ false
is_incomplete-pass input h = ground arith

-- the cases of the two guards in front of the outcome before the trade
passes :
    (input : VerdictClassifierInput)
    → (classify_verdict input).verdict ≡ Verdict.pass
    → (collect_mismatch_diagnostics input ≡ [])
      × ((pretrade_verdict input input.pre_trade_outcome).verdict ≡ Verdict.pass)
unfolding classify_verdict build
passes input h = ground arith

judged :
    (input : VerdictClassifierInput)
    → collect_mismatch_diagnostics input ≡ []
    → is_incomplete input ≡ false
    → classify_verdict input ≡ pretrade_verdict input input.pre_trade_outcome
unfolding classify_verdict
judged input agree complete = rw (agree, complete)

-- A run passes exactly when the operator report agrees with every other surface that was read, the
-- approval boundary is reached, the wallet's authority passes, the exception rollup, if read, shows
-- no active hold, and the live route's own decision is to pass. Nothing else is asked.
pub passes_iff :
    (input : VerdictClassifierInput)
    → ((classify_verdict input).verdict ≡ Verdict.pass) ↔ (
        SurfacesAgree input
        × (input.pre_trade_outcome ≡ PreTradeOutcome.approval_boundary_reached)
        × (input.waiaas_authority.authority_decision ≡ AuthorityDecision.pass)
        × (active_hold input.canonical_rereads.exception_rollup ≡ none)
        × (input.live_route.attempt_decision ≡ Verdict.pass))
passes_iff input = (
  λ h.
      let (agree, passed) = passes input h in
      let ((reached, authorised, free), decided) = pretrade_passes input passed in
      ((mismatches-eq-nil_iff input).0 agree, reached, authorised, free, decided),
  λ (agree, reached, authorised, free, decided).
      let same =
        judged input ((mismatches-eq-nil_iff input).1 agree) (is_incomplete-pass input decided) in
      rw same (passes_pretrade input (reached, authorised, free) ∙ decided),
)
