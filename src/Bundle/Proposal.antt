-- ===== src/Bundle/Proposal.antt =====
-- `generate_proposal_packet` of daemon/crates/a2ex-skill-bundle/src/proposal.rs. Its `BundleResult`
-- is `Ok` on every path.
use mathlib.Core.List.{flat_map}
use a2ex.Base.{
  String, List, [], ◌∷◌, ◌++◌, map, keep, Option, none, some, get_or, not, ◌==◌, if◌then◌else◌,
}
use a2ex.Base.Text.{trim, join}
use a2ex.Base.Equality.{unique}
use a2ex.Bundle.Model.{BundleDiagnostic, BundleLoadOutcome, Url}
use a2ex.Bundle.Reading.{
  SkillBundleInterpretationStatus, InterpretationEvidence, evidence_eq, InterpretationPlanSummary,
  InterpretationBlocker, SkillBundleInterpretation, ProposalReadiness,
  ProposalQuantitativeCompleteness, ProposalQuantitativeProfile, SkillProposalPacket,
}
use a2ex.Bundle.Reading.SkillBundleInterpretationStatus.{
  interpreted_ready, needs_setup, needs_owner_decision, ambiguous,
}

pub data QuantitativeField : Type 0 where
  capital : QuantitativeField
  cost : QuantitativeField

abbrev pub label : QuantitativeField → String
label capital = "capital profile"
label cost = "cost profile"

abbrev pub title_case_label : QuantitativeField → String
title_case_label capital = "Capital profile"
title_case_label cost = "Cost profile"

abbrev pub contract_phrase : QuantitativeField → String
contract_phrase capital = "capital requirements, bankroll sizing, or venue allocation limits"
contract_phrase cost = "cost estimates, fee ranges, or execution expenses"

unfoldable pub derive_proposal_readiness : SkillBundleInterpretationStatus → ProposalReadiness
derive_proposal_readiness SkillBundleInterpretationStatus.blocked = ProposalReadiness.blocked
derive_proposal_readiness interpreted_ready = ProposalReadiness.ready
derive_proposal_readiness needs_setup = ProposalReadiness.incomplete
derive_proposal_readiness needs_owner_decision = ProposalReadiness.incomplete
derive_proposal_readiness ambiguous = ProposalReadiness.incomplete

abbrev pub interpretation_status_reason : SkillBundleInterpretationStatus → String
interpretation_status_reason interpreted_ready = "ready"
interpretation_status_reason needs_setup = "waiting on setup requirements"
interpretation_status_reason needs_owner_decision = "waiting on owner decisions"
interpretation_status_reason ambiguous = "ambiguous"
interpretation_status_reason SkillBundleInterpretationStatus.blocked = "blocked"

unfoldable pub collect_unique_evidence : List InterpretationEvidence → List InterpretationEvidence
collect_unique_evidence = unique

abbrev pub plan_summary_evidence : Option InterpretationPlanSummary → List InterpretationEvidence
plan_summary_evidence none = []
plan_summary_evidence (some summary) = summary.evidence

abbrev diagnostic_evidence : BundleDiagnostic → Option Url → List InterpretationEvidence
diagnostic_evidence diagnostic none = []
diagnostic_evidence diagnostic (some source_url) =
    record {
      document_id = get_or diagnostic.document_id "bundle";
      section_id = none;
      section_slug = diagnostic.section_slug;
      source_url = source_url;
    }
    ∷ []

abbrev pub fallback_outcome_evidence : BundleLoadOutcome → List InterpretationEvidence
fallback_outcome_evidence outcome =
    flat_map (λ diagnostic. diagnostic_evidence diagnostic diagnostic.source_url)
      outcome.diagnostics

unfoldable pub join_with_semicolons : List String → String
unfolding join trim
join_with_semicolons values =
    let joined = join "; " (keep (λ value. not (trim value == "")) values) in
    if joined == "" then "owner decisions remain unresolved" else joined

abbrev pub first_summary : List InterpretationBlocker → String
first_summary [] = "bundle blockers remain unresolved"
first_summary (blocker ∷ _) = blocker.summary

-- the profile for a status that the interpretation has
unfoldable pub profile_for :
    SkillBundleInterpretationStatus
    → QuantitativeField
    → BundleLoadOutcome
    → SkillBundleInterpretation
    → ProposalQuantitativeProfile
unfolding join join_with_semicolons collect_unique_evidence
profile_for SkillBundleInterpretationStatus.blocked field outcome i = record {
  completeness = ProposalQuantitativeCompleteness.blocked;
  summary = join "" (label field ∷ " is blocked pending load and interpretation blockers." ∷ []);
  reason = join "" (
      title_case_label field
      ∷ " is blocked because owner setup or other required bundle truth is missing: "
      ∷ first_summary i.blockers
      ∷ "."
      ∷ []);
  evidence = collect_unique_evidence (
      flat_map (λ blocker. blocker.evidence) i.blockers
      ++ i.provenance
      ++ fallback_outcome_evidence outcome);
}
profile_for needs_owner_decision field outcome i = record {
  completeness = ProposalQuantitativeCompleteness.requires_owner_input;
  summary =
      join ""
        (title_case_label field ∷ " depends on owner choices that are still unresolved." ∷ []);
  reason = join "" (
      title_case_label field
      ∷ " requires owner input before it can be stated truthfully because the bundle still asks the owner to decide: "
      ∷ join_with_semicolons (map (λ decision. decision.decision_text) i.owner_decisions)
      ∷ "."
      ∷ []);
  evidence = collect_unique_evidence (
      flat_map (λ decision. decision.evidence) i.owner_decisions
      ++ plan_summary_evidence i.plan_summary
      ++ i.provenance
      ++ fallback_outcome_evidence outcome);
}
profile_for interpreted_ready field outcome i = record {
  completeness = ProposalQuantitativeCompleteness.not_in_bundle_contract;
  summary =
      join "" (title_case_label field ∷ " is not specified by the current bundle contract." ∷ []);
  reason = join "" (
      "The bundle does not specify "
      ∷ contract_phrase field
      ∷ " in the current contract, so the proposal packet leaves this field incomplete instead of inventing quantitative values."
      ∷ []);
  evidence =
      collect_unique_evidence
        (plan_summary_evidence i.plan_summary ++ i.provenance ++ fallback_outcome_evidence outcome);
}
profile_for status field outcome i = record {
  completeness = ProposalQuantitativeCompleteness.unknown;
  summary = join "" (title_case_label field ∷ " is currently unknown." ∷ []);
  reason = join "" (
      "The bundle does not specify "
      ∷ contract_phrase field
      ∷ " and the current interpretation remains "
      ∷ interpretation_status_reason status
      ∷ ". The proposal packet keeps this quantitative field explicit and incomplete rather than guessing."
      ∷ []);
  evidence = collect_unique_evidence (
      flat_map (λ ambiguity. ambiguity.evidence) i.ambiguities
      ++ flat_map (λ requirement. requirement.evidence) i.setup_requirements
      ++ plan_summary_evidence i.plan_summary
      ++ i.provenance
      ++ fallback_outcome_evidence outcome);
}

unfoldable pub build_quantitative_profile :
    QuantitativeField → BundleLoadOutcome → SkillBundleInterpretation → ProposalQuantitativeProfile
build_quantitative_profile field outcome i = profile_for i.status field outcome i

unfoldable pub generate_proposal_packet :
    BundleLoadOutcome → SkillBundleInterpretation → SkillProposalPacket
generate_proposal_packet outcome i = record {
  interpretation_status = i.status;
  proposal_readiness = derive_proposal_readiness i.status;
  plan_summary = i.plan_summary;
  setup_requirements = i.setup_requirements;
  owner_override_points = i.owner_decisions;
  automation_boundaries = i.automation_boundaries;
  risk_framing = i.risks;
  capital_profile = build_quantitative_profile QuantitativeField.capital outcome i;
  cost_profile = build_quantitative_profile QuantitativeField.cost outcome i;
  ambiguities = i.ambiguities;
  blockers = i.blockers;
  provenance = i.provenance;
}
