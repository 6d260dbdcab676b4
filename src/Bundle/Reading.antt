-- ===== src/Bundle/Reading.antt =====
-- What is read out of a bundle: the interpretation and the proposal packet of
-- daemon/crates/a2ex-skill-bundle/src/model.rs.
use a2ex.Base.{String, List, Option, ◌≡◌, arith}
use a2ex.Base.Equality.{PartialEq, eq_by, text_eq, option_eq, pair_eq}
use a2ex.Bundle.Model.{Url, BundleDiagnosticCode, BundleDiagnosticSeverity, BundleDiagnosticPhase}

pub data SkillBundleInterpretationStatus : Type 0 where
  interpreted_ready : SkillBundleInterpretationStatus
  needs_setup : SkillBundleInterpretationStatus
  needs_owner_decision : SkillBundleInterpretationStatus
  ambiguous : SkillBundleInterpretationStatus
  blocked : SkillBundleInterpretationStatus

pub record InterpretationEvidence : Type 0 where
  pub document_id : String
  pub section_id : Option String
  pub section_slug : Option String
  pub source_url : Url

abbrev pub evidence_parts :
    InterpretationEvidence → (String × Option String) × (Option String × Url)
evidence_parts e = ((e.document_id, e.section_id), (e.section_slug, e.source_url))

pub evidence_injective :
    (a b : InterpretationEvidence) → evidence_parts a ≡ evidence_parts b → a ≡ b
evidence_injective a b h = ground arith

instance abbrev pub evidence_eq : PartialEq InterpretationEvidence
evidence_eq = eq_by evidence_parts evidence_injective

pub record InterpretationPlanSummary : Type 0 where
  pub bundle_id : String
  pub title : Option String
  pub summary : Option String
  pub overview : Option String
  pub evidence : List InterpretationEvidence

pub record InterpretationOwnerDecision : Type 0 where
  pub decision_key : String
  pub decision_text : String
  pub evidence : List InterpretationEvidence

pub data InterpretationSetupRequirementKind : Type 0 where
  secret : InterpretationSetupRequirementKind
  environment : InterpretationSetupRequirementKind
  approval : InterpretationSetupRequirementKind
  unknown : InterpretationSetupRequirementKind

pub record InterpretationSetupRequirement : Type 0 where
  pub requirement_key : String
  pub requirement_kind : InterpretationSetupRequirementKind
  pub summary : Option String
  pub evidence : List InterpretationEvidence

pub record InterpretationAutomationBoundary : Type 0 where
  pub boundary_key : String
  pub summary : String
  pub evidence : List InterpretationEvidence

pub record InterpretationRisk : Type 0 where
  pub risk_key : String
  pub summary : String
  pub evidence : List InterpretationEvidence

pub record InterpretationAmbiguity : Type 0 where
  pub ambiguity_key : String
  pub summary : String
  pub evidence : List InterpretationEvidence

pub record InterpretationBlocker : Type 0 where
  pub blocker_key : String
  pub summary : String
  pub diagnostic_code : Option BundleDiagnosticCode
  pub diagnostic_severity : Option BundleDiagnosticSeverity
  pub diagnostic_phase : Option BundleDiagnosticPhase
  pub evidence : List InterpretationEvidence

pub record SkillBundleInterpretation : Type 0 where
  pub status : SkillBundleInterpretationStatus
  pub plan_summary : Option InterpretationPlanSummary
  pub owner_decisions : List InterpretationOwnerDecision
  pub setup_requirements : List InterpretationSetupRequirement
  pub automation_boundaries : List InterpretationAutomationBoundary
  pub risks : List InterpretationRisk
  pub ambiguities : List InterpretationAmbiguity
  pub blockers : List InterpretationBlocker
  pub provenance : List InterpretationEvidence

pub data ProposalReadiness : Type 0 where
  ready : ProposalReadiness
  incomplete : ProposalReadiness
  blocked : ProposalReadiness

pub data ProposalQuantitativeCompleteness : Type 0 where
  complete : ProposalQuantitativeCompleteness
  unknown : ProposalQuantitativeCompleteness
  requires_owner_input : ProposalQuantitativeCompleteness
  not_in_bundle_contract : ProposalQuantitativeCompleteness
  blocked : ProposalQuantitativeCompleteness

pub record ProposalQuantitativeProfile : Type 0 where
  pub completeness : ProposalQuantitativeCompleteness
  pub summary : String
  pub reason : String
  pub evidence : List InterpretationEvidence

pub record SkillProposalPacket : Type 0 where
  pub interpretation_status : SkillBundleInterpretationStatus
  pub proposal_readiness : ProposalReadiness
  pub plan_summary : Option InterpretationPlanSummary
  pub setup_requirements : List InterpretationSetupRequirement
  pub owner_override_points : List InterpretationOwnerDecision
  pub automation_boundaries : List InterpretationAutomationBoundary
  pub risk_framing : List InterpretationRisk
  pub capital_profile : ProposalQuantitativeProfile
  pub cost_profile : ProposalQuantitativeProfile
  pub ambiguities : List InterpretationAmbiguity
  pub blockers : List InterpretationBlocker
  pub provenance : List InterpretationEvidence
