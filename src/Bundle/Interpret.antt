-- ===== src/Bundle/Interpret.antt =====
-- `interpret_skill_bundle` and `interpret_bundle_load_outcome` of
-- daemon/crates/a2ex-skill-bundle/src/interpret.rs. Their `BundleResult` is `Ok` on every path.
use mathlib.Core.Option
use mathlib.Core.List.{flat_map}
use a2ex.Base.{
  String, List, [], ◌∷◌, ◌++◌, map, keep, find?, is_empty, Option, none, some, get_or, Bool, true,
  false, not, ◌&&◌, ◌||◌, ◌==◌, if◌then◌else◌,
}
use a2ex.Base.Text.{join}
use a2ex.Base.Equality.{unique}
use a2ex.Bundle.Slugs.{slugify}
use a2ex.Bundle.Sections.{
  parse_bullet_items, clean_summary_text, normalize_secret_name, derive_boundary_key,
  derive_risk_key,
}
use a2ex.Bundle.Model.{
  BundleSection, BundleSectionKind, UnresolvedBundleSection, SkillBundle, BundleDiagnostic,
  BundleDiagnosticCode, BundleLoadOutcome,
}
use a2ex.Bundle.Model.BundleDiagnosticCode.{
  malformed_frontmatter, missing_required_metadata, missing_required_document,
  duplicate_document_id, duplicate_document_role, fetch_failed, invalid_document_reference,
  reference_cycle, reference_depth_exceeded, load_not_implemented,
}
use a2ex.Bundle.Reading.{
  SkillBundleInterpretationStatus, InterpretationEvidence, evidence_eq, InterpretationPlanSummary,
  InterpretationOwnerDecision, InterpretationSetupRequirement, InterpretationSetupRequirementKind,
  InterpretationAutomationBoundary, InterpretationRisk, InterpretationAmbiguity,
  InterpretationBlocker, SkillBundleInterpretation,
}

-- the sections of all documents
abbrev pub sections_of : SkillBundle → List BundleSection
sections_of bundle = flat_map (λ document. document.sections) bundle.documents

abbrev pub is_overview : BundleSectionKind → Bool
is_overview BundleSectionKind.overview = true
is_overview _ = false

abbrev pub is_owner_decisions : BundleSectionKind → Bool
is_owner_decisions BundleSectionKind.owner_decisions = true
is_owner_decisions _ = false

abbrev pub is_required_secrets : BundleSectionKind → Bool
is_required_secrets BundleSectionKind.required_secrets = true
is_required_secrets _ = false

abbrev pub section_evidence : BundleSection → InterpretationEvidence
section_evidence section = record {
  document_id = section.document_id;
  section_id = some section.section_id;
  section_slug = some section.section_slug;
  source_url = section.source_url;
}

abbrev pub unresolved_section_evidence : UnresolvedBundleSection → InterpretationEvidence
unresolved_section_evidence section = record {
  document_id = section.document_id;
  section_id = some section.section_id;
  section_slug = some section.section_slug;
  source_url = section.source_url;
}

-- an option as a list of at most one item
abbrev pub to_list : {A : Type 0} → Option A → List A
to_list none = []
to_list (some a) = a ∷ []

unfoldable pub interpret_plan_summary : SkillBundle → Option InterpretationPlanSummary
unfolding clean_summary_text
interpret_plan_summary bundle =
    let overview_section = find? (λ section. is_overview section.kind) (sections_of bundle) in
    some (record {
      bundle_id = bundle.bundle_id;
      title = bundle.name;
      summary = bundle.summary;
      overview = Option.map (λ section. clean_summary_text section.markdown) overview_section;
      evidence = to_list (Option.map section_evidence overview_section);
    })

unfoldable pub interpret_owner_decisions : SkillBundle → List InterpretationOwnerDecision
unfolding parse_bullet_items slugify
interpret_owner_decisions bundle =
    flat_map
      (λ section.
        map
          (λ decision_text. record {
            decision_key = slugify decision_text;
            decision_text = decision_text;
            evidence = section_evidence section ∷ [];
          })
          (parse_bullet_items section.markdown))
      (keep (λ section. is_owner_decisions section.kind) (sections_of bundle))

unfoldable pub interpret_setup_requirements : SkillBundle → List InterpretationSetupRequirement
unfolding parse_bullet_items normalize_secret_name
interpret_setup_requirements bundle =
    flat_map
      (λ section.
        map
          (λ requirement_key. record {
            requirement_key = normalize_secret_name requirement_key;
            requirement_kind = InterpretationSetupRequirementKind.secret;
            summary = none;
            evidence = section_evidence section ∷ [];
          })
          (parse_bullet_items section.markdown))
      (keep (λ section. is_required_secrets section.kind) (sections_of bundle))

unfoldable pub interpret_automation_boundaries : SkillBundle → List InterpretationAutomationBoundary
unfolding derive_boundary_key clean_summary_text
interpret_automation_boundaries bundle =
    map
      (λ section. record {
        boundary_key = derive_boundary_key section;
        summary = clean_summary_text section.markdown;
        evidence = unresolved_section_evidence section ∷ [];
      })
      (keep (λ section. section.section_slug == "automation-boundaries") bundle.unresolved_sections)

unfoldable pub interpret_risks : SkillBundle → List InterpretationRisk
unfolding derive_risk_key clean_summary_text
interpret_risks bundle =
    map
      (λ section. record {
        risk_key = derive_risk_key section;
        summary = clean_summary_text section.markdown;
        evidence = unresolved_section_evidence section ∷ [];
      })
      (keep (λ section. section.section_slug == "risk-notes") bundle.unresolved_sections)

-- whether a section of the entry document is left to the reader
abbrev pub is_ambiguous : SkillBundle → UnresolvedBundleSection → Bool
is_ambiguous bundle section =
    (section.document_id == bundle.entry_document_id)
    && not (
        (section.section_slug == "automation-boundaries")
        || (section.section_slug == "risk-notes")
        || (section.section_slug == "preamble"))

unfoldable pub interpret_ambiguities : SkillBundle → List InterpretationAmbiguity
unfolding clean_summary_text join
interpret_ambiguities bundle =
    map
      (λ section. record {
        ambiguity_key = section.section_id;
        summary = join "" (
            "Uninterpreted section '"
            ∷ section.section_heading
            ∷ "' remains ambiguous: "
            ∷ clean_summary_text section.markdown
            ∷ []);
        evidence = unresolved_section_evidence section ∷ [];
      })
      (keep (is_ambiguous bundle) bundle.unresolved_sections)

abbrev pub diagnostic_code_slug : BundleDiagnosticCode → String
diagnostic_code_slug malformed_frontmatter = "malformed_frontmatter"
diagnostic_code_slug missing_required_metadata = "missing_required_metadata"
diagnostic_code_slug missing_required_document = "missing_required_document"
diagnostic_code_slug duplicate_document_id = "duplicate_document_id"
diagnostic_code_slug duplicate_document_role = "duplicate_document_role"
diagnostic_code_slug fetch_failed = "fetch_failed"
diagnostic_code_slug invalid_document_reference = "invalid_document_reference"
diagnostic_code_slug reference_cycle = "reference_cycle"
diagnostic_code_slug reference_depth_exceeded = "reference_depth_exceeded"
diagnostic_code_slug load_not_implemented = "load_not_implemented"

unfoldable pub interpret_blocker : BundleDiagnostic → InterpretationBlocker
unfolding join
interpret_blocker diagnostic =
    let document_id = get_or diagnostic.document_id "bundle" in
    record {
      blocker_key = join ":" (document_id ∷ diagnostic_code_slug diagnostic.code ∷ []);
      summary = diagnostic.message;
      diagnostic_code = some diagnostic.code;
      diagnostic_severity = some diagnostic.severity;
      diagnostic_phase = some diagnostic.phase;
      evidence = to_list (
          Option.map
            (λ source_url. record {
              document_id = document_id;
              section_id = none;
              section_slug = diagnostic.section_slug;
              source_url = source_url;
            })
            diagnostic.source_url);
    }

unfoldable pub derive_status :
    List InterpretationBlocker
    → List InterpretationAmbiguity
    → List InterpretationSetupRequirement
    → List InterpretationOwnerDecision
    → SkillBundleInterpretationStatus
derive_status blockers ambiguities setup_requirements owner_decisions =
    if not (is_empty blockers)
    then SkillBundleInterpretationStatus.blocked
    else if not (is_empty ambiguities)
    then SkillBundleInterpretationStatus.ambiguous
    else if not (is_empty setup_requirements)
    then SkillBundleInterpretationStatus.needs_setup
    else if not (is_empty owner_decisions)
    then SkillBundleInterpretationStatus.needs_owner_decision
    else SkillBundleInterpretationStatus.interpreted_ready

-- the evidence of the parts of an interpretation, in the order in which it is collected
abbrev pub evidence_of :
    Option InterpretationPlanSummary
    → List InterpretationOwnerDecision
    → List InterpretationSetupRequirement
    → List InterpretationAutomationBoundary
    → List InterpretationRisk
    → List InterpretationAmbiguity
    → List InterpretationBlocker
    → List InterpretationEvidence
evidence_of summary decisions requirements boundaries risks ambiguities blockers =
    flat_map (λ item. item.evidence) (to_list summary)
    ++ flat_map (λ item. item.evidence) decisions
    ++ flat_map (λ item. item.evidence) requirements
    ++ flat_map (λ item. item.evidence) boundaries
    ++ flat_map (λ item. item.evidence) risks
    ++ flat_map (λ item. item.evidence) ambiguities
    ++ flat_map (λ item. item.evidence) blockers

unfoldable pub collect_provenance : List InterpretationEvidence → List InterpretationEvidence
collect_provenance = unique

-- an interpretation from its parts
unfoldable pub interpretation :
    Option InterpretationPlanSummary
    → List InterpretationOwnerDecision
    → List InterpretationSetupRequirement
    → List InterpretationAutomationBoundary
    → List InterpretationRisk
    → List InterpretationAmbiguity
    → List InterpretationBlocker
    → SkillBundleInterpretation
interpretation summary decisions requirements boundaries risks ambiguities blockers = record {
  status = derive_status blockers ambiguities requirements decisions;
  plan_summary = summary;
  owner_decisions = decisions;
  setup_requirements = requirements;
  automation_boundaries = boundaries;
  risks = risks;
  ambiguities = ambiguities;
  blockers = blockers;
  provenance =
      collect_provenance
        (evidence_of summary decisions requirements boundaries risks ambiguities blockers);
}

unfoldable pub interpret_skill_bundle : SkillBundle → SkillBundleInterpretation
interpret_skill_bundle bundle =
    interpretation (interpret_plan_summary bundle) (interpret_owner_decisions bundle)
      (interpret_setup_requirements bundle) (interpret_automation_boundaries bundle)
      (interpret_risks bundle) (interpret_ambiguities bundle) []

unfoldable pub merge_interpretation_blockers :
    SkillBundleInterpretation → List InterpretationBlocker → SkillBundleInterpretation
merge_interpretation_blockers i [] = i
merge_interpretation_blockers i (blocker ∷ blockers) =
    interpretation i.plan_summary i.owner_decisions i.setup_requirements i.automation_boundaries
      i.risks i.ambiguities (i.blockers ++ (blocker ∷ blockers))

abbrev interpret_with : Option SkillBundle → List InterpretationBlocker → SkillBundleInterpretation
interpret_with (some bundle) blockers =
    merge_interpretation_blockers (interpret_skill_bundle bundle) blockers
interpret_with none blockers = interpretation none [] [] [] [] [] blockers

unfoldable pub interpret_bundle_load_outcome : BundleLoadOutcome → SkillBundleInterpretation
interpret_bundle_load_outcome outcome =
    interpret_with outcome.bundle (map interpret_blocker outcome.diagnostics)
