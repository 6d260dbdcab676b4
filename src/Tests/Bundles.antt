-- ===== src/Tests/Bundles.antt =====
-- The theorems of the skill bundles on one small bundle.
use mathlib.Core.List.{mem-cons_self}
use mathlib.Core.Option
use Prim.Native.Nat.{Ordering}
use a2ex.Base.{
  ℕ, String, List, [], ◌∷◌, Option, none, some, true, false, inl, inr, ◌≡◌, ◌≢◌, ◌↔◌, refl, arith,
  map, eq_iff,
}
use a2ex.Compiler.Venues.{Mem as Among}
use a2ex.Bundle.Model.{
  BundleDocumentRole, BundleSectionKind, BundleSection, BundleDocumentManifestEntry, BundleDocument,
  SkillBundle, BundleLoadOutcome, BundleLifecycleClassification,
}
use a2ex.Bundle.Versions.{requirement_matches, compare_version_parts}
use a2ex.Bundle.Ordering.{Below, part, compare_version_parts_iff}
use a2ex.Bundle.Snapshots.{from_outcome}
use a2ex.Bundle.Lifecycle.{document_in, diff_changed_documents}
use a2ex.Bundle.Changes.{IsKept, no_document_changed_iff}
use a2ex.Bundle.Diagnostics.{diff_bundle_lifecycle}
use a2ex.Bundle.Drift.{missing_document_blocks, reload}
use a2ex.Bundle.Slugs.{slugify}
use a2ex.Bundle.Slugs.Shape.{IsSlug, slugify-IsSlug}
use a2ex.Bundle.Reading.{InterpretationEvidence, ProposalReadiness}
use a2ex.Bundle.Interpret.{interpret_bundle_load_outcome}
use a2ex.Bundle.Proposal.{generate_proposal_packet}
use a2ex.Bundle.Readiness.{AsksNothing, packet_readiness}

-- the cases of the source's own test, and a range
basic_comparators :
    requirement_matches "0.1.0" ">=0.1.0"
      ∷ requirement_matches "0.1.0" "<=0.1.0"
      ∷ requirement_matches "0.1.0" ">999.0.0"
      ∷ requirement_matches "0.1.0" "not-a-version"
      ∷ requirement_matches "0.1.0-rc1" ">= 0.1, < 0.2"
      ∷ []
    ≡ true ∷ true ∷ false ∷ false ∷ true ∷ []
unfolding requirement_matches Option.bind
basic_comparators = refl

a_slug : slugify "  Choose: target_Venues (2)!" ≡ "choose-target-venues-2"
unfolding slugify
a_slug = refl

slugify-IsSlug_example : IsSlug (slugify "  Choose: target_Venues (2)!")
slugify-IsSlug_example = slugify-IsSlug "  Choose: target_Venues (2)!"

abbrev longer : List ℕ
longer = 0 ∷ 1 ∷ 0 ∷ 1 ∷ []

abbrev shorter : List ℕ
shorter = 0 ∷ 1 ∷ []

compare_version_parts_iff_example :
    ((compare_version_parts shorter longer ≡ Ordering.eq)
      ↔ ((i : ℕ) → part shorter i ≡ part longer i))
    × ((compare_version_parts shorter longer ≡ Ordering.lt) ↔ Below shorter longer)
    × ((compare_version_parts shorter longer ≡ Ordering.gt) ↔ Below longer shorter)
compare_version_parts_iff_example = compare_version_parts_iff shorter longer

-- a digest of no bytes, and an empty text for what is debugged
abbrev digest : String → List ℕ
digest markdown = []

abbrev debug : Option String → String
debug value = ""

abbrev entry_section : BundleSection
entry_section = record {
  section_id = "skill#overview";
  document_id = "skill";
  section_heading = "Overview";
  section_slug = "overview";
  heading_level = 2;
  kind = BundleSectionKind.overview;
  source_url = "https://bundles.local/skill.md";
  markdown = "Trade the spread.";
}

abbrev entry_document : BundleDocument
entry_document = record {
  document_id = "skill";
  role = BundleDocumentRole.entry;
  source_url = "https://bundles.local/skill.md";
  title = some "Skill";
  revision = some "1";
  body_markdown = "Trade the spread.";
  sections = entry_section ∷ [];
}

abbrev notes_entry : BundleDocumentManifestEntry
notes_entry = record {
  document_id = "notes";
  role = BundleDocumentRole.operator_notes;
  relative_path = "docs/notes.md";
  required = true;
  revision = none;
}

abbrev lacking_bundle : SkillBundle
lacking_bundle = record {
  bundle_id = "official.demo";
  bundle_format = "a2ex.skill-bundle/v1alpha1";
  bundle_version = "2026.03.12";
  compatible_daemon = some ">=0.1.0";
  entry_document_id = "skill";
  name = some "Demo";
  summary = none;
  document_manifest = notes_entry ∷ [];
  documents = entry_document ∷ [];
  unresolved_sections = [];
}

abbrev lacking : BundleLoadOutcome
lacking = record { bundle = some lacking_bundle; diagnostics = [] }

notes-ne-skill : ◌≢◌ {A = String} "notes" "skill"
notes-ne-skill = ground (arith, eq_iff "notes" "skill")

notes_missing : ¬ Among "notes" (map (λ d. d.document_id) lacking_bundle.documents)
notes_missing (inl same) = notes-ne-skill same
notes_missing (inr nowhere) = absurd nowhere

missing_document_blocks_example :
    (diff_bundle_lifecycle digest "0.1.0" debug lacking (some lacking)).classification
    ≡ BundleLifecycleClassification.blocking_drift
missing_document_blocks_example =
    missing_document_blocks digest "0.1.0" debug lacking (some lacking) lacking_bundle notes_entry
      refl mem-cons_self refl notes_missing

reload_example :
    ((diff_bundle_lifecycle digest "0.1.0" debug lacking (some lacking)).changed_documents ≡ [])
    × (((diff_bundle_lifecycle digest "0.1.0" debug lacking (some lacking)).classification
          ≡ BundleLifecycleClassification.no_change)
        ↔ ((diff_bundle_lifecycle digest "0.1.0" debug lacking (some lacking)).diagnostics ≡ []))
    × (((diff_bundle_lifecycle digest "0.1.0" debug lacking (some lacking)).classification
          ≡ BundleLifecycleClassification.blocking_drift)
        ↔ ((diff_bundle_lifecycle digest "0.1.0" debug lacking (some lacking)).diagnostics ≢ []))
reload_example = reload digest "0.1.0" debug lacking

no_document_changed_iff_example :
    (diff_changed_documents none (from_outcome digest "0.1.0" lacking) ≡ []) ↔ (
      (id : String)
      → IsKept (document_in none id) (document_in (from_outcome digest "0.1.0" lacking) id))
no_document_changed_iff_example = no_document_changed_iff none (from_outcome digest "0.1.0" lacking)

packet_readiness_example :
    (((generate_proposal_packet lacking (interpret_bundle_load_outcome lacking)).proposal_readiness
        ≡ ProposalReadiness.ready)
      ↔ ((lacking.diagnostics ≡ []) × AsksNothing (some lacking_bundle)))
    × (((generate_proposal_packet lacking
            (interpret_bundle_load_outcome lacking)).proposal_readiness
          ≡ ProposalReadiness.blocked)
        ↔ (lacking.diagnostics ≢ []))
packet_readiness_example = packet_readiness lacking

abbrev evidence : InterpretationEvidence
evidence = record {
  document_id = "skill";
  section_id = some "skill#overview";
  section_slug = some "overview";
  source_url = "https://bundles.local/skill.md";
}
