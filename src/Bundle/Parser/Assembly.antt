-- ===== src/Bundle/Parser/Assembly.antt =====
-- A whole skill bundle, `parse_skill_bundle_documents` and `build_bundle` of
-- daemon/crates/a2ex-skill-bundle/src/parser.rs. A panic is `none`.
pub mod Shape
pub mod Partition
pub mod Complete
pub mod Whole
pub mod Panics
use mathlib.Core.Option
use mathlib.Core.List.{flat_map}
use a2ex.Base.{
  ℕ, String, List, [], ◌∷◌, ◌++◌, map, is_empty, Bool, true, false, not, ◌&&◌, Option, none, some,
  is_some, get_or, ◌==◌ as same_text, if◌then◌else◌, Result, ok, err,
}
use a2ex.Base.Text.{join}
use a2ex.Base.Equality.{contains, text_eq}
use a2ex.Bundle.Model.{
  BundleDocumentRole, role_eq, BundleDiagnostic, BundleDiagnosticCode, BundleDiagnosticSeverity,
  BundleDiagnosticPhase, BundleDocumentManifestEntry, SkillBundle, Url,
}
use a2ex.Bundle.Parser.Types.{
  FetchedBundleDocument, BundleError, Yaml, ParsedDocument, document_diagnostic,
}
use a2ex.Bundle.Parser.Documents.{parse_single_document}

-- what the loop over the fetched documents has collected
abbrev pub Collected : Type 0
Collected = List BundleDiagnostic × List ParsedDocument

abbrev pub more_diagnostics : List BundleDiagnostic → Collected → Collected
more_diagnostics issues (later, documents) = (issues ++ later, documents)

abbrev pub more_documents : ParsedDocument → Collected → Collected
more_documents document (issues, documents) = (issues, document ∷ documents)

abbrev pub map_ok : {E A B : Type 0} → (A → B) → Result E A → Result E B
map_ok f (ok a) = ok (f a)
map_ok f (err e) = err e

-- what a parsed document adds to those that follow; any other error, and a panic, ends the loop
unfoldable pub collect_parsed :
    Option (Result BundleError ParsedDocument)
    → Option (Result BundleError Collected)
    → Option (Result BundleError Collected)
collect_parsed none later = none
collect_parsed (some (ok document)) later = Option.map (map_ok (more_documents document)) later
collect_parsed (some (err (BundleError.diagnostics issues))) later =
    Option.map (map_ok (more_diagnostics issues)) later
collect_parsed (some (err other)) later = some (err other)

module _ (yaml : Yaml) where
  -- what one document adds, if its id was not seen before
  abbrev pub collect_new :
      Bool
      → FetchedBundleDocument
      → Option (Result BundleError Collected)
      → Option (Result BundleError Collected)
  collect_new true fetched later =
      Option.map
        (map_ok (
          more_diagnostics (
            document_diagnostic fetched BundleDiagnosticCode.duplicate_document_id
              (join "" ("duplicate fetched document id '" ∷ fetched.document_id ∷ "'" ∷ []))
            ∷ [])))
        later
  collect_new false fetched later = collect_parsed (parse_single_document yaml fetched) later

  unfoldable pub collect_documents :
      List String → List FetchedBundleDocument → Option (Result BundleError Collected)
  unfolding collect_parsed parse_single_document join
  collect_documents seen [] = some (ok ([], []))
  collect_documents seen (fetched ∷ rest) =
      collect_new (contains seen fetched.document_id) fetched
        (collect_documents (fetched.document_id ∷ seen) rest)

-- what the loop over the parsed documents has sorted out
pub record Sorted : Type 0 where
  pub issues : List BundleDiagnostic
  pub entry_document : Option ParsedDocument
  pub supporting_documents : List ParsedDocument

abbrev pub is_entry : ParsedDocument → Bool
is_entry parsed = same_text parsed.document.document_id "skill"

-- the name that `{:?}` writes for a role
abbrev role_debug : BundleDocumentRole → String
role_debug BundleDocumentRole.entry = "Entry"
role_debug BundleDocumentRole.owner_setup = "OwnerSetup"
role_debug BundleDocumentRole.operator_notes = "OperatorNotes"

abbrev about : ParsedDocument → BundleDiagnosticCode → String → BundleDiagnostic
about parsed code message = record {
  code = code;
  severity = BundleDiagnosticSeverity.error;
  phase = BundleDiagnosticPhase.parse_document;
  message = message;
  document_id = some parsed.document.document_id;
  source_url = some parsed.document.source_url;
  section_slug = none;
}

-- one step of the loop, in front of what the later documents make
abbrev pub add_entry_document : Bool → ParsedDocument → Sorted → Sorted
add_entry_document true parsed later = record later {
  issues =
      about parsed BundleDiagnosticCode.duplicate_document_id
        "multiple entry documents were provided"
      ∷ later.issues;
}
add_entry_document false parsed later = later

abbrev pub add_supporting_document : Bool → ParsedDocument → Sorted → Sorted
add_supporting_document true parsed later = record later {
  issues =
      about parsed BundleDiagnosticCode.duplicate_document_role (
        join ""
          ("duplicate supporting document role '" ∷ role_debug parsed.document.role ∷ "'" ∷ []))
      ∷ later.issues;
  supporting_documents = parsed ∷ later.supporting_documents;
}
add_supporting_document false parsed later = record later {
  supporting_documents = parsed ∷ later.supporting_documents;
}

unfoldable pub sort_documents :
    Option ParsedDocument → List BundleDocumentRole → List ParsedDocument → Sorted
unfolding join
sort_documents entry roles [] = record {
  issues = [];
  entry_document = entry;
  supporting_documents = [];
}
sort_documents entry roles (parsed ∷ rest) = elim (is_entry parsed) [
  | true ↦
      add_entry_document (is_some entry) parsed
        (sort_documents (some (get_or entry parsed)) roles rest)
  | false ↦
      add_supporting_document (contains roles parsed.document.role) parsed
        (sort_documents entry (parsed.document.role ∷ roles) rest)
]

abbrev pub supporting_ids : List ParsedDocument → List String
supporting_ids parsed = map (λ p. p.document.document_id) parsed

-- the diagnostic of a required document of the manifest that was not provided
abbrev pub missing_diagnostics :
    List ParsedDocument → BundleDocumentManifestEntry → List BundleDiagnostic
missing_diagnostics supporting entry =
    if entry.required && not (contains (supporting_ids supporting) entry.document_id)
    then record {
      code = BundleDiagnosticCode.missing_required_document;
      severity = BundleDiagnosticSeverity.error;
      phase = BundleDiagnosticPhase.load_manifest;
      message = join "" ("required document '" ∷ entry.document_id ∷ "' was not provided" ∷ []);
      document_id = some entry.document_id;
      source_url = none;
      section_slug = none;
    }
      ∷ []
    else []

-- the diagnostic where no entry document was provided
abbrev no_entry_document : BundleDiagnostic
no_entry_document = record {
  code = BundleDiagnosticCode.missing_required_metadata;
  severity = BundleDiagnosticSeverity.error;
  phase = BundleDiagnosticPhase.parse_document;
  message = "bundle entry document 'skill' was not provided";
  document_id = some "skill";
  source_url = none;
  section_slug = none;
}

pub record ParsedSkillBundle : Type 0 where
  pub bundle : SkillBundle
  pub diagnostics : List BundleDiagnostic

-- the bundle itself, for the three values that are expected of the entry document
abbrev pub bundle_of :
    ParsedDocument → List ParsedDocument → String → String → String → ParsedSkillBundle
bundle_of entry supporting bundle_id bundle_format bundle_version = record {
  bundle = record {
    bundle_id = bundle_id;
    bundle_format = bundle_format;
    bundle_version = bundle_version;
    compatible_daemon = entry.compatible_daemon;
    entry_document_id = "skill";
    name = entry.name;
    summary = entry.summary;
    document_manifest = get_or entry.manifest [];
    documents = entry.document ∷ map (λ p. p.document) supporting;
    unresolved_sections =
        entry.unresolved_sections ++ flat_map (λ p. p.unresolved_sections) supporting;
  };
  diagnostics = [];
}

-- an entry document without one of the three values panics
abbrev pub expected :
    ParsedDocument
    → List ParsedDocument
    → Option String
    → Option String
    → Option String
    → Option (Result BundleError ParsedSkillBundle)
expected entry supporting (some bundle_id) (some bundle_format) (some bundle_version) =
    some (ok (bundle_of entry supporting bundle_id bundle_format bundle_version))
expected entry supporting _ _ _ = none

abbrev pub build_from :
    List BundleDiagnostic
    → List ParsedDocument
    → Option ParsedDocument
    → Option (Result BundleError ParsedSkillBundle)
build_from issues supporting none =
    some (err (BundleError.diagnostics (issues ++ no_entry_document ∷ [])))
build_from issues supporting (some entry) =
    let all_issues =
      issues ++ flat_map (missing_diagnostics supporting) (get_or entry.manifest []) in
    if not (is_empty all_issues)
    then some (err (BundleError.diagnostics all_issues))
    else expected entry supporting entry.bundle_id entry.bundle_format entry.bundle_version

unfoldable pub build_bundle : List ParsedDocument → Option (Result BundleError ParsedSkillBundle)
unfolding sort_documents join flat_map
build_bundle documents =
    let sorted = sort_documents none [] documents in
    build_from sorted.issues sorted.supporting_documents sorted.entry_document

abbrev pub build_collected : Collected → Option (Result BundleError ParsedSkillBundle)
build_collected (issues, documents) =
    if not (is_empty issues)
    then some (err (BundleError.diagnostics issues))
    else build_bundle documents

abbrev pub build_after :
    Option (Result BundleError Collected) → Option (Result BundleError ParsedSkillBundle)
build_after none = none
build_after (some (err e)) = some (err e)
build_after (some (ok collected)) = build_collected collected

module _ (yaml : Yaml) where
  unfoldable pub parse_skill_bundle_documents :
      List FetchedBundleDocument → Option (Result BundleError ParsedSkillBundle)
  unfolding collect_documents build_bundle
  parse_skill_bundle_documents fetched_documents =
      build_after (collect_documents yaml [] fetched_documents)
