-- ===== src/Bundle/Parser/Types.antt =====
-- What the parser of skill bundles reads and makes, the types of
-- daemon/crates/a2ex-skill-bundle/src/parser.rs. What `serde_yaml` reads from a front matter is a
-- parameter, an error being its text.
use a2ex.Base.{String, List, Bool, Option, none, some, Result}
use a2ex.Bundle.Model.{
  Url, BundleDiagnostic, BundleDiagnosticCode, BundleDiagnosticSeverity, BundleDiagnosticPhase,
  BundleDocument, BundleDocumentManifestEntry, UnresolvedBundleSection,
}

pub record FetchedBundleDocument : Type 0 where
  pub document_id : String
  pub source_url : Url
  pub body_markdown : String

-- `BundleError`, without the transport's own error
pub data BundleError : Type 0 where
  diagnostics : List BundleDiagnostic → BundleError
  transport : Url → BundleError
  not_implemented : String → BundleError

pub record EntryDocumentFrontmatter : Type 0 where
  pub id : String
  pub role : String
  pub path : String
  pub required : Bool
  pub revision : Option String

pub record EntryFrontmatter : Type 0 where
  pub bundle_id : String
  pub bundle_format : String
  pub bundle_version : String
  pub compatible_daemon : Option String
  pub name : Option String
  pub summary : Option String
  pub documents : List EntryDocumentFrontmatter

pub record SupportingDocumentFrontmatter : Type 0 where
  pub document_id : String
  pub document_role : String
  pub title : Option String
  pub revision : Option String

-- `serde_yaml::from_str` at the two types that are read
pub record Yaml : Type 0 where
  pub entry : String → Result String EntryFrontmatter
  pub supporting : String → Result String SupportingDocumentFrontmatter

pub record ParsedDocument : Type 0 where
  pub document : BundleDocument
  pub unresolved_sections : List UnresolvedBundleSection
  pub manifest : Option (List BundleDocumentManifestEntry)
  pub bundle_id : Option String
  pub bundle_format : Option String
  pub bundle_version : Option String
  pub compatible_daemon : Option String
  pub name : Option String
  pub summary : Option String

pub record EntryDocumentMetadata : Type 0 where
  pub bundle_id : String
  pub bundle_format : String
  pub bundle_version : String
  pub compatible_daemon : Option String
  pub name : Option String
  pub summary : Option String
  pub manifest : List BundleDocumentManifestEntry

-- a diagnostic of the parser about a fetched document
abbrev pub document_diagnostic :
    FetchedBundleDocument → BundleDiagnosticCode → String → BundleDiagnostic
document_diagnostic fetched code message = record {
  code = code;
  severity = BundleDiagnosticSeverity.error;
  phase = BundleDiagnosticPhase.parse_document;
  message = message;
  document_id = some fetched.document_id;
  source_url = some fetched.source_url;
  section_slug = none;
}

abbrev pub missing_metadata_diagnostic : FetchedBundleDocument → String → BundleDiagnostic
missing_metadata_diagnostic fetched =
    document_diagnostic fetched BundleDiagnosticCode.missing_required_metadata
