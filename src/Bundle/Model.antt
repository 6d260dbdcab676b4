-- ===== src/Bundle/Model.antt =====
-- The structs of daemon/crates/a2ex-skill-bundle/src/model.rs. A parsed URL stands for its
-- serialisation, by which `url::Url` compares.
use a2ex.Base.{ℕ, String, List, Option, Bool, ◌≡◌, arith}
use a2ex.Base.Equality.{PartialEq, eq_by, number_eq, text_eq, bool_eq, option_eq, pair_eq}

abbrev pub Url : Type 0
Url = String

pub data BundleDocumentRole : Type 0 where
  entry : BundleDocumentRole
  owner_setup : BundleDocumentRole
  operator_notes : BundleDocumentRole

-- the place of a variant in its declaration, by which the derived equality and order compare
abbrev pub role_index : BundleDocumentRole → ℕ
role_index entry = 0
role_index owner_setup = 1
role_index operator_notes = 2

pub role_injective : (a b : BundleDocumentRole) → role_index a ≡ role_index b → a ≡ b
role_injective a b h = ground arith

instance abbrev pub role_eq : PartialEq BundleDocumentRole
role_eq = eq_by role_index role_injective

pub data BundleSectionKind : Type 0 where
  overview : BundleSectionKind
  owner_decisions : BundleSectionKind
  required_secrets : BundleSectionKind

pub record BundleSection : Type 0 where
  pub section_id : String
  pub document_id : String
  pub section_heading : String
  pub section_slug : String
  pub heading_level : ℕ
  pub kind : BundleSectionKind
  pub source_url : Url
  pub markdown : String

pub record UnresolvedBundleSection : Type 0 where
  pub section_id : String
  pub document_id : String
  pub section_heading : String
  pub section_slug : String
  pub heading_level : ℕ
  pub source_url : Url
  pub markdown : String

pub record BundleDocumentManifestEntry : Type 0 where
  pub document_id : String
  pub role : BundleDocumentRole
  pub relative_path : String
  pub required : Bool
  pub revision : Option String

pub record BundleDocument : Type 0 where
  pub document_id : String
  pub role : BundleDocumentRole
  pub source_url : Url
  pub title : Option String
  pub revision : Option String
  pub body_markdown : String
  pub sections : List BundleSection

pub record SkillBundle : Type 0 where
  pub bundle_id : String
  pub bundle_format : String
  pub bundle_version : String
  pub compatible_daemon : Option String
  pub entry_document_id : String
  pub name : Option String
  pub summary : Option String
  pub document_manifest : List BundleDocumentManifestEntry
  pub documents : List BundleDocument
  pub unresolved_sections : List UnresolvedBundleSection

pub data BundleDiagnosticCode : Type 0 where
  malformed_frontmatter : BundleDiagnosticCode
  missing_required_metadata : BundleDiagnosticCode
  missing_required_document : BundleDiagnosticCode
  duplicate_document_id : BundleDiagnosticCode
  duplicate_document_role : BundleDiagnosticCode
  fetch_failed : BundleDiagnosticCode
  invalid_document_reference : BundleDiagnosticCode
  reference_cycle : BundleDiagnosticCode
  reference_depth_exceeded : BundleDiagnosticCode
  load_not_implemented : BundleDiagnosticCode

pub data BundleDiagnosticSeverity : Type 0 where
  info : BundleDiagnosticSeverity
  warning : BundleDiagnosticSeverity
  error : BundleDiagnosticSeverity

pub data BundleDiagnosticPhase : Type 0 where
  parse_document : BundleDiagnosticPhase
  load_manifest : BundleDiagnosticPhase
  resolve_document : BundleDiagnosticPhase
  fetch_document : BundleDiagnosticPhase

pub record BundleDiagnostic : Type 0 where
  pub code : BundleDiagnosticCode
  pub severity : BundleDiagnosticSeverity
  pub phase : BundleDiagnosticPhase
  pub message : String
  pub document_id : Option String
  pub source_url : Option Url
  pub section_slug : Option String

pub record BundleLoadOutcome : Type 0 where
  pub bundle : Option SkillBundle
  pub diagnostics : List BundleDiagnostic

pub record BundleLifecycleDaemonCompatibility : Type 0 where
  pub daemon_version : String
  pub requirement : String
  pub is_compatible : Bool

abbrev pub compatibility_parts : BundleLifecycleDaemonCompatibility → (String × String) × Bool
compatibility_parts c = ((c.daemon_version, c.requirement), c.is_compatible)

pub compatibility_injective :
    (a b : BundleLifecycleDaemonCompatibility)
    → compatibility_parts a ≡ compatibility_parts b
    → a ≡ b
compatibility_injective a b h = ground arith

instance abbrev pub compatibility_eq : PartialEq BundleLifecycleDaemonCompatibility
compatibility_eq = eq_by compatibility_parts compatibility_injective

pub record BundleLifecycleManifestEntrySnapshot : Type 0 where
  pub document_id : String
  pub role : BundleDocumentRole
  pub relative_path : String
  pub required : Bool
  pub declared_revision : Option String
  pub resolved_source_url : Option Url

pub record BundleLifecycleDocumentSnapshot : Type 0 where
  pub document_id : String
  pub role : BundleDocumentRole
  pub revision : Option String
  pub title : Option String
  pub source_url : Option Url
  pub declared_revision : Option String
  pub required : Option Bool
  pub content_fingerprint : Option String

pub record BundleLifecycleSnapshot : Type 0 where
  pub bundle_id : Option String
  pub bundle_format : Option String
  pub bundle_version : Option String
  pub compatible_daemon : Option String
  pub daemon_compatibility : Option BundleLifecycleDaemonCompatibility
  pub name : Option String
  pub summary : Option String
  pub manifest_entries : List BundleLifecycleManifestEntrySnapshot
  pub documents : List BundleLifecycleDocumentSnapshot

pub data BundleDocumentLifecycleChangeKind : Type 0 where
  added : BundleDocumentLifecycleChangeKind
  removed : BundleDocumentLifecycleChangeKind
  revision_changed : BundleDocumentLifecycleChangeKind
  content_changed : BundleDocumentLifecycleChangeKind

pub record BundleDocumentLifecycleChange : Type 0 where
  pub document_id : String
  pub role : Option BundleDocumentRole
  pub kind : BundleDocumentLifecycleChangeKind
  pub previous_revision : Option String
  pub current_revision : Option String
  pub source_url : Option Url

pub data BundleLifecycleDiagnosticCode : Type 0 where
  incompatible_daemon : BundleLifecycleDiagnosticCode
  manifest_document_revision_mismatch : BundleLifecycleDiagnosticCode
  missing_document : BundleLifecycleDiagnosticCode
  removed_document : BundleLifecycleDiagnosticCode
  unreadable_document : BundleLifecycleDiagnosticCode

abbrev pub code_index : BundleLifecycleDiagnosticCode → ℕ
code_index incompatible_daemon = 0
code_index manifest_document_revision_mismatch = 1
code_index missing_document = 2
code_index removed_document = 3
code_index unreadable_document = 4

pub code_injective : (a b : BundleLifecycleDiagnosticCode) → code_index a ≡ code_index b → a ≡ b
code_injective a b h = ground arith

pub record BundleLifecycleDiagnostic : Type 0 where
  pub code : BundleLifecycleDiagnosticCode
  pub message : String
  pub document_id : Option String
  pub source_url : Option Url

-- the key by which repeated diagnostics are found
abbrev pub diagnostic_key : BundleLifecycleDiagnostic → (ℕ × Option String) × (Option Url × String)
diagnostic_key d = ((code_index d.code, d.document_id), (d.source_url, d.message))

pub diagnostic_injective :
    (a b : BundleLifecycleDiagnostic) → diagnostic_key a ≡ diagnostic_key b → a ≡ b
diagnostic_injective a b h = ground (arith, code_injective a.code b.code)

instance abbrev pub diagnostic_eq : PartialEq BundleLifecycleDiagnostic
diagnostic_eq = eq_by diagnostic_key diagnostic_injective

pub data BundleLifecycleClassification : Type 0 where
  no_change : BundleLifecycleClassification
  metadata_changed : BundleLifecycleClassification
  documents_changed : BundleLifecycleClassification
  blocking_drift : BundleLifecycleClassification

pub record BundleLifecycleChange : Type 0 where
  pub previous : Option BundleLifecycleSnapshot
  pub current : Option BundleLifecycleSnapshot
  pub classification : BundleLifecycleClassification
  pub changed_documents : List BundleDocumentLifecycleChange
  pub diagnostics : List BundleLifecycleDiagnostic
