-- ===== src/Bundle/Diagnostics.antt =====
-- The diagnostics of a bundle's lifecycle and the classification that rests on them, of
-- daemon/crates/a2ex-skill-bundle/src/lifecycle.rs. `debug` is what `{:?}` writes.
use Prim.Native.String.{◌++◌ as append}
use mathlib.Core.Option
use mathlib.Core.List.{flat_map}
use a2ex.Base.{
  ℕ, String, List, [], ◌∷◌, ◌++◌, map, keep, is_empty, Option, none, some, is_some, Bool, not, ◌&&◌,
  if◌then◌else◌,
}
use a2ex.Base.Text.{join}
use a2ex.Base.Equality.{◌!=◌, contains, unique, text_eq, option_eq}
use a2ex.Compiler.Normalize.{sort, dedup}
use a2ex.Bundle.Model.{
  BundleLoadOutcome, BundleDiagnostic, BundleDiagnosticCode, BundleDiagnosticSeverity,
  BundleLifecycleSnapshot, BundleLifecycleDocumentSnapshot, BundleLifecycleManifestEntrySnapshot,
  BundleLifecycleDaemonCompatibility, BundleLifecycleDiagnostic, BundleLifecycleDiagnosticCode,
  BundleLifecycleClassification, BundleLifecycleChange, BundleDocumentLifecycleChange, Url,
  diagnostic_eq,
}
use a2ex.Bundle.Snapshots.{from_outcome}
use a2ex.Bundle.Lifecycle.{document_in, diff_changed_documents, metadata_changed}

-- `format!` of a text with two holes
abbrev around : String → String → String → String → String → String
around a x b y c = join "" (a ∷ x ∷ b ∷ y ∷ c ∷ [])

-- the source of the document with an id, where it is known
abbrev source_of : Option BundleLifecycleSnapshot → String → Option Url
source_of snapshot id = Option.bind (document_in snapshot id) (λ document. document.source_url)

unfoldable pub incompatibility :
    BundleLifecycleSnapshot
    → Option BundleLifecycleDaemonCompatibility
    → List BundleLifecycleDiagnostic
incompatibility snapshot none = []
incompatibility snapshot (some compatibility) =
    if not compatibility.is_compatible
    then record {
      code = BundleLifecycleDiagnosticCode.incompatible_daemon;
      message =
          around "bundle requires daemon '" compatibility.requirement
            "' but current daemon version is '" compatibility.daemon_version "'";
      document_id = some "skill";
      source_url = source_of (some snapshot) "skill";
    }
      ∷ []
    else []

unfoldable pub required_document_diagnostic :
    BundleLifecycleManifestEntrySnapshot
    → Option BundleLifecycleSnapshot
    → BundleLifecycleDiagnostic
required_document_diagnostic entry previous =
    let existed_previously = is_some (document_in previous entry.document_id) in
    record {
      code =
          if existed_previously
          then BundleLifecycleDiagnosticCode.removed_document
          else BundleLifecycleDiagnosticCode.missing_document;
      message =
          if existed_previously
          then around "required document '" entry.document_id "' disappeared from the bundle" "" ""
          else around "required document '" entry.document_id "' is missing from the bundle" "" "";
      document_id = some entry.document_id;
      source_url = entry.resolved_source_url;
    }

module _ (debug : Option String → String) where
  -- the body of the loop over the manifest, for the document of the entry
  unfoldable pub manifest_diagnostics :
      Option BundleLifecycleSnapshot
      → BundleLifecycleManifestEntrySnapshot
      → Option BundleLifecycleDocumentSnapshot
      → List BundleLifecycleDiagnostic
  manifest_diagnostics previous entry (some document) =
      if is_some entry.declared_revision && (entry.declared_revision != document.revision)
      then record {
        code = BundleLifecycleDiagnosticCode.manifest_document_revision_mismatch;
        message =
            append
              (around "manifest revision " (debug entry.declared_revision)
                " does not match resolved document revision " (debug document.revision) " for '")
              (append entry.document_id "'");
        document_id = some entry.document_id;
        source_url = document.source_url;
      }
        ∷ []
      else []
  manifest_diagnostics previous entry none =
      if entry.required then required_document_diagnostic entry previous ∷ [] else []

  unfoldable pub snapshot_diagnostics :
      Option BundleLifecycleSnapshot
      → Option BundleLifecycleSnapshot
      → List BundleLifecycleDiagnostic
  snapshot_diagnostics previous none = []
  snapshot_diagnostics previous (some snapshot) =
      incompatibility snapshot snapshot.daemon_compatibility
      ++ flat_map
          (λ entry.
            manifest_diagnostics previous entry (document_in (some snapshot) entry.document_id))
          snapshot.manifest_entries

-- the ordered set of the ids of the documents that a snapshot requires
unfoldable pub required_ids : Option BundleLifecycleSnapshot → List String
required_ids none = []
required_ids (some snapshot) = dedup (
    sort
      (map (λ entry. entry.document_id) (keep (λ entry. entry.required) snapshot.manifest_entries)))

-- the body of the loop over the loader's diagnostics, for one that names a document
unfoldable pub loader_diagnostic :
    List String
    → BundleDiagnostic
    → String
    → BundleDiagnosticCode
    → BundleDiagnosticSeverity
    → List BundleLifecycleDiagnostic
loader_diagnostic required d id BundleDiagnosticCode.missing_required_document severity =
    record {
      code =
          if contains required id
          then BundleLifecycleDiagnosticCode.removed_document
          else BundleLifecycleDiagnosticCode.missing_document;
      message = d.message;
      document_id = some id;
      source_url = d.source_url;
    }
    ∷ []
loader_diagnostic required d id BundleDiagnosticCode.fetch_failed BundleDiagnosticSeverity.error =
    record {
      code = BundleLifecycleDiagnosticCode.unreadable_document;
      message = d.message;
      document_id = some id;
      source_url = d.source_url;
    }
    ∷ []
loader_diagnostic required d id code severity = []

abbrev named_loader_diagnostic :
    List String → BundleDiagnostic → Option String → List BundleLifecycleDiagnostic
named_loader_diagnostic required d none = []
named_loader_diagnostic required d (some id) = loader_diagnostic required d id d.code d.severity

-- a required document of a bundle that could not be loaded this time
unfoldable pub unavailable : Option BundleLifecycleSnapshot → String → BundleLifecycleDiagnostic
unavailable previous id = record {
  code = BundleLifecycleDiagnosticCode.removed_document;
  message =
      around "required document '" id "' is no longer available in the current bundle outcome" ""
        "";
  document_id = some id;
  source_url = source_of previous id;
}

unfoldable pub map_loader_diagnostics_to_lifecycle :
    BundleLoadOutcome
    → Option BundleLoadOutcome
    → Option BundleLifecycleSnapshot
    → Option BundleLifecycleSnapshot
    → List BundleLifecycleDiagnostic
map_loader_diagnostics_to_lifecycle current previous previous_snapshot current_snapshot =
    let required = required_ids previous_snapshot in
    flat_map (λ d. named_loader_diagnostic required d d.document_id) current.diagnostics
    ++ (if is_some previous && not (is_some current_snapshot)
        then map (unavailable previous_snapshot) required
        else [])

unfoldable pub dedupe_diagnostics : List BundleLifecycleDiagnostic → List BundleLifecycleDiagnostic
dedupe_diagnostics = unique

module _ (debug : Option String → String) where
  unfoldable pub collect_lifecycle_diagnostics :
      BundleLoadOutcome
      → Option BundleLoadOutcome
      → Option BundleLifecycleSnapshot
      → Option BundleLifecycleSnapshot
      → List BundleLifecycleDiagnostic
  collect_lifecycle_diagnostics current previous previous_snapshot current_snapshot =
      dedupe_diagnostics (
        snapshot_diagnostics debug previous_snapshot current_snapshot
        ++ map_loader_diagnostics_to_lifecycle current previous previous_snapshot current_snapshot)

unfoldable pub classify_change :
    List BundleLifecycleDiagnostic
    → List BundleDocumentLifecycleChange
    → Bool
    → BundleLifecycleClassification
classify_change diagnostics changed_documents metadata =
    if not (is_empty diagnostics)
    then BundleLifecycleClassification.blocking_drift
    else if not (is_empty changed_documents)
    then BundleLifecycleClassification.documents_changed
    else if metadata
    then BundleLifecycleClassification.metadata_changed
    else BundleLifecycleClassification.no_change

module _ (digest : String → List ℕ) (daemon_version : String) (debug : Option String → String) where
  unfoldable pub diff_bundle_lifecycle :
      BundleLoadOutcome → Option BundleLoadOutcome → BundleLifecycleChange
  diff_bundle_lifecycle current previous =
      let previous_snapshot = Option.bind previous (from_outcome digest daemon_version) in
      let current_snapshot = from_outcome digest daemon_version current in
      let changed = diff_changed_documents previous_snapshot current_snapshot in
      let diagnostics =
        collect_lifecycle_diagnostics debug current previous previous_snapshot current_snapshot in
      record {
        previous = previous_snapshot;
        current = current_snapshot;
        classification =
            classify_change diagnostics changed
              (metadata_changed previous_snapshot current_snapshot);
        changed_documents = changed;
        diagnostics = diagnostics;
      }
