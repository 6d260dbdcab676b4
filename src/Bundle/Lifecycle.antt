-- ===== src/Bundle/Lifecycle.antt =====
-- What changed between two loads of a bundle: `diff_bundle_lifecycle` of
-- daemon/crates/a2ex-skill-bundle/src/lifecycle.rs.
use mathlib.Core.Option
use mathlib.Core.List.{flat_map}
use a2ex.Base.{
  String, List, [], ◌∷◌, ◌++◌, map, Option, none, some, Bool, true, false, ◌&&◌, ◌||◌,
  if◌then◌else◌,
}
use a2ex.Base.Equality.{◌==◌, ◌!=◌, number_eq, text_eq, bool_eq, option_eq, pair_eq}
use a2ex.Compiler.Normalize.{sort, dedup}
use a2ex.Bundle.Model.{
  BundleDocumentRole, role_eq, BundleLifecycleSnapshot, BundleLifecycleDocumentSnapshot,
  BundleDocumentLifecycleChange, BundleDocumentLifecycleChangeKind, diagnostic_eq, compatibility_eq,
}
use a2ex.Bundle.Snapshots.{document_by_id}

abbrev pub documents_of : Option BundleLifecycleSnapshot → List BundleLifecycleDocumentSnapshot
documents_of none = []
documents_of (some snapshot) = snapshot.documents

abbrev pub ids_of : Option BundleLifecycleSnapshot → List String
ids_of snapshot = map (λ document. document.document_id) (documents_of snapshot)

-- the map of an absent snapshot is empty
unfoldable pub document_in :
    Option BundleLifecycleSnapshot → String → Option BundleLifecycleDocumentSnapshot
document_in snapshot id = Option.bind snapshot (document_by_id id)

-- a document's id and role with the revisions and the source of a change
abbrev pub change_of :
    BundleLifecycleDocumentSnapshot
    → BundleDocumentLifecycleChangeKind
    → Option String
    → Option String
    → BundleDocumentLifecycleChange
change_of document kind previous current = record {
  document_id = document.document_id;
  role = some document.role;
  kind = kind;
  previous_revision = previous;
  current_revision = current;
  source_url = document.source_url;
}

abbrev pub content_differs :
    BundleLifecycleDocumentSnapshot → BundleLifecycleDocumentSnapshot → Bool
content_differs previous current =
    (previous.content_fingerprint != current.content_fingerprint)
    || (previous.source_url != current.source_url)
    || (previous.declared_revision != current.declared_revision)
    || (previous.required != current.required)
    || (previous.role != current.role)

-- the body of the loop, for what the two maps hold at an id
unfoldable pub document_changes :
    Option BundleLifecycleDocumentSnapshot
    → Option BundleLifecycleDocumentSnapshot
    → List BundleDocumentLifecycleChange
document_changes none none = []
document_changes none (some current) =
    change_of current BundleDocumentLifecycleChangeKind.added none current.revision ∷ []
document_changes (some previous) none =
    change_of previous BundleDocumentLifecycleChangeKind.removed previous.revision none ∷ []
document_changes (some previous) (some current) =
    if (previous.role == BundleDocumentRole.entry) && (current.role == BundleDocumentRole.entry)
    then []
    else (if previous.revision != current.revision
        then change_of current BundleDocumentLifecycleChangeKind.revision_changed previous.revision
            current.revision
          ∷ []
        else [])
      ++ (if content_differs previous current
          then change_of current BundleDocumentLifecycleChangeKind.content_changed previous.revision
              current.revision
            ∷ []
          else [])

-- the ordered set of the ids of both
unfoldable pub document_ids :
    Option BundleLifecycleSnapshot → Option BundleLifecycleSnapshot → List String
document_ids previous current = dedup (sort (ids_of previous ++ ids_of current))

unfoldable pub diff_changed_documents :
    Option BundleLifecycleSnapshot
    → Option BundleLifecycleSnapshot
    → List BundleDocumentLifecycleChange
diff_changed_documents previous current =
    flat_map (λ id. document_changes (document_in previous id) (document_in current id))
      (document_ids previous current)

unfoldable pub metadata_changed :
    Option BundleLifecycleSnapshot → Option BundleLifecycleSnapshot → Bool
metadata_changed (some previous) (some current) =
    (previous.bundle_id != current.bundle_id)
    || (previous.bundle_format != current.bundle_format)
    || (previous.bundle_version != current.bundle_version)
    || (previous.compatible_daemon != current.compatible_daemon)
    || (previous.name != current.name)
    || (previous.summary != current.summary)
    || (previous.daemon_compatibility != current.daemon_compatibility)
metadata_changed none none = false
metadata_changed _ _ = true
