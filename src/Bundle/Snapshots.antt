-- ===== src/Bundle/Snapshots.antt =====
-- The snapshot of a bundle, `BundleLifecycleSnapshot` of
-- daemon/crates/a2ex-skill-bundle/src/lifecycle.rs. `digest` is SHA-256, and `daemon_version` the
-- version that the daemon was built as.
use mathlib.Core.Option
use a2ex.Base.{
  ℕ, ◌+◌, ◌/◌, ◌%◌, String, List, [], ◌∷◌, map, Option, none, some, find?, ◌==◌, ltb, if◌then◌else◌,
}
use a2ex.Base.Text.{ascii}
use a2ex.Compiler.Normalize.{str_le}
use a2ex.Bundle.Model.{
  SkillBundle, BundleDocument, BundleDocumentManifestEntry, BundleLoadOutcome,
  BundleLifecycleSnapshot, BundleLifecycleDocumentSnapshot, BundleLifecycleManifestEntrySnapshot,
  BundleLifecycleDaemonCompatibility,
}
use a2ex.Bundle.Versions.{requirement_matches}

-- a digit of `{:x}`
abbrev hex_digit : ℕ → ℕ
hex_digit n = if ltb n 10 then 48 + n else 87 + n

abbrev hex : List ℕ → String
hex [] = String.[]
hex (byte ∷ bytes) =
    String.◌∷◌ (ascii (hex_digit (byte / 16)))
      (String.◌∷◌ (ascii (hex_digit (byte % 16))) (hex bytes))

module _ {A : Type 0} (id_of : A → String) where
  -- what a map by id, collected from a list, holds at an id: the last item with it
  unfoldable pub last_with_id : String → List A → Option A
  last_with_id id [] = none
  last_with_id id (x ∷ xs) = elim (last_with_id id xs) [
    | some later ↦ some later
    | none ↦ if id_of x == id then some x else none
  ]

  unfoldable pub insert_by_id : A → List A → List A
  insert_by_id x [] = x ∷ []
  insert_by_id x (y ∷ ys) = if str_le (id_of x) (id_of y) then x ∷ y ∷ ys else y ∷ insert_by_id x ys

  -- `sort_by` on the ids, which keeps the order of equal ones
  unfoldable pub sort_by_id : List A → List A
  unfolding insert_by_id
  sort_by_id [] = []
  sort_by_id (x ∷ xs) = insert_by_id x (sort_by_id xs)

-- `snapshot.documents_by_id().get(id)`
unfoldable pub document_by_id :
    String → BundleLifecycleSnapshot → Option BundleLifecycleDocumentSnapshot
unfolding last_with_id
document_by_id id snapshot = last_with_id (λ document. document.document_id) id snapshot.documents

unfoldable pub manifest_snapshot :
    SkillBundle → BundleDocumentManifestEntry → BundleLifecycleManifestEntrySnapshot
unfolding last_with_id
manifest_snapshot bundle entry = record {
  document_id = entry.document_id;
  role = entry.role;
  relative_path = entry.relative_path;
  required = entry.required;
  declared_revision = entry.revision;
  resolved_source_url =
      Option.map (λ document. document.source_url)
        (last_with_id (λ document. document.document_id) entry.document_id bundle.documents);
}

module _ (digest : String → List ℕ) where
  abbrev pub fingerprint_markdown : String → String
  fingerprint_markdown markdown = hex (digest markdown)

  unfoldable pub document_snapshot : SkillBundle → BundleDocument → BundleLifecycleDocumentSnapshot
  document_snapshot bundle document =
      let manifest_entry =
        find? (λ entry. entry.document_id == document.document_id) bundle.document_manifest in
      record {
        document_id = document.document_id;
        role = document.role;
        revision = document.revision;
        title = document.title;
        source_url = some document.source_url;
        declared_revision = Option.bind manifest_entry (λ entry. entry.revision);
        required = Option.map (λ entry. entry.required) manifest_entry;
        content_fingerprint = some (fingerprint_markdown document.body_markdown);
      }

  module _ (daemon_version : String) where
    unfoldable pub compatibility_of : String → BundleLifecycleDaemonCompatibility
    unfolding requirement_matches
    compatibility_of requirement = record {
      daemon_version = daemon_version;
      requirement = requirement;
      is_compatible = requirement_matches daemon_version requirement;
    }

    unfoldable pub from_bundle : SkillBundle → BundleLifecycleSnapshot
    unfolding manifest_snapshot document_snapshot compatibility_of sort_by_id
    from_bundle bundle = record {
      bundle_id = some bundle.bundle_id;
      bundle_format = some bundle.bundle_format;
      bundle_version = some bundle.bundle_version;
      compatible_daemon = bundle.compatible_daemon;
      daemon_compatibility = Option.map compatibility_of bundle.compatible_daemon;
      name = bundle.name;
      summary = bundle.summary;
      manifest_entries =
          sort_by_id (λ entry. entry.document_id)
            (map (manifest_snapshot bundle) bundle.document_manifest);
      documents =
          sort_by_id (λ document. document.document_id)
            (map (document_snapshot bundle) bundle.documents);
    }

    unfoldable pub from_outcome : BundleLoadOutcome → Option BundleLifecycleSnapshot
    unfolding from_bundle
    from_outcome outcome = Option.map from_bundle outcome.bundle
