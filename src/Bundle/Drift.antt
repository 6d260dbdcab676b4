-- ===== src/Bundle/Drift.antt =====
-- When a change of a bundle blocks, and what a load that changes nothing is.
use mathlib.Core.Logic.Or
use mathlib.Core.HLevel.{⊥_prop}
use mathlib.Core.Option
use mathlib.Core.List.{
  Mem, Mem-prop, mem-cons_self, mem-cons_of_mem, mem-map_of_mem, not-mem-nil, eq-or-mem_of_mem-cons,
  flat_map,
}
use a2ex.Base.{
  ℕ, String, List, [], ◌∷◌, ◌++◌, map, Option, none, some, Bool, true, false, ◌≡◌, ◌≢◌, refl, ◌↔◌,
  inl, inr, arith, append-eq-nil_iff, Bool-cases,
}
use a2ex.Base.Equality.{unique_after, ne_iff, text_eq, option_eq}
use a2ex.Compiler.Normalize.{str_le}
use a2ex.Compiler.Venues.{Mem as Among}
use a2ex.Bundle.Model.{
  SkillBundle, BundleDocument, BundleDocumentManifestEntry, BundleLoadOutcome,
  BundleLifecycleSnapshot, BundleLifecycleManifestEntrySnapshot, BundleLifecycleDocumentSnapshot,
  BundleLifecycleDiagnostic, BundleDocumentLifecycleChange, BundleLifecycleClassification,
  diagnostic_eq, compatibility_eq,
}
use a2ex.Bundle.Snapshots.{
  insert_by_id, sort_by_id, document_snapshot, manifest_snapshot, from_bundle, from_outcome,
}
use a2ex.Bundle.Lifecycle.{document_in, metadata_changed}
use a2ex.Bundle.Diagnostics.{
  manifest_diagnostics, snapshot_diagnostics, dedupe_diagnostics, collect_lifecycle_diagnostics,
  classify_change, diff_bundle_lifecycle,
}
use a2ex.Bundle.Changes.{IsKept, document_in-cases, no_document_changed_iff}

append-ne-nil : {A : Type 0} (xs ys : List A) → xs ≢ [] → (xs ++ ys) ≢ []
append-ne-nil xs ys h e = h ((append-eq-nil_iff xs ys).0 e).0

pub append-ne-nil_right : {A : Type 0} (xs ys : List A) → ys ≢ [] → (xs ++ ys) ≢ []
append-ne-nil_right xs ys h e = h ((append-eq-nil_iff xs ys).0 e).1

unique-ne-nil : (ds : List BundleLifecycleDiagnostic) → ds ≢ [] → dedupe_diagnostics ds ≢ []
unfolding dedupe_diagnostics unique_after
unique-ne-nil [] h = h
unique-ne-nil (d ∷ ds) h = λ e. cc e

module _ {A B : Type 0} (f : A → List B) where
  flat_map-ne-nil : (x : A) (xs : List A) → Mem x xs → f x ≢ [] → flat_map f xs ≢ []
  unfolding flat_map
  flat_map-ne-nil x [] m h = absurd (not-mem-nil m)
  flat_map-ne-nil x (y ∷ ys) m h = λ e.
      let parts = (append-eq-nil_iff (f y) (flat_map f ys)).0 e in
      Or.elim ⊥_prop (eq-or-mem_of_mem-cons m) (λ here. h (rw here parts.0))
        (λ there. flat_map-ne-nil x ys there h parts.1)

module _ {A : Type 0} (id_of : A → String) where
  mem-insert_by_id : (x y : A) (ys : List A) → Mem x (y ∷ ys) → Mem x (insert_by_id id_of y ys)
  unfolding insert_by_id
  mem-insert_by_id x y [] m = m
  mem-insert_by_id x y (z ∷ zs) m = elim (Bool-cases (str_le (id_of y) (id_of z))) [
    | inl first ↦ rw first m
    | inr later ↦ rw later (
        Or.elim Mem-prop (eq-or-mem_of_mem-cons m)
          (λ here. mem-cons_of_mem z (mem-insert_by_id x y zs (rw here mem-cons_self)))
          (λ behind.
            Or.elim Mem-prop (eq-or-mem_of_mem-cons behind) (λ next. rw next mem-cons_self)
              (λ there. mem-cons_of_mem z (mem-insert_by_id x y zs (mem-cons_of_mem y there)))))
  ]

  mem-sort_by_id : (x : A) (xs : List A) → Mem x xs → Mem x (sort_by_id id_of xs)
  unfolding sort_by_id
  mem-sort_by_id x [] m = m
  mem-sort_by_id x (y ∷ ys) m = mem-insert_by_id x y (sort_by_id id_of ys) (
      Or.elim Mem-prop (eq-or-mem_of_mem-cons m) (λ here. rw here mem-cons_self)
        (λ there. mem-cons_of_mem y (mem-sort_by_id x ys there)))

  among-insert_by_id :
      (id : String) (y : A) (ys : List A)
      → Among id (map id_of (insert_by_id id_of y ys))
      → Among id (map id_of (y ∷ ys))
  unfolding insert_by_id
  among-insert_by_id id y [] m = m
  among-insert_by_id id y (z ∷ zs) m = ground (arith, among-insert_by_id id y zs)

  among-sort_by_id :
      (id : String) (xs : List A)
      → Among id (map id_of (sort_by_id id_of xs))
      → Among id (map id_of xs)
  unfolding sort_by_id
  among-sort_by_id id [] m = m
  among-sort_by_id id (y ∷ ys) m =
      ground (arith, among-insert_by_id id y (sort_by_id id_of ys), among-sort_by_id id ys)

same_ids :
    (digest : String → List ℕ) (bundle : SkillBundle) (id : String)
    (documents : List BundleDocument)
    → Among id (map (λ d. d.document_id) (map (document_snapshot digest bundle) documents))
    → Among id (map (λ d. d.document_id) documents)
unfolding document_snapshot
same_ids digest bundle id [] m = m
same_ids digest bundle id (d ∷ ds) (inl here) = inl here
same_ids digest bundle id (d ∷ ds) (inr there) = inr (same_ids digest bundle id ds there)

required_entry_blocks :
    (debug : Option String → String) (previous : Option BundleLifecycleSnapshot)
    (entry : BundleLifecycleManifestEntrySnapshot)
    → entry.required ≡ true
    → manifest_diagnostics debug previous entry none ≢ []
unfolding manifest_diagnostics
required_entry_blocks debug previous entry required = rw required (λ e. cc e)

blocking_drift_of :
    (diagnostics : List BundleLifecycleDiagnostic) (changed : List BundleDocumentLifecycleChange)
    (metadata : Bool)
    → diagnostics ≢ []
    → classify_change diagnostics changed metadata ≡ BundleLifecycleClassification.blocking_drift
unfolding classify_change
blocking_drift_of [] changed metadata h = absurd (h refl)
blocking_drift_of (d ∷ ds) changed metadata h = refl

classify_unchanged :
    (diagnostics : List BundleLifecycleDiagnostic) (changed : List BundleDocumentLifecycleChange)
    (metadata : Bool)
    → changed ≡ []
    → metadata ≡ false
    → (let classified = classify_change diagnostics changed metadata in
        ((classified ≡ BundleLifecycleClassification.no_change) ↔ (diagnostics ≡ []))
        × ((classified ≡ BundleLifecycleClassification.blocking_drift) ↔ (diagnostics ≢ [])))
unfolding classify_change
classify_unchanged [] changed metadata empty same =
    rw (empty, same) ((λ h. refl, λ h. refl), (λ h. cc, λ h. absurd (h refl)))
classify_unchanged (d ∷ ds) changed metadata empty same =
    ((λ h. cc, λ h. cc), (λ h e. cc e, λ h. refl))

IsKept-refl : (document : Option BundleLifecycleDocumentSnapshot) → IsKept document document
IsKept-refl none = tt
IsKept-refl (some d) = inr (refl, refl, refl, refl, refl, refl)

metadata_unchanged :
    (snapshot : Option BundleLifecycleSnapshot) → metadata_changed snapshot snapshot ≡ false
unfolding metadata_changed
metadata_unchanged none = refl
metadata_unchanged (some s) =
    rw
      (
        (ne_iff s.bundle_id s.bundle_id).1 refl,
        (ne_iff s.bundle_format s.bundle_format).1 refl,
        (ne_iff s.bundle_version s.bundle_version).1 refl,
        (ne_iff s.compatible_daemon s.compatible_daemon).1 refl,
        (ne_iff s.name s.name).1 refl,
        (ne_iff s.summary s.summary).1 refl,
        (ne_iff s.daemon_compatibility s.daemon_compatibility).1 refl,
      )
      refl

module _ (digest : String → List ℕ) (version : String) (debug : Option String → String) where
  absent_document :
      (bundle : SkillBundle) (id : String)
      → ¬ Among id (map (λ d. d.document_id) bundle.documents)
      → document_in (some (from_bundle digest version bundle)) id ≡ none
  absent_document bundle id absent =
      elim (document_in-cases (some (from_bundle digest version bundle)) id) [
        | inr nowhere ↦ nowhere
        | inl found ↦ absurd (
            absent (
              same_ids digest bundle id bundle.documents (
                among-sort_by_id (λ d. d.document_id) id
                  (map (document_snapshot digest bundle) bundle.documents)
                  (unfold from_bundle in found))))
      ]

  entry_is_listed :
      (bundle : SkillBundle) (entry : BundleDocumentManifestEntry)
      → Mem entry bundle.document_manifest
      → Mem (manifest_snapshot bundle entry) (from_bundle digest version bundle).manifest_entries
  unfolding from_bundle
  entry_is_listed bundle entry m =
      mem-sort_by_id _ _ _ (mem-map_of_mem (manifest_snapshot bundle) m)

  entry_is_diagnosed :
      (previous : Option BundleLifecycleSnapshot) (bundle : SkillBundle)
      (entry : BundleDocumentManifestEntry)
      → entry.required ≡ true
      → ¬ Among entry.document_id (map (λ d. d.document_id) bundle.documents)
      → manifest_diagnostics debug previous (manifest_snapshot bundle entry) (
          document_in
            (some (from_bundle digest version bundle))
            (manifest_snapshot bundle entry).document_id)
        ≢ []
  unfolding manifest_snapshot
  entry_is_diagnosed previous bundle entry required absent =
      rw (absent_document bundle entry.document_id absent)
        (required_entry_blocks debug previous (manifest_snapshot bundle entry) required)

  missing_is_diagnosed :
      (previous : Option BundleLifecycleSnapshot) (bundle : SkillBundle)
      (entry : BundleDocumentManifestEntry)
      → Mem entry bundle.document_manifest
      → entry.required ≡ true
      → ¬ Among entry.document_id (map (λ d. d.document_id) bundle.documents)
      → snapshot_diagnostics debug previous (some (from_bundle digest version bundle)) ≢ []
  unfolding snapshot_diagnostics
  missing_is_diagnosed previous bundle entry m required absent = append-ne-nil_right _ _ (
      flat_map-ne-nil _ (manifest_snapshot bundle entry) _ (entry_is_listed bundle entry m)
        (entry_is_diagnosed previous bundle entry required absent))

  diagnosed_blocks :
      (current : BundleLoadOutcome) (previous : Option BundleLoadOutcome)
      → (let before = Option.bind previous (from_outcome digest version) in
          snapshot_diagnostics debug before (from_outcome digest version current) ≢ [])
      → (diff_bundle_lifecycle digest version debug current previous).classification
        ≡ BundleLifecycleClassification.blocking_drift
  unfolding diff_bundle_lifecycle collect_lifecycle_diagnostics
  diagnosed_blocks current previous some_diagnostic =
      blocking_drift_of _ _ _ (unique-ne-nil _ (append-ne-nil _ _ some_diagnostic))

  -- A load whose bundle lacks a document that its own manifest requires is classified as blocking
  -- drift, whatever was loaded before and whatever the loader reported.
  pub missing_document_blocks :
      (current : BundleLoadOutcome) (previous : Option BundleLoadOutcome) (bundle : SkillBundle)
      (entry : BundleDocumentManifestEntry)
      → current.bundle ≡ some bundle
      → Mem entry bundle.document_manifest
      → entry.required ≡ true
      → ¬ Among entry.document_id (map (λ d. d.document_id) bundle.documents)
      → (diff_bundle_lifecycle digest version debug current previous).classification
        ≡ BundleLifecycleClassification.blocking_drift
  unfolding from_outcome
  missing_document_blocks current previous bundle entry loaded m required absent =
      diagnosed_blocks current previous
        (rw loaded (missing_is_diagnosed _ bundle entry m required absent))

  -- A load that is compared with itself has no changed document, and is classified as no change
  -- exactly when it has no diagnostic, and as blocking drift otherwise.
  pub reload :
      (outcome : BundleLoadOutcome)
      → (let change = diff_bundle_lifecycle digest version debug outcome (some outcome) in
          (change.changed_documents ≡ [])
          × ((change.classification ≡ BundleLifecycleClassification.no_change)
              ↔ (change.diagnostics ≡ []))
          × ((change.classification ≡ BundleLifecycleClassification.blocking_drift)
              ↔ (change.diagnostics ≢ [])))
  unfolding diff_bundle_lifecycle Option.bind
  reload outcome =
      let s = from_outcome digest version outcome in
      let unchanged = (no_document_changed_iff s s).1 (λ id. IsKept-refl (document_in s id)) in
      let (kept, blocked) = classify_unchanged _ _ _ unchanged (metadata_unchanged s) in
      (unchanged, kept, blocked)
