-- ===== src/Bundle/Parser/Assembly/Whole.antt =====
-- What a skill bundle that was parsed is.
use mathlib.Core.List.{Mem, Nodup, Nodup-cons, flat_map}
use a2ex.Base.{
  keep, not, ◌∙◌, ◌==◌ as same_text, String, List, [], ◌∷◌, ◌++◌, map, Option, none, some, is_some,
  get_or, is_empty, true, false, ◌≡◌, refl, ap, inl, inr, Bool-cases, Result, ok, err, All, Yields,
  Settles, eq_iff, append-eq-nil_iff,
}
use a2ex.Base.Equality.{contains, text_eq, mem_of_contains}
use a2ex.Bundle.Model.{BundleDocument, BundleDocumentManifestEntry, BundleDiagnostic, role_eq}
use a2ex.Bundle.Parser.Types.{FetchedBundleDocument, BundleError, Yaml, ParsedDocument}
use a2ex.Bundle.Parser.Assembly.{
  Collected, collect_documents, is_entry, missing_diagnostics, ParsedSkillBundle, bundle_of,
  expected, build_from, build_bundle, build_collected, build_after, parse_skill_bundle_documents,
}
use a2ex.Bundle.Parser.Assembly.Shape.{IsReady, parsed_ids, IsCollected, collect_documents-Settles}
use a2ex.Bundle.Parser.Assembly.Complete.{IsAll, collect_documents-IsAll}
use a2ex.Bundle.Parser.Assembly.Partition.{
  rest_of, roles_of, IsFound, AreNew, skill-not-rest_of, Nodup-rest_of, sort_documents-supporting,
  sort_documents-entry, sort_documents-roles,
}

abbrev document_ids_of : List BundleDocument → List String
document_ids_of documents = map (λ d. d.document_id) documents

-- the ids of the documents that are not the entry document
abbrev others_of : List String → List String
others_of ids = keep (λ id. not (same_text id "skill")) ids

-- The entry document is first, the others are those that were fetched, the ids are distinct, so are
-- the roles of the others, and the required ones of the manifest are among them.
pub IsWhole : List FetchedBundleDocument → ParsedSkillBundle → Type 0
IsWhole fetched parsed =
    (entry : BundleDocument) × (others : List BundleDocument) × (parsed.bundle.documents
      ≡ entry ∷ others)
    × (entry.document_id ≡ "skill")
    × (document_ids_of others ≡ others_of (map (λ f. f.document_id) fetched))
    × Nodup (document_ids_of (entry ∷ others))
    × Nodup (map (λ d. d.role) others)
    × All (λ item. (item.required ≡ true) → Mem item.document_id (document_ids_of others))
        parsed.bundle.document_manifest

nil-of-is_empty : {A : Type 0} (xs : List A) → is_empty xs ≡ true → xs ≡ []
nil-of-is_empty [] h = refl
nil-of-is_empty (x ∷ xs) h = cc

parsed_ids-documents :
    (ps : List ParsedDocument) → document_ids_of (map (λ p. p.document) ps) ≡ parsed_ids ps
parsed_ids-documents [] = refl
parsed_ids-documents (p ∷ ps) = ap (λ ids. p.document.document_id ∷ ids) (parsed_ids-documents ps)

roles_of-documents :
    (ps : List ParsedDocument) → map (λ d. d.role) (map (λ p. p.document) ps) ≡ roles_of ps
roles_of-documents [] = refl
roles_of-documents (p ∷ ps) = ap (λ roles. p.document.role ∷ roles) (roles_of-documents ps)

none_missing :
    (supporting : List ParsedDocument) (manifest : List BundleDocumentManifestEntry)
    → flat_map (missing_diagnostics supporting) manifest ≡ []
    → All (λ item. (item.required ≡ true) → Mem item.document_id (parsed_ids supporting)) manifest
unfolding flat_map
none_missing supporting [] h = tt
none_missing supporting (item ∷ items) h =
    let parts =
      (append-eq-nil_iff (missing_diagnostics supporting item)
          (flat_map (missing_diagnostics supporting) items)).0
        h in
    (
      λ required. elim (Bool-cases (contains (parsed_ids supporting) item.document_id)) [
        | inl there ↦ mem_of_contains (parsed_ids supporting) item.document_id there
        | inr missing ↦ absurd (cc (rw (required, missing) at parts.0))
      ],
      none_missing supporting items parts.1,
    )

parsed_ids-rest_of :
    (ps : List ParsedDocument) → parsed_ids (rest_of ps) ≡ others_of (parsed_ids ps)
parsed_ids-rest_of [] = refl
parsed_ids-rest_of (p ∷ ps) = elim (Bool-cases (is_entry p)) [
  | inl here ↦ rw here (parsed_ids-rest_of ps)
  | inr other ↦ rw other (ap (λ ids. p.document.document_id ∷ ids) (parsed_ids-rest_of ps))
]

module _ (fetched : List FetchedBundleDocument) where
  abbrev fetched_ids : List String
  fetched_ids = map (λ f. f.document_id) fetched

  -- there is no panic, and a bundle that is returned is whole
  abbrev pub Returns : Option (Result BundleError ParsedSkillBundle) → Type 0
  Returns none = true ≡ false
  Returns (some r) = Yields (IsWhole fetched) r

  IsWhole-of_returned :
      (built : Option (Result BundleError ParsedSkillBundle)) (parsed : ParsedSkillBundle)
      → Returns built
      → built ≡ some (ok parsed)
      → IsWhole fetched parsed
  IsWhole-of_returned built parsed returned h = rw h at returned

  pub some_of-Returns :
      (built : Option (Result BundleError ParsedSkillBundle)) → Returns built → is_some built ≡ true
  some_of-Returns none returned = cc
  some_of-Returns (some r) returned = refl

  IsWhole-bundle_of :
      (entry : ParsedDocument) (supporting : List ParsedDocument) (i f v : String)
      → is_entry entry ≡ true
      → parsed_ids supporting ≡ others_of fetched_ids
      → Nodup ("skill" ∷ parsed_ids supporting)
      → Nodup (roles_of supporting)
      → flat_map (missing_diagnostics supporting) (get_or entry.manifest []) ≡ []
      → IsWhole fetched (bundle_of entry supporting i f v)
  unfolding IsWhole
  IsWhole-bundle_of entry supporting i f v here all ids roles missing =
      let same = (eq_iff entry.document.document_id "skill").0 here in
      (
        entry.document,
        map (λ p. p.document) supporting,
        refl,
        same,
        rw (parsed_ids-documents supporting) all,
        rw (same, parsed_ids-documents supporting) ids,
        rw (roles_of-documents supporting) roles,
        rw (parsed_ids-documents supporting)
            (none_missing supporting (get_or entry.manifest []) missing),
      )

  expected-Returns :
      (entry : ParsedDocument) (supporting : List ParsedDocument) (i f v : Option String)
      → is_some i ≡ true
      → is_some f ≡ true
      → is_some v ≡ true
      → ((i f v : String) → IsWhole fetched (bundle_of entry supporting i f v))
      → Returns (expected entry supporting i f v)
  expected-Returns entry supporting (some i) (some f) (some v) hi hf hv whole = whole i f v
  expected-Returns entry supporting none f v hi hf hv whole = cc
  expected-Returns entry supporting (some i) none v hi hf hv whole = cc
  expected-Returns entry supporting (some i) (some f) none hi hf hv whole = cc

  build_from-Returns :
      (issues : List BundleDiagnostic) (supporting : List ParsedDocument)
      (entry : Option ParsedDocument)
      → IsFound entry
      → parsed_ids supporting ≡ others_of fetched_ids
      → Nodup ("skill" ∷ parsed_ids supporting)
      → (issues ≡ [] → Nodup (roles_of supporting))
      → Returns (build_from issues supporting entry)
  build_from-Returns issues supporting none found all ids roles = tt
  build_from-Returns issues supporting (some entry) found all ids roles =
      let all_issues =
        issues ++ flat_map (missing_diagnostics supporting) (get_or entry.manifest []) in
      elim (Bool-cases (is_empty all_issues)) [
        | inl none_left ↦
            let parts = (append-eq-nil_iff issues _).0 (nil-of-is_empty all_issues none_left) in
            rw none_left (
              expected-Returns entry supporting entry.bundle_id entry.bundle_format
                entry.bundle_version found.1.0 found.1.1 found.1.2
                (λ i f v.
                  IsWhole-bundle_of entry supporting i f v found.0 all ids (roles parts.0) parts.1))
        | inr some_left ↦ rw some_left tt
      ]

  build_bundle-Returns :
      (documents : List ParsedDocument)
      → All IsReady documents
      → parsed_ids documents ≡ fetched_ids
      → Nodup (parsed_ids documents)
      → Returns (build_bundle documents)
  unfolding build_bundle AreNew
  build_bundle-Returns documents ready all ids =
      build_from-Returns _ _ _ (sort_documents-entry none [] documents tt ready)
        (rw (sort_documents-supporting none [] documents)
          (parsed_ids-rest_of documents ∙ ap others_of all))
        (rw (sort_documents-supporting none [] documents)
          (Nodup-cons.1 (skill-not-rest_of documents, Nodup-rest_of documents ids)))
        (λ clean.
          rw (sort_documents-supporting none [] documents)
            (sort_documents-roles none [] documents clean).0)

  pub build_collected-Returns :
      (collected : Collected)
      → IsCollected [] collected
      → IsAll fetched collected
      → Returns (build_collected collected)
  build_collected-Returns ([], documents) h all = build_bundle-Returns documents h.0 (all refl) h.1
  build_collected-Returns (issue ∷ issues, documents) h all = tt

  build_after-IsWhole :
      (collected : Option (Result BundleError Collected)) (parsed : ParsedSkillBundle)
      → Settles (IsCollected []) collected
      → Settles (IsAll fetched) collected
      → build_after collected ≡ some (ok parsed)
      → IsWhole fetched parsed
  build_after-IsWhole none parsed s all h = cc
  build_after-IsWhole (some (err e)) parsed s all h = cc
  build_after-IsWhole (some (ok c)) parsed s all h =
      IsWhole-of_returned _ parsed (build_collected-Returns c s all) h

-- A bundle that the parser returns has the entry document first and then documents of exactly the
-- other fetched ids, in their order, no document id twice and no role twice among the others, and
-- each id that its manifest requires among theirs.
pub parse_skill_bundle_documents-IsWhole :
    (yaml : Yaml) (fetched : List FetchedBundleDocument) (parsed : ParsedSkillBundle)
    → parse_skill_bundle_documents yaml fetched ≡ some (ok parsed)
    → IsWhole fetched parsed
unfolding parse_skill_bundle_documents
parse_skill_bundle_documents-IsWhole yaml fetched parsed h =
    build_after-IsWhole fetched (collect_documents yaml [] fetched) parsed
      (collect_documents-Settles yaml [] fetched) (collect_documents-IsAll yaml [] fetched) h
