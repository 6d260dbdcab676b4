-- ===== src/Bundle/Parser/Assembly/Complete.antt =====
-- No fetched document is lost: an error of one document names its issues, so that a bundle is only
-- built where every document was parsed.
use mathlib.Core.Option
use a2ex.Base.{
  String, List, [], ◌∷◌, map, Option, none, some, Bool, true, false, not, ◌≡◌, ◌≢◌, ◌||◌, refl, inl,
  inr, Bool-cases, Result, ok, err, ◌>>=◌, ◌>>◌, fail_if, or_fail, map_err, Settles,
  append-eq-nil_iff, ◌==◌, ◌==◌ as same_text,
}
use a2ex.Base.Equality.{contains, text_eq}
use a2ex.Base.Text.{trim}
use a2ex.Bundle.Model.{BundleDiagnostic}
use a2ex.Bundle.Parser.Headings.{SectionCandidate, split_sections}
use a2ex.Bundle.Parser.Sorting.{parse_document_role}
use a2ex.Bundle.Parser.Types.{
  FetchedBundleDocument, BundleError, Yaml, ParsedDocument, EntryFrontmatter,
  EntryDocumentFrontmatter,
}
use a2ex.Bundle.Parser.Documents.{
  Listed, finish_metadata, list_documents, parse_entry_frontmatter, parse_entry_document,
  parse_supporting_document, parse_split, parse_single_document,
}
use a2ex.Bundle.Parser.Assembly.{
  Collected, more_diagnostics, more_documents, collect_parsed, collect_documents,
}
use a2ex.Bundle.Parser.Assembly.Shape.{parsed_ids, Settles-mono, IsParsedFrom, parsed-Settles}

-- an error that is a list of diagnostics is not empty
abbrev Explains : {A : Type 0} → Result BundleError A → Type 0
Explains (ok a) = Unit
Explains (err (BundleError.diagnostics issues)) = issues ≢ []
Explains (err (BundleError.transport url)) = Unit
Explains (err (BundleError.not_implemented message)) = Unit

Explains-bind :
    {A B : Type 0} (r : Result BundleError A) (f : A → Result BundleError B)
    → Explains r
    → ((a : A) → Explains (f a))
    → Explains (r >>= f)
Explains-bind (ok a) f h k = k a
Explains-bind (err (BundleError.diagnostics issues)) f h k = h
Explains-bind (err (BundleError.transport url)) f h k = tt
Explains-bind (err (BundleError.not_implemented message)) f h k = tt

one-ne_nil : (issue : BundleDiagnostic) → (issue ∷ []) ≢ []
one-ne_nil issue e = cc e

map_err-Explains :
    {A : Type 0} (f : String → BundleDiagnostic) (r : Result String A)
    → Explains (map_err (λ m. BundleError.diagnostics (f m ∷ [])) r)
map_err-Explains f (ok a) = tt
map_err-Explains f (err m) = one-ne_nil (f m)

or_fail-Explains :
    {A : Type 0} (o : Option A) (issue : BundleDiagnostic)
    → Explains (or_fail o (BundleError.diagnostics (issue ∷ [])))
or_fail-Explains none issue = one-ne_nil issue
or_fail-Explains (some a) issue = tt

fail_if-Explains :
    {A : Type 0} (b : Bool) (issue : BundleDiagnostic) (a : A)
    → Explains (fail_if b (BundleError.diagnostics (issue ∷ [])) >> ok a)
fail_if-Explains true issue a = one-ne_nil issue
fail_if-Explains false issue a = tt

finish_metadata-Explains :
    (metadata : EntryFrontmatter) (listed : Listed) → Explains (finish_metadata metadata listed)
finish_metadata-Explains metadata ([], manifest) = tt
finish_metadata-Explains metadata (issue ∷ issues, manifest) = λ e. cc e

list_documents-Explains :
    (fetched : FetchedBundleDocument) (documents : List EntryDocumentFrontmatter)
    → Explains (list_documents fetched documents)
unfolding list_documents
list_documents-Explains fetched [] = tt
list_documents-Explains fetched (document ∷ rest) =
    let later = list_documents-Explains fetched rest in
    elim (Bool-cases ((trim document.id == "") || (trim document.path == ""))) [
      | inl blank ↦ rw blank (Explains-bind _ _ later (λ listed. tt))
      | inr full ↦ rw full (
          Explains-bind _ _ (or_fail-Explains (parse_document_role document.role) _)
            (λ role. Explains-bind _ _ later (λ listed. tt)))
    ]

module _ (yaml : Yaml) (fetched : FetchedBundleDocument) where
  parse_entry_frontmatter-Explains :
      (frontmatter : String) → Explains (parse_entry_frontmatter yaml fetched frontmatter)
  unfolding parse_entry_frontmatter
  parse_entry_frontmatter-Explains frontmatter =
      Explains-bind _ _ (map_err-Explains _ (yaml.entry frontmatter)) (λ metadata.
        Explains-bind _ _ (list_documents-Explains fetched metadata.documents)
          (λ listed. finish_metadata-Explains metadata _))

  parse_entry_document-Explains :
      (frontmatter : String) (sections : List SectionCandidate)
      → Explains (parse_entry_document yaml fetched frontmatter sections)
  unfolding parse_entry_document
  parse_entry_document-Explains frontmatter sections =
      Explains-bind _ _ (parse_entry_frontmatter-Explains frontmatter) (λ metadata. tt)

  parse_supporting_document-Explains :
      (frontmatter : String) (sections : List SectionCandidate)
      → Explains (parse_supporting_document yaml fetched frontmatter sections)
  unfolding parse_supporting_document
  parse_supporting_document-Explains frontmatter sections =
      Explains-bind _ _ (map_err-Explains _ (yaml.supporting frontmatter)) (λ metadata.
        Explains-bind _ _ (or_fail-Explains (parse_document_role metadata.document_role) _) (λ role.
          fail_if-Explains
            ((trim metadata.document_id == "") || not (metadata.document_id == fetched.document_id))
            _ _))

  parse_split-Explains :
      (split : Result String (Option String × String)) → Explains (parse_split yaml fetched split)
  unfolding parse_split
  parse_split-Explains split = Explains-bind _ _ (map_err-Explains _ split) (λ parts.
      Explains-bind _ _ (or_fail-Explains parts.0 _) (λ frontmatter.
        elim (Bool-cases (same_text fetched.document_id "skill")) [
          | inl here ↦ rw here (parse_entry_document-Explains frontmatter (split_sections parts.1))
          | inr other ↦
              rw other (parse_supporting_document-Explains frontmatter (split_sections parts.1))
        ]))

abbrev pub IsAll : List FetchedBundleDocument → Collected → Type 0
IsAll fetched collected =
    collected.0 ≡ [] → parsed_ids collected.1 ≡ map (λ f. f.document_id) fetched

-- a result of one document: an error of it names its issues
abbrev Tells : Option (Result BundleError ParsedDocument) → Type 0
Tells none = Unit
Tells (some r) = Explains r

collect_parsed-IsAll :
    (fetched : FetchedBundleDocument) (rest : List FetchedBundleDocument)
    (result : Option (Result BundleError ParsedDocument))
    (later : Option (Result BundleError Collected))
    → Tells result
    → Settles (IsParsedFrom fetched) result
    → Settles (IsAll rest) later
    → Settles (IsAll (fetched ∷ rest)) (collect_parsed result later)
unfolding collect_parsed
collect_parsed-IsAll fetched rest none later told from all = tt
collect_parsed-IsAll fetched rest (some (ok parsed)) later told from all =
    Settles-mono (IsAll rest) (IsAll (fetched ∷ rest)) later (more_documents parsed)
      (λ c h none_left. rw (from.1, h none_left) refl) all
collect_parsed-IsAll fetched rest (some (err (BundleError.diagnostics issues))) later told from
      all =
    Settles-mono (IsAll rest) (IsAll (fetched ∷ rest)) later (more_diagnostics issues)
      (λ c h none_left. absurd (told ((append-eq-nil_iff issues c.0).0 none_left).0)) all
collect_parsed-IsAll fetched rest (some (err (BundleError.transport url))) later told from all = tt
collect_parsed-IsAll fetched rest (some (err (BundleError.not_implemented m))) later told from all =
    tt

parsed-Tells :
    (yaml : Yaml) (fetched : FetchedBundleDocument)
    (split : Option (Result String (Option String × String)))
    → Tells (Option.map (parse_split yaml fetched) split)
parsed-Tells yaml fetched none = tt
parsed-Tells yaml fetched (some split) = parse_split-Explains yaml fetched split

-- Where no issue was collected, every fetched document was parsed.
pub collect_documents-IsAll :
    (yaml : Yaml) (seen : List String) (fetched : List FetchedBundleDocument)
    → Settles (IsAll fetched) (collect_documents yaml seen fetched)
unfolding collect_documents parse_single_document
collect_documents-IsAll yaml seen [] = λ h. refl
collect_documents-IsAll yaml seen (f ∷ fs) =
    let later = collect_documents-IsAll yaml (f.document_id ∷ seen) fs in
    elim (Bool-cases (contains seen f.document_id)) [
      | inl old ↦
          rw old
            (Settles-mono (IsAll fs) (IsAll (f ∷ fs)) _ _ (λ c h none_left. cc none_left) later)
      | inr new ↦
          rw new
            (collect_parsed-IsAll f fs _ _ (parsed-Tells yaml f _) (parsed-Settles yaml f _) later)
    ]
