-- ===== src/Bundle/Parser/Assembly/Panics.antt =====
-- When the parser of skill bundles can panic.
use mathlib.Core.Option
use a2ex.Base.{
  String, List, [], ◌∷◌, Option, none, some, is_some, true, ◌≡◌, refl, inl, inr, Bool-cases, Result,
  ok, err, All, Settles,
}
use a2ex.Base.Equality.{contains, text_eq}
use a2ex.Bundle.Model.{role_eq}
use a2ex.Bundle.Parser.Fences.{split_frontmatter}
use a2ex.Bundle.Parser.Types.{FetchedBundleDocument, BundleError, Yaml, ParsedDocument}
use a2ex.Bundle.Parser.Documents.{parse_single_document}
use a2ex.Bundle.Parser.Assembly.{
  Collected, collect_parsed, collect_documents, build_after, parse_skill_bundle_documents,
}
use a2ex.Bundle.Parser.Assembly.Shape.{IsCollected, collect_documents-Settles}
use a2ex.Bundle.Parser.Assembly.Complete.{IsAll, collect_documents-IsAll}
use a2ex.Bundle.Parser.Assembly.Whole.{some_of-Returns, build_collected-Returns}

-- the front matter of a document can be split off
abbrev Splits : FetchedBundleDocument → Type 0
Splits fetched = is_some (split_frontmatter fetched.body_markdown) ≡ true

some-map :
    {A B : Type 0} (f : A → B) (o : Option A) → is_some o ≡ true → is_some (Option.map f o) ≡ true
some-map f none h = cc
some-map f (some a) h = refl

collect_parsed-some :
    (result : Option (Result BundleError ParsedDocument))
    (later : Option (Result BundleError Collected))
    → is_some result ≡ true
    → is_some later ≡ true
    → is_some (collect_parsed result later) ≡ true
unfolding collect_parsed
collect_parsed-some none later hr hl = cc
collect_parsed-some (some (ok document)) later hr hl = some-map _ later hl
collect_parsed-some (some (err (BundleError.diagnostics issues))) later hr hl = some-map _ later hl
collect_parsed-some (some (err (BundleError.transport url))) later hr hl = refl
collect_parsed-some (some (err (BundleError.not_implemented m))) later hr hl = refl

collect_documents-some :
    (yaml : Yaml) (seen : List String) (fetched : List FetchedBundleDocument)
    → All Splits fetched
    → is_some (collect_documents yaml seen fetched) ≡ true
unfolding collect_documents parse_single_document
collect_documents-some yaml seen [] h = refl
collect_documents-some yaml seen (f ∷ fs) h =
    let later = collect_documents-some yaml (f.document_id ∷ seen) fs h.1 in
    elim (Bool-cases (contains seen f.document_id)) [
      | inl old ↦ rw old (some-map _ _ later)
      | inr new ↦ rw new (collect_parsed-some _ _ (some-map _ _ h.0) later)
    ]

build_after-some :
    (fetched : List FetchedBundleDocument) (collected : Option (Result BundleError Collected))
    → is_some collected ≡ true
    → Settles (IsCollected []) collected
    → Settles (IsAll fetched) collected
    → is_some (build_after collected) ≡ true
build_after-some fetched none h s all = cc
build_after-some fetched (some (err e)) h s all = refl
build_after-some fetched (some (ok c)) h s all =
    some_of-Returns fetched _ (build_collected-Returns fetched c s all)

-- Where the front matter of every fetched document can be split off without a panic, the parser
-- returns a bundle or an error: what it expects of the entry document is there.
pub parse_skill_bundle_documents-returns :
    (yaml : Yaml) (fetched : List FetchedBundleDocument)
    → All Splits fetched
    → is_some (parse_skill_bundle_documents yaml fetched) ≡ true
unfolding parse_skill_bundle_documents
parse_skill_bundle_documents-returns yaml fetched h =
    build_after-some fetched (collect_documents yaml [] fetched)
      (collect_documents-some yaml [] fetched h) (collect_documents-Settles yaml [] fetched)
      (collect_documents-IsAll yaml [] fetched)
