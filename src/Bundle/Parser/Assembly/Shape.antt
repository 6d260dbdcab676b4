-- ===== src/Bundle/Parser/Assembly/Shape.antt =====
-- What is known of the documents that the loop of `parse_skill_bundle_documents` has collected.
use mathlib.Core.HLevel.{⊥_prop}
use mathlib.Core.Logic.Or
use mathlib.Core.Option
use mathlib.Core.List.{Mem, Nodup, Nodup-nil, Nodup-cons, not-mem-nil, eq-or-mem_of_mem-cons}
use a2ex.Base.{
  String, List, [], ◌∷◌, map, Option, none, some, is_some, true, false, ◌≡◌, refl,
  ◌==◌ as same_text, Yields, Yields-bind, Settles, inl, inr, arith, Bool-cases, Result, ok, err,
  All, eq_iff,
}
use a2ex.Base.Equality.{contains, text_eq}
use a2ex.Bundle.Model.{role_eq}
use a2ex.Bundle.Parser.Headings.{SectionCandidate}
use a2ex.Bundle.Parser.Types.{FetchedBundleDocument, BundleError, Yaml, ParsedDocument}
use a2ex.Bundle.Parser.Documents.{
  parse_entry_frontmatter, parse_split, parse_single_document, parse_entry_document,
  parse_supporting_document,
}
use a2ex.Bundle.Parser.Assembly.{
  Collected, map_ok, more_diagnostics, more_documents, collect_parsed, collect_documents, is_entry,
}

-- an entry document has the three values that the bundle takes from it
abbrev pub HasValues : ParsedDocument → Type 0
HasValues parsed =
    (is_some parsed.bundle_id ≡ true)
    × (is_some parsed.bundle_format ≡ true)
    × (is_some parsed.bundle_version ≡ true)

abbrev pub IsReady : ParsedDocument → Type 0
IsReady parsed = (is_entry parsed ≡ true) → HasValues parsed

-- what is known of a document that was parsed
abbrev pub IsParsedFrom : FetchedBundleDocument → ParsedDocument → Type 0
IsParsedFrom fetched parsed = IsReady parsed × (parsed.document.document_id ≡ fetched.document_id)

not_entry :
    (fetched : FetchedBundleDocument)
    → same_text fetched.document_id "skill" ≡ false
    → (parsed : ParsedDocument) → parsed.document.document_id ≡ fetched.document_id
    → IsParsedFrom fetched parsed
not_entry fetched other parsed same = (λ h. cc, same)

module _ (yaml : Yaml) (fetched : FetchedBundleDocument) where
  entry_document :
      (frontmatter : String) (sections : List SectionCandidate)
      → Yields (IsParsedFrom fetched) (parse_entry_document yaml fetched frontmatter sections)
  unfolding parse_entry_document
  entry_document frontmatter sections =
      Yields-bind (IsParsedFrom fetched) (parse_entry_frontmatter yaml fetched frontmatter) _
        (λ metadata. ((λ h. (refl, refl, refl)), refl))

  supporting_document :
      same_text fetched.document_id "skill" ≡ false
      → (frontmatter : String) (sections : List SectionCandidate)
      → Yields (IsParsedFrom fetched) (parse_supporting_document yaml fetched frontmatter sections)
  unfolding parse_supporting_document
  supporting_document other frontmatter sections =
      search (Yields-bind (IsParsedFrom fetched), not_entry fetched other)

  split_document :
      (split : Result String (Option String × String))
      → Yields (IsParsedFrom fetched) (parse_split yaml fetched split)
  unfolding parse_split
  split_document split = elim (Bool-cases (same_text fetched.document_id "skill")) [
    | inl here ↦ rw here (search (Yields-bind (IsParsedFrom fetched), entry_document))
    | inr other ↦ rw other (search (Yields-bind (IsParsedFrom fetched), supporting_document other))
  ]

abbrev pub parsed_ids : List ParsedDocument → List String
parsed_ids parsed = map (λ p. p.document.document_id) parsed

-- what the loop has collected when it has seen some ids already
abbrev pub IsCollected : List String → Collected → Type 0
IsCollected seen collected =
    All IsReady collected.1
    × Nodup (parsed_ids collected.1)
    × ((id : String) → Mem id (parsed_ids collected.1) → contains seen id ≡ false)

later-IsCollected :
    (seen : List String) (id : String) (collected : Collected)
    → IsCollected (id ∷ seen) collected
    → IsCollected seen collected
later-IsCollected seen id collected h =
    (h.0, h.1, λ other m. let unseen = h.2 other m in ground arith)

more-IsCollected :
    (seen : List String) (id : String) (parsed : ParsedDocument) (collected : Collected)
    → contains seen id ≡ false
    → IsReady parsed
    → parsed.document.document_id ≡ id
    → IsCollected (id ∷ seen) collected
    → IsCollected seen (more_documents parsed collected)
more-IsCollected seen id parsed collected new ready same h = (
  (ready, h.0),
  Nodup-cons.1 (
    λ m.
        let unseen = h.2 parsed.document.document_id m in
        let here = (eq_iff parsed.document.document_id id).1 same in ground arith,
    h.1,
  ),
  λ other m. elim (Bool-cases (contains seen other)) [
    | inl old ↦ absurd (
        Or.elim ⊥_prop (eq-or-mem_of_mem-cons m) (λ here. cc (new, same, here, old))
          (λ there. let unseen = h.2 other there in ground arith))
    | inr fresh ↦ fresh
  ],
)

module _ (P Q : Collected → Type 0) where
  pub Settles-mono :
      (later : Option (Result BundleError Collected)) (f : Collected → Collected)
      → ((c : Collected) → P c → Q (f c))
      → Settles P later
      → Settles Q (Option.map (map_ok f) later)
  Settles-mono none f h s = tt
  Settles-mono (some (ok c)) f h s = h c s
  Settles-mono (some (err e)) f h s = tt

module _ (yaml : Yaml) where
  collect_parsed-Settles :
      (seen : List String) (fetched : FetchedBundleDocument)
      (result : Option (Result BundleError ParsedDocument))
      (later : Option (Result BundleError Collected))
      → contains seen fetched.document_id ≡ false
      → Settles (IsParsedFrom fetched) result
      → Settles (IsCollected (fetched.document_id ∷ seen)) later
      → Settles (IsCollected seen) (collect_parsed result later)
  unfolding collect_parsed
  collect_parsed-Settles seen fetched none later new h s = tt
  collect_parsed-Settles seen fetched (some (ok parsed)) later new h s =
      Settles-mono _ _ later (more_documents parsed)
        (λ c. more-IsCollected seen fetched.document_id parsed c new h.0 h.1) s
  collect_parsed-Settles seen fetched (some (err (BundleError.diagnostics issues))) later new h s =
      Settles-mono _ _ later (more_diagnostics issues)
        (λ c. later-IsCollected seen fetched.document_id c) s
  collect_parsed-Settles seen fetched (some (err (BundleError.transport url))) later new h s = tt
  collect_parsed-Settles seen fetched (some (err (BundleError.not_implemented m))) later new h s =
      tt

  pub parsed-Settles :
      (fetched : FetchedBundleDocument) (split : Option (Result String (Option String × String)))
      → Settles (IsParsedFrom fetched) (Option.map (parse_split yaml fetched) split)
  parsed-Settles fetched none = tt
  parsed-Settles fetched (some split) = split_document yaml fetched split

  pub collect_documents-Settles :
      (seen : List String) (fetched : List FetchedBundleDocument)
      → Settles (IsCollected seen) (collect_documents yaml seen fetched)
  unfolding collect_documents parse_single_document
  collect_documents-Settles seen [] = (tt, Nodup-nil, λ id m. absurd (not-mem-nil m))
  collect_documents-Settles seen (f ∷ fs) = elim (Bool-cases (contains seen f.document_id)) [
    | inl old ↦ rw old (
        Settles-mono _ _ _ _ (λ c. later-IsCollected seen f.document_id c)
          (collect_documents-Settles (f.document_id ∷ seen) fs))
    | inr new ↦ rw new (
        collect_parsed-Settles seen f _ _ new (parsed-Settles f _)
          (collect_documents-Settles (f.document_id ∷ seen) fs))
  ]
