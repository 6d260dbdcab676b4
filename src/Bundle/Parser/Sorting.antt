-- ===== src/Bundle/Parser/Sorting.antt =====
-- `classify_sections`, `unique_slug` and the tables of daemon/crates/a2ex-skill-bundle/src/parser.rs.
pub mod Collisions
use a2ex.Base.{ℕ, ◌+◌, String, List, [], ◌∷◌, Option, none, some, ◌==◌, eqb, if◌then◌else◌}
use a2ex.Base.Text.{trim, join, decimal}
use a2ex.Bundle.Model.{
  Url, BundleDocumentRole, BundleSectionKind, BundleSection, UnresolvedBundleSection,
}
use a2ex.Bundle.Parser.Headings.{SectionCandidate}

-- how often each slug was seen; the front-most pair of a slug counts
abbrev pub Seen : Type 0
Seen = List (String × ℕ)

unfoldable pub times : String → Seen → ℕ
times slug [] = 0
times slug ((other, n) ∷ seen) = if other == slug then n else times slug seen

-- the name of a section, and the counts after it
unfoldable pub unique_slug : String → Seen → String × Seen
unfolding times join decimal
unique_slug slug seen =
    let entry = times slug seen + 1 in
    (if eqb entry 1 then slug else join "-" (slug ∷ decimal entry ∷ []), (slug, entry) ∷ seen)

unfoldable pub section_kind_for_role : BundleDocumentRole → String → Option BundleSectionKind
section_kind_for_role BundleDocumentRole.entry slug =
    if slug == "overview"
    then some BundleSectionKind.overview
    else if slug == "owner-decisions"
    then some BundleSectionKind.owner_decisions
    else none
section_kind_for_role BundleDocumentRole.owner_setup slug =
    if slug == "required-secrets" then some BundleSectionKind.required_secrets else none
section_kind_for_role BundleDocumentRole.operator_notes slug = none

unfoldable pub parse_document_role : String → Option BundleDocumentRole
unfolding trim
parse_document_role role =
    let name = trim role in
    if name == "owner_setup"
    then some BundleDocumentRole.owner_setup
    else if name == "operator_notes"
    then some BundleDocumentRole.operator_notes
    else if name == "entry"
    then some BundleDocumentRole.entry
    else none

abbrev Classified : Type 0
Classified = List BundleSection × List UnresolvedBundleSection

module _ (document_id : String) (source_url : Url) where
  -- a named section in front of those that follow it
  unfoldable pub add_section :
      Option BundleSectionKind → String → SectionCandidate → Classified → Classified
  unfolding join
  add_section (some kind) slug section (resolved, unresolved) = (
    record {
      section_id = join "#" (document_id ∷ slug ∷ []);
      document_id = document_id;
      section_heading = section.heading;
      section_slug = slug;
      heading_level = section.heading_level;
      kind = kind;
      source_url = source_url;
      markdown = section.markdown;
    }
        ∷ resolved,
    unresolved,
  )
  add_section none slug section (resolved, unresolved) = (
    resolved,
    record {
      section_id = join "#" (document_id ∷ slug ∷ []);
      document_id = document_id;
      section_heading = section.heading;
      section_slug = slug;
      heading_level = section.heading_level;
      source_url = source_url;
      markdown = section.markdown;
    }
        ∷ unresolved,
  )

  unfoldable pub classify_from : BundleDocumentRole → Seen → List SectionCandidate → Classified
  unfolding unique_slug section_kind_for_role add_section
  classify_from role seen [] = ([], [])
  classify_from role seen (section ∷ rest) =
      let (slug, now_seen) = unique_slug section.slug seen in
      add_section (section_kind_for_role role section.slug) slug section
        (classify_from role now_seen rest)

unfoldable pub classify_sections :
    BundleDocumentRole → String → Url → List SectionCandidate → Classified
unfolding classify_from
classify_sections role document_id source_url sections =
    classify_from document_id source_url role [] sections
