-- ===== src/Tests/Parsing.antt =====
-- The theorems of the parser of skill bundles on two small documents.
use a2ex.Base.{String, List, [], ◌∷◌, none, some, is_some, true, ◌≡◌, refl, ok}
use a2ex.Base.Text.{join}
use a2ex.Base.Text.Matches.{trim_start_matches}
use a2ex.Bundle.Model.{BundleDocumentRole, BundleSectionKind}
use a2ex.Bundle.Parser.Fences.{split_frontmatter}
use a2ex.Bundle.Parser.Fences.RoundTrip.{
  HasNo, IsLine, written, split_frontmatter-roundtrip, split_frontmatter-panics,
}
use a2ex.Bundle.Parser.Headings.{parse_heading_line}
use a2ex.Bundle.Parser.Types.{FetchedBundleDocument, Yaml}
use a2ex.Bundle.Parser.Documents.{parse_entry_frontmatter}
use a2ex.Bundle.Parser.Assembly.{ParsedSkillBundle, parse_skill_bundle_documents}
use a2ex.Bundle.Parser.Assembly.Whole.{IsWhole, parse_skill_bundle_documents-IsWhole}
use a2ex.Bundle.Parser.Assembly.Panics.{parse_skill_bundle_documents-returns}

a_heading :
    parse_heading_line "## Owner Decisions "
      ∷ parse_heading_line "#tag"
      ∷ parse_heading_line "####### Deep"
      ∷ []
    ≡ some (2, "Owner Decisions") ∷ none ∷ none ∷ []
unfolding parse_heading_line
a_heading = refl

line : IsLine "a: b"
line = ((refl, (refl, (refl, (refl, tt)))), (refl, (refl, (refl, (refl, tt)))), refl)

blank : IsLine ""
blank = (tt, tt, refl)

body : HasNo 13 "\nEnd"
body = (refl, (refl, (refl, (refl, tt))))

split_frontmatter-roundtrip_example :
    split_frontmatter (written ("---" ∷ "a: b" ∷ "" ∷ []) (written ("---" ∷ []) "\nEnd"))
    ≡ some (ok (some (join "\n" ("a: b" ∷ "" ∷ [])), trim_start_matches 10 "\nEnd"))
split_frontmatter-roundtrip_example =
    split_frontmatter-roundtrip ("a: b" ∷ "" ∷ []) "\nEnd" (line, (blank, tt)) body

split_frontmatter-panics_example : split_frontmatter (written ("---" ∷ "a: b" ∷ []) "---") ≡ none
split_frontmatter-panics_example = split_frontmatter-panics ("a: b" ∷ []) (line, tt)

-- a reader that finds the values of the two documents in any front matter
abbrev yaml : Yaml
yaml = record {
  entry = λ text. ok (record {
    bundle_id = "official.demo";
    bundle_format = "a2ex.skill-bundle/v1alpha1";
    bundle_version = "1";
    compatible_daemon = none;
    name = some "Demo";
    summary = none;
    documents =
        record {
          id = "notes";
          role = "operator_notes";
          path = "docs/notes.md";
          required = true;
          revision = none;
        }
        ∷ [];
  });
  supporting = λ text. ok (record {
    document_id = "notes";
    document_role = "operator_notes";
    title = none;
    revision = none;
  });
}

abbrev skill_markdown : String
skill_markdown = "---\nid: x\n---\n# Overview\n\nTrade.\n"

abbrev notes_markdown : String
notes_markdown = "---\nid: n\n---\n# Limits\nNone.\n"

abbrev fetched_documents : List FetchedBundleDocument
fetched_documents =
    record { document_id = "notes"; source_url = "u/notes.md"; body_markdown = notes_markdown }
    ∷ record { document_id = "skill"; source_url = "u/skill.md"; body_markdown = skill_markdown }
    ∷ []

abbrev parsed_bundle : ParsedSkillBundle
parsed_bundle = record {
  bundle = record {
    bundle_id = "official.demo";
    bundle_format = "a2ex.skill-bundle/v1alpha1";
    bundle_version = "1";
    compatible_daemon = none;
    entry_document_id = "skill";
    name = some "Demo";
    summary = none;
    document_manifest =
        record {
          document_id = "notes";
          role = BundleDocumentRole.operator_notes;
          relative_path = "docs/notes.md";
          required = true;
          revision = none;
        }
        ∷ [];
    documents =
        record {
          document_id = "skill";
          role = BundleDocumentRole.entry;
          source_url = "u/skill.md";
          title = some "Demo";
          revision = some "1";
          body_markdown = skill_markdown;
          sections =
              record {
                section_id = "skill#overview";
                document_id = "skill";
                section_heading = "Overview";
                section_slug = "overview";
                heading_level = 1;
                kind = BundleSectionKind.overview;
                source_url = "u/skill.md";
                markdown = "Trade.";
              }
              ∷ [];
        }
        ∷ record {
          document_id = "notes";
          role = BundleDocumentRole.operator_notes;
          source_url = "u/notes.md";
          title = none;
          revision = none;
          body_markdown = notes_markdown;
          sections = [];
        }
        ∷ [];
    unresolved_sections =
        record {
          section_id = "notes#limits";
          document_id = "notes";
          section_heading = "Limits";
          section_slug = "limits";
          heading_level = 1;
          source_url = "u/notes.md";
          markdown = "None.";
        }
        ∷ [];
  };
  diagnostics = [];
}

bundle_parses : parse_skill_bundle_documents yaml fetched_documents ≡ some (ok parsed_bundle)
unfolding parse_skill_bundle_documents parse_entry_frontmatter
bundle_parses = refl

parse_skill_bundle_documents-IsWhole_example : IsWhole fetched_documents parsed_bundle
parse_skill_bundle_documents-IsWhole_example =
    parse_skill_bundle_documents-IsWhole yaml fetched_documents parsed_bundle bundle_parses

notes_split : is_some (split_frontmatter notes_markdown) ≡ true
unfolding split_frontmatter
notes_split = refl

skill_split : is_some (split_frontmatter skill_markdown) ≡ true
unfolding split_frontmatter
skill_split = refl

parse_skill_bundle_documents-returns_example :
    is_some (parse_skill_bundle_documents yaml fetched_documents) ≡ true
parse_skill_bundle_documents-returns_example =
    parse_skill_bundle_documents-returns yaml fetched_documents (notes_split, (skill_split, tt))
