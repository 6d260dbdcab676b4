-- ===== src/Bundle/Parser/Documents.antt =====
-- One document of a skill bundle, `parse_single_document` of
-- daemon/crates/a2ex-skill-bundle/src/parser.rs. A panic is `none`.
use mathlib.Core.Option
use a2ex.Base.{
  String, List, [], ◌∷◌, ◌++◌, is_empty, not, ◌||◌, Option, none, some, ◌==◌, if◌then◌else◌, Result,
  ok, ◌>>=◌, ◌>>◌, fail_if, or_fail, map_err,
}
use a2ex.Base.Text.{trim, join}
use a2ex.Bundle.Model.{
  BundleDocumentRole, BundleDiagnostic, BundleDiagnosticCode, BundleDocumentManifestEntry,
}
use a2ex.Bundle.Parser.Fences.{split_frontmatter}
use a2ex.Bundle.Parser.Headings.{SectionCandidate, split_sections}
use a2ex.Bundle.Parser.Sorting.{classify_sections, parse_document_role}
use a2ex.Bundle.Parser.Types.{
  BundleError, EntryDocumentFrontmatter, EntryDocumentMetadata, EntryFrontmatter,
  FetchedBundleDocument, ParsedDocument, Yaml, document_diagnostic, missing_metadata_diagnostic,
}

abbrev malformed : FetchedBundleDocument → String → BundleError
malformed fetched message =
    BundleError.diagnostics
      (document_diagnostic fetched BundleDiagnosticCode.malformed_frontmatter message ∷ [])

abbrev missing_metadata : FetchedBundleDocument → String → BundleError
missing_metadata fetched message =
    BundleError.diagnostics (missing_metadata_diagnostic fetched message ∷ [])

-- the diagnostic of a metadata field that is blank
abbrev check_field : FetchedBundleDocument → String → String → List BundleDiagnostic
check_field fetched field value =
    if trim value == ""
    then missing_metadata_diagnostic fetched
        (join "" ("entry document is missing required metadata field '" ∷ field ∷ "'" ∷ []))
      ∷ []
    else []

abbrev pub Listed : Type 0
Listed = List BundleDiagnostic × List BundleDocumentManifestEntry

abbrev pub add_entry : BundleDocumentManifestEntry → Listed → Result BundleError Listed
add_entry entry (issues, manifest) = ok (issues, entry ∷ manifest)

abbrev pub add_diagnostic : BundleDiagnostic → Listed → Result BundleError Listed
add_diagnostic issue (issues, manifest) = ok (issue ∷ issues, manifest)

-- the loop over the manifest: an item with a blank id or path is skipped with a diagnostic, one
-- with another role ends it
unfoldable pub list_documents :
    FetchedBundleDocument → List EntryDocumentFrontmatter → Result BundleError Listed
unfolding trim join parse_document_role
list_documents fetched [] = ok ([], [])
list_documents fetched (document ∷ rest) =
    let later = list_documents fetched rest in
    if (trim document.id == "") || (trim document.path == "")
    then later
      >>= add_diagnostic (
          missing_metadata_diagnostic fetched
            "entry document manifest items require non-empty id and path")
    else or_fail (parse_document_role document.role) (
        missing_metadata fetched
          (join "" ("entry manifest document '" ∷ document.id ∷ "' has an unsupported role" ∷ [])))
      >>= λ role.
          later
          >>= add_entry (record {
            document_id = document.id;
            role = role;
            relative_path = document.path;
            required = document.required;
            revision = document.revision;
          })

abbrev pub finish_metadata : EntryFrontmatter → Listed → Result BundleError EntryDocumentMetadata
finish_metadata metadata (issues, manifest) = do
  fail_if (not (is_empty issues)) (BundleError.diagnostics issues)
  ok (record {
    bundle_id = metadata.bundle_id;
    bundle_format = metadata.bundle_format;
    bundle_version = metadata.bundle_version;
    compatible_daemon = metadata.compatible_daemon;
    name = metadata.name;
    summary = metadata.summary;
    manifest = manifest;
  })

module _ (yaml : Yaml) where
  unfoldable pub parse_entry_frontmatter :
      FetchedBundleDocument → String → Result BundleError EntryDocumentMetadata
  unfolding list_documents join
  parse_entry_frontmatter fetched frontmatter = do
    metadata ←
        map_err
          (λ error.
            malformed fetched (join "" ("failed to parse entry frontmatter: " ∷ error ∷ [])))
          (yaml.entry frontmatter)
    (issues, manifest) ← list_documents fetched metadata.documents
    finish_metadata metadata (
      check_field fetched "bundle_id" metadata.bundle_id
          ++ check_field fetched "bundle_format" metadata.bundle_format
          ++ check_field fetched "bundle_version" metadata.bundle_version
          ++ issues,
      manifest,
    )

  -- the entry document's metadata on its own, of a document whose front matter is split off
  unfoldable pub inspect_split :
      FetchedBundleDocument
      → Result String (Option String × String)
      → Result BundleError EntryDocumentMetadata
  inspect_split fetched split = do
    (found, body) ← map_err (malformed fetched) split
    frontmatter ←
        or_fail found
          (missing_metadata fetched "bundle document is missing required YAML frontmatter")
    parse_entry_frontmatter fetched frontmatter

  unfoldable pub inspect_entry_document :
      FetchedBundleDocument → Option (Result BundleError EntryDocumentMetadata)
  unfolding split_frontmatter inspect_split
  inspect_entry_document fetched =
      Option.map (inspect_split fetched) (split_frontmatter fetched.body_markdown)

  unfoldable pub parse_entry_document :
      FetchedBundleDocument → String → List SectionCandidate → Result BundleError ParsedDocument
  unfolding classify_sections
  parse_entry_document fetched frontmatter sections = do
    metadata ← parse_entry_frontmatter fetched frontmatter
    let classified =
        classify_sections BundleDocumentRole.entry fetched.document_id fetched.source_url sections
    ok (record {
      document = record {
        document_id = fetched.document_id;
        role = BundleDocumentRole.entry;
        source_url = fetched.source_url;
        title = metadata.name;
        revision = some metadata.bundle_version;
        body_markdown = fetched.body_markdown;
        sections = classified.0;
      };
      unresolved_sections = classified.1;
      manifest = some metadata.manifest;
      bundle_id = some metadata.bundle_id;
      bundle_format = some metadata.bundle_format;
      bundle_version = some metadata.bundle_version;
      compatible_daemon = metadata.compatible_daemon;
      name = metadata.name;
      summary = metadata.summary;
    })

  unfoldable pub parse_supporting_document :
      FetchedBundleDocument → String → List SectionCandidate → Result BundleError ParsedDocument
  unfolding classify_sections parse_document_role join trim
  parse_supporting_document fetched frontmatter sections = do
    metadata ←
        map_err
          (λ error.
            malformed fetched
              (join "" ("failed to parse supporting document frontmatter: " ∷ error ∷ [])))
          (yaml.supporting frontmatter)
    role ← or_fail (parse_document_role metadata.document_role) (
        missing_metadata fetched (
          join ""
            ("supporting document '" ∷ metadata.document_id ∷ "' has an unsupported role" ∷ [])))
    fail_if ((trim metadata.document_id == "") || not (metadata.document_id == fetched.document_id))
        (missing_metadata fetched (
          join "" (
            "supporting document frontmatter document_id '" ∷ metadata.document_id
            ∷ "' does not match fetched id '" ∷ fetched.document_id ∷ "'" ∷ [])))
    let classified = classify_sections role fetched.document_id fetched.source_url sections
    ok (record {
      document = record {
        document_id = fetched.document_id;
        role = role;
        source_url = fetched.source_url;
        title = metadata.title;
        revision = metadata.revision;
        body_markdown = fetched.body_markdown;
        sections = classified.0;
      };
      unresolved_sections = classified.1;
      manifest = none;
      bundle_id = none;
      bundle_format = none;
      bundle_version = none;
      compatible_daemon = none;
      name = none;
      summary = none;
    })

  -- what is parsed of a document whose front matter is split off
  unfoldable pub parse_split :
      FetchedBundleDocument
      → Result String (Option String × String)
      → Result BundleError ParsedDocument
  unfolding parse_entry_document parse_supporting_document split_sections
  parse_split fetched split = do
    (found, body) ← map_err (malformed fetched) split
    frontmatter ←
        or_fail found
          (missing_metadata fetched "bundle document is missing required YAML frontmatter")
    let sections = split_sections body
    if fetched.document_id == "skill"
        then parse_entry_document fetched frontmatter sections
        else parse_supporting_document fetched frontmatter sections

  unfoldable pub parse_single_document :
      FetchedBundleDocument → Option (Result BundleError ParsedDocument)
  unfolding split_frontmatter parse_split
  parse_single_document fetched =
      Option.map (parse_split fetched) (split_frontmatter fetched.body_markdown)
