-- ===== src/Bundle/Sections.antt =====
-- The texts that daemon/crates/a2ex-skill-bundle/src/interpret.rs takes from a section.
use Prim.Native.String.{String}
use a2ex.Base.{
  List, [], ◌∷◌, ◌++◌, map, keep, Option, none, some, Bool, not, ◌&&◌, ◌==◌, if◌then◌else◌,
}
use a2ex.Base.Text.{trim, join}
use a2ex.Base.Text.Split.{lines, strip_prefix, contains_text}
use a2ex.Base.Text.Matches.{trim_matches, trim_end_matches}
use a2ex.Bundle.Slugs.{slugify}
use a2ex.Bundle.Model.{UnresolvedBundleSection}

unfoldable pub clean_bullet_text : String → String
unfolding trim trim_matches trim_end_matches
clean_bullet_text item = trim (trim_end_matches b'.' (trim_matches b'`' (trim item)))

-- the item of a line that is a bullet, after `-` or else after `*`
abbrev pub bullet_of : Option String → Option String → List String
bullet_of (some item) _ = clean_bullet_text item ∷ []
bullet_of none (some item) = clean_bullet_text item ∷ []
bullet_of none none = []

unfoldable pub bullets : List String → List String
unfolding trim strip_prefix clean_bullet_text
bullets [] = []
bullets (line ∷ rest) =
    let trimmed = trim line in
    bullet_of (strip_prefix "- " trimmed) (strip_prefix "* " trimmed) ++ bullets rest

abbrev pub is_filled : String → Bool
is_filled text = not (text == "")

unfoldable pub parse_bullet_items : String → List String
unfolding lines bullets
parse_bullet_items markdown = keep is_filled (bullets (lines markdown))

unfoldable pub clean_summary_text : String → String
unfolding lines trim join
clean_summary_text markdown = join " " (keep is_filled (map trim (lines markdown)))

unfoldable pub normalize_secret_name : String → String
unfolding trim trim_matches
normalize_secret_name value = trim_matches b'`' (trim value)

unfoldable pub derive_boundary_key : UnresolvedBundleSection → String
unfolding clean_summary_text contains_text slugify
derive_boundary_key section =
    let summary = clean_summary_text section.markdown in
    if contains_text "owner approval" summary && contains_text "venue interaction" summary
    then "owner-approval-before-venue-interaction"
    else slugify (join " " (section.section_heading ∷ summary ∷ []))

unfoldable pub derive_risk_key : UnresolvedBundleSection → String
unfolding clean_summary_text contains_text slugify
derive_risk_key section =
    let summary = clean_summary_text section.markdown in
    if contains_text "prices may move" summary && contains_text "approval" summary
    then "approval-window-price-movement"
    else slugify (join " " (section.section_heading ∷ summary ∷ []))
