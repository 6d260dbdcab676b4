-- ===== src/Bundle/Parser/Headings.antt =====
-- `split_sections` and `parse_heading_line` of daemon/crates/a2ex-skill-bundle/src/parser.rs.
use Prim.Native.Char.{code}
use Prim.Native.String.{String}
use a2ex.Base.{
  ℕ, suc, List, [], ◌∷◌, ◌++◌, Bool, true, false, not, ◌&&◌, ◌||◌, Option, none, some, eqb, ltb,
  if◌then◌else◌, keep, ◌==◌,
}
use a2ex.Base.Text.{trim, join}
use a2ex.Base.Text.Split.{lines}
use a2ex.Bundle.Slugs.{slugify}
use a2ex.Bundle.Parser.Fences.{normalize_lines}

pub record SectionCandidate : Type 0 where
  pub heading : String
  pub slug : String
  pub heading_level : ℕ
  pub markdown : String

-- the hashes at the front of a line, and what follows them
abbrev hashes : String → ℕ × String
hashes String.[] = (0, String.[])
hashes (String.◌∷◌ c s) =
    let (level, rest) = hashes s in
    if eqb (code c) b'#' then (suc level, rest) else (0, String.◌∷◌ c s)

abbrev heading_of : ℕ → String → Option (ℕ × String)
heading_of level String.[] = none
heading_of level (String.◌∷◌ c s) =
    if eqb level 0 || ltb 6 level || not (eqb (code c) b' ') then none else some (level, trim s)

unfoldable pub parse_heading_line : String → Option (ℕ × String)
unfolding trim
parse_heading_line line = let (level, rest) = hashes line in heading_of level rest

-- the variables of the loop
pub record Current : Type 0 where
  pub heading : String
  pub slug : String
  pub level : ℕ
  pub body : List String
  pub seen_heading : Bool

abbrev body_text : Current → String
body_text current = trim (join "\n" current.body)

-- the section that ends here, if there is one
unfoldable pub close_section : Current → List SectionCandidate
unfolding trim join
close_section current =
    if current.seen_heading || not (body_text current == "")
    then record {
      heading = current.heading;
      slug = current.slug;
      heading_level = current.level;
      markdown = body_text current;
    }
      ∷ []
    else []

unfoldable pub sections_from : Current → List String → List SectionCandidate
unfolding parse_heading_line close_section slugify
sections_from current [] = close_section current
sections_from current (line ∷ rest) = elim (parse_heading_line line) [
  | some (level, heading) ↦
      close_section current
      ++ sections_from
          (record {
            heading = heading;
            slug = slugify heading;
            level = level;
            body = [];
            seen_heading = true;
          })
          rest
  | none ↦ sections_from (record current { body = current.body ++ line ∷ [] }) rest
]

abbrev is_section : SectionCandidate → Bool
is_section section = not (eqb section.heading_level 0 && (section.markdown == ""))

unfoldable pub split_sections : String → List SectionCandidate
unfolding normalize_lines lines sections_from
split_sections body = keep is_section (
    sections_from
      (record {
        heading = "Preamble";
        slug = "preamble";
        level = 0;
        body = [];
        seen_heading = false;
      })
      (lines (normalize_lines body)))
