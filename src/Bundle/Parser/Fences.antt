-- ===== src/Bundle/Parser/Fences.antt =====
-- `split_frontmatter` of daemon/crates/a2ex-skill-bundle/src/parser.rs. A panic is `none`.
pub mod RoundTrip
use Prim.Native.Char.{Char, code}
use Prim.Native.String.{String, [], ◌∷◌}
use mathlib.Core.Option
use a2ex.Base.{
  ℕ, zero, suc, ◌+◌, ◌-◌, List, Bool, true, false, ◌&&◌, Option, none, some, is_some, Result, ok,
  err, eqb, leb, ltb, if◌then◌else◌, ◌==◌,
}
use a2ex.Base.{[] as nil, ◌∷◌ as cons}
use a2ex.Base.Text.{join}
use a2ex.Base.Text.Split.{lines, strip_prefix}
use a2ex.Base.Text.Matches.{trim_start_matches}

abbrev pub starts_line : String → Bool
starts_line [] = false
starts_line (c ∷ s) = eqb (code c) 10

-- `replace("\r\n", "\n")`
unfoldable pub normalize_lines : String → String
normalize_lines [] = []
normalize_lines (c ∷ s) =
    let rest = normalize_lines s in if eqb (code c) 13 && starts_line s then rest else c ∷ rest

-- the bytes of a character in UTF-8, and of a text
abbrev pub utf8_len : Char → ℕ
utf8_len c =
    if ltb (code c) 0x80
    then 1
    else if ltb (code c) 0x800
    then 2
    else if ltb (code c) 0x10000
    then 3
    else 4

abbrev pub byte_len : String → ℕ
byte_len [] = 0
byte_len (c ∷ s) = utf8_len c + byte_len s

-- `&text[start..]`, which panics past the end and inside of a character
unfoldable pub slice_from : ℕ → String → Option String
slice_from zero s = some s
slice_from (suc n) [] = none
slice_from (suc n) (c ∷ s) =
    let rest = slice_from (suc n - utf8_len c) s in if leb (utf8_len c) (suc n) then rest else none

-- the loop over the lines: those in front of the closing fence, and where the body starts
unfoldable pub find_fence : ℕ → List String → Option (List String × ℕ)
find_fence offset nil = none
find_fence offset (cons line rest) =
    let next = offset + byte_len line + 1 in
    let found = find_fence next rest in
    if line == "---"
    then some (nil, next)
    else Option.map (λ (p : List String × ℕ). (cons line p.0, p.1)) found

abbrev pub without_first : List String → List String
without_first nil = nil
without_first (cons _ rest) = rest

-- the front matter, if there is one, and the body
abbrev pub Split : Type 0
Split = Result String (Option String × String)

unfoldable pub body_after : String → Option (List String × ℕ) → Option Split
unfolding slice_from trim_start_matches join
body_after normalized none =
    some (err "frontmatter fence is not closed with a terminating --- line")
body_after normalized (some (frontmatter, body_start)) =
    Option.map (λ body. ok (some (join "\n" frontmatter), trim_start_matches 10 body))
      (slice_from body_start normalized)

unfoldable pub split_frontmatter : String → Option Split
unfolding normalize_lines lines strip_prefix find_fence body_after
split_frontmatter markdown =
    let normalized = normalize_lines markdown in
    if is_some (strip_prefix "---\n" normalized)
    then body_after normalized (find_fence 4 (without_first (lines normalized)))
    else some (ok (none, normalized))
