-- ===== src/Bundle/Slugs.antt =====
-- `slugify` of daemon/crates/a2ex-skill-bundle/src/interpret.rs.
pub mod Shape
use Prim.Native.Char.{code}
use Prim.Native.String.{String, [], ◌∷◌}
use a2ex.Base.{ℕ, ◌+◌, List, Bool, true, false, not, ◌&&◌, ◌||◌, leb, eqb, if◌then◌else◌}
use a2ex.Base.{[] as nil, ◌∷◌ as cons, ◌++◌ as append}
use a2ex.Base.Text.{ascii}
use a2ex.Base.Text.Matches.{trim_matches}

-- `char::to_lowercase`. Of the characters beyond ASCII just the two that are named have ASCII in
-- their lower case (the Kelvin sign, and the dotted capital I); any other stays beyond ASCII, which
-- is all that `slugify` asks of it.
abbrev pub lower_codes : ℕ → List ℕ
lower_codes c =
    if leb b'A' c && leb c b'Z'
    then cons (c + 32) nil
    else if eqb c 0x212a
    then cons b'k' nil
    else if eqb c 0x130
    then cons b'i' (cons 0x307 nil)
    else cons c nil

-- `input.chars().flat_map(|c| c.to_lowercase())`
unfoldable pub lowered : String → List ℕ
lowered [] = nil
lowered (c ∷ s) = append (lower_codes (code c)) (lowered s)

-- `is_ascii_alphanumeric`
abbrev pub is_alphanumeric : ℕ → Bool
is_alphanumeric c =
    (leb b'0' c && leb c b'9') || (leb b'a' c && leb c b'z') || (leb b'A' c && leb c b'Z')

-- what one character adds in front of the rest of the slug
abbrev pub slug_step : Bool → Bool → ℕ → String → String
slug_step true previous_dash c rest = ascii c ∷ rest
slug_step false true c rest = rest
slug_step false false c rest = ascii b'-' ∷ rest

-- the loop; after a character that is not kept, the previous one was a dash
unfoldable pub slug_from : Bool → List ℕ → String
slug_from previous_dash nil = []
slug_from previous_dash (cons c cs) =
    slug_step (is_alphanumeric c) previous_dash c (slug_from (not (is_alphanumeric c)) cs)

unfoldable pub slugify : String → String
unfolding lowered slug_from trim_matches
slugify input = trim_matches b'-' (slug_from false (lowered input))
