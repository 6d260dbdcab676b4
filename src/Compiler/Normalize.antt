-- ===== src/Compiler/Normalize.antt =====
-- `normalize_token` and `normalize_venues`: trimmed, lower-case tokens; venues sorted and without
-- repetitions. Rust orders strings by their UTF-8 bytes, which is the order of code points.
use Prim.Native.Nat.{Ordering}
use Prim.Native.String.{compare}
use a2ex.Base.{String, Bool, true, false, List, [], ◌∷◌, map, is_empty, if◌then◌else◌, ◌==◌}
use a2ex.Base.Text.{trim, to_ascii_lowercase}

unfoldable pub normalize_token : String → String
unfolding trim to_ascii_lowercase
normalize_token value = to_ascii_lowercase (trim value)

-- `a <= b` on strings
abbrev pub str_le : String → String → Bool
str_le a b = elim (compare a b) [ Ordering.gt ↦ false | _ ↦ true ]

unfoldable pub insert_sorted : String → List String → List String
insert_sorted a [] = a ∷ []
insert_sorted a (b ∷ bs) = if str_le a b then a ∷ b ∷ bs else b ∷ insert_sorted a bs

-- `Vec<String>::sort`
unfoldable pub sort : List String → List String
unfolding insert_sorted
sort [] = []
sort (a ∷ rest) = insert_sorted a (sort rest)

-- `Vec::dedup`, where `a` is the item kept last
unfoldable pub dedup_after : String → List String → List String
dedup_after a [] = []
dedup_after a (b ∷ bs) =
    let skipped = dedup_after a bs in
    let kept = b ∷ dedup_after b bs in if a == b then skipped else kept

unfoldable pub dedup : List String → List String
unfolding dedup_after
dedup [] = []
dedup (a ∷ rest) = a ∷ dedup_after a rest

abbrev pub default_intent_venues : List String
default_intent_venues = "polymarket" ∷ "kalshi" ∷ "hyperliquid" ∷ "across" ∷ []

unfoldable pub normalize_venues : List String → List String
unfolding normalize_token sort dedup
normalize_venues venues =
    dedup (sort (if is_empty venues then default_intent_venues else map normalize_token venues))
