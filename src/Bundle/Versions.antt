-- ===== src/Bundle/Versions.antt =====
-- The daemon requirements of a bundle: `requirement_matches_current_daemon` of
-- daemon/crates/a2ex-skill-bundle/src/lifecycle.rs and its parsers.
use Prim.Native.Nat.{compare, Ordering}
use Prim.Native.Char.{code}
use Prim.Native.String.{String}
use mathlib.Core.Option
use a2ex.Base.{
  ℕ, zero, suc, ◌+◌, ◌^◌, max, List, [], ◌∷◌, Option, none, some, get_or, get_elem?, length, Bool,
  true, false, not, ◌&&◌, ◌||◌, ◌==◌, eqb, ltb, if◌then◌else◌, map, keep,
}
use a2ex.Base.Text.{trim}
use a2ex.Base.Text.Split.{split, strip_prefix}
use a2ex.Runtime.Timestamp.{parse_digits}

-- `split(['-', '+']).next()`: the text in front of the first of them
abbrev pub before_suffix : String → String
before_suffix String.[] = String.[]
before_suffix (String.◌∷◌ c s) =
    if eqb (code c) b'-' || eqb (code c) b'+' then String.[] else String.◌∷◌ c (before_suffix s)

-- `parse::<u64>()`, on a text without a sign, since `before_suffix` leaves none
unfoldable pub parse_u64 : String → Option ℕ
unfolding parse_digits
parse_u64 s = Option.bind (parse_digits s) (λ n. if ltb n (2 ^ 64) then some n else none)

-- the parts up to the first that is not a number, which fails
unfoldable pub parse_parts : List String → Option (List ℕ)
unfolding parse_u64
parse_parts [] = some []
parse_parts (part ∷ parts) =
    Option.bind (parse_u64 part) (λ n. Option.map (λ ns. n ∷ ns) (parse_parts parts))

unfoldable pub parse_version : String → Option (List ℕ)
unfolding trim split parse_parts
parse_version input =
    let core = trim (before_suffix (trim input)) in
    if core == "" then none else parse_parts (split "." core)

-- the requirement_operators, in the order in which they are tried
abbrev pub requirement_operators : List String
requirement_operators = ">=" ∷ "<=" ∷ ">" ∷ "<" ∷ "=" ∷ []

-- the first operator that the text starts with, and the text behind it
unfoldable pub find_operator : List String → String → Option (String × String)
unfolding strip_prefix
find_operator [] input = none
find_operator (operator ∷ later) input = elim (strip_prefix operator input) [
  | none ↦ find_operator later input
  | some rest ↦ some (operator, rest)
]

unfoldable pub parse_requirement_clause : String → Option (String × List ℕ)
unfolding find_operator parse_version
parse_requirement_clause input = elim (find_operator requirement_operators input) [
  | none ↦ Option.map (λ version. ("=", version)) (parse_version input)
  | some (operator, rest) ↦ Option.map (λ version. (operator, version)) (parse_version (trim rest))
]

-- the loop from `index` on, with the indices that are left
unfoldable pub compare_from : ℕ → ℕ → List ℕ → List ℕ → Ordering
compare_from zero index left right = Ordering.eq
compare_from (suc rounds) index left right =
    elim (compare (get_or (get_elem? left index) 0) (get_or (get_elem? right index) 0)) [
      | Ordering.eq ↦ compare_from rounds (index + 1) left right
      | Ordering.lt ↦ Ordering.lt
      | Ordering.gt ↦ Ordering.gt
    ]

unfoldable pub compare_version_parts : List ℕ → List ℕ → Ordering
unfolding compare_from
compare_version_parts left right = compare_from (max (length left) (length right)) 0 left right

abbrev is_lt : Ordering → Bool
is_lt Ordering.lt = true
is_lt _ = false

abbrev is_gt : Ordering → Bool
is_gt Ordering.gt = true
is_gt _ = false

abbrev is_eq : Ordering → Bool
is_eq Ordering.eq = true
is_eq _ = false

unfoldable pub compare_versions : List ℕ → String → List ℕ → Bool
unfolding compare_version_parts
compare_versions current operator required =
    let ordering = compare_version_parts current required in
    if operator == ">="
    then is_gt ordering || is_eq ordering
    else if operator == ">"
    then is_gt ordering
    else if operator == "<="
    then is_lt ordering || is_eq ordering
    else if operator == "<"
    then is_lt ordering
    else if operator == "="
    then is_eq ordering
    else false

-- whether the version meets one clause of a requirement
unfoldable pub clause_matches : List ℕ → String → Bool
unfolding parse_requirement_clause compare_versions
clause_matches current_version part = elim (parse_requirement_clause part) [
  | none ↦ false
  | some (operator, required_version) ↦ compare_versions current_version operator required_version
]

abbrev pub all : (String → Bool) → List String → Bool
all p [] = true
all p (x ∷ xs) = p x && all p xs

-- `requirement_matches_current_daemon`, for the version that the daemon was built as
unfoldable pub requirement_matches : String → String → Bool
unfolding parse_version clause_matches split trim
requirement_matches daemon_version requirement = elim (parse_version daemon_version) [
  | none ↦ false
  | some current_version ↦
      all (clause_matches current_version)
        (keep (λ part. not (part == "")) (map trim (split "," requirement)))
]
