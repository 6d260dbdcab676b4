-- ===== src/Base/Text/Split.antt =====
-- `str::split`, `str::lines`, `str::strip_prefix` and `str::contains`.
use Prim.Native.Char.{Char, code}
use Prim.Native.String.{String, [], ◌∷◌}
use mathlib.Core.List.{List}
use mathlib.Core.List.{[] as nil, ◌∷◌ as cons}
use mathlib.Core.Bool.{Bool, true, false, ◌||◌}
use mathlib.Core.Option.{Option, none, some}
use a2ex.Base.Tests.{eqb, is_some, if◌then◌else◌}

-- one more character in front of the parts of a text: a separator, or one that is kept
abbrev pub split_step : Bool → Char → List String → List String
split_step true c parts = cons [] parts
split_step false c nil = cons (c ∷ []) nil
split_step false c (cons part parts) = cons (c ∷ part) parts

-- `split(c)`
unfoldable pub split : Char → String → List String
split z [] = cons [] nil
split z (c ∷ s) = split_step (eqb (code c) (code z)) c (split z s)

-- without the carriage return at its end
abbrev pub strip_return : String → String
strip_return [] = []
strip_return (c ∷ []) = if eqb (code c) 13 then [] else c ∷ []
strip_return (c ∷ d ∷ s) = c ∷ strip_return (d ∷ s)

-- the pieces as lines: the last one has no line feed, and is no line if it is empty
abbrev pub lines_of : List String → List String
lines_of nil = nil
lines_of (cons [] nil) = nil
lines_of (cons (c ∷ s) nil) = cons (c ∷ s) nil
lines_of (cons part parts) = cons (strip_return part) (lines_of parts)

-- `lines()`
unfoldable pub lines : String → List String
unfolding split
lines s = lines_of (split "\n" s)

-- `strip_prefix(p)`
unfoldable pub strip_prefix : String → String → Option String
strip_prefix [] s = some s
strip_prefix (p ∷ ps) [] = none
strip_prefix (p ∷ ps) (c ∷ s) = if eqb (code p) (code c) then strip_prefix ps s else none

-- `contains(p)`
unfoldable pub contains_text : String → String → Bool
unfolding strip_prefix
contains_text p [] = is_some (strip_prefix p [])
contains_text p (c ∷ s) = is_some (strip_prefix p (c ∷ s)) || contains_text p s
