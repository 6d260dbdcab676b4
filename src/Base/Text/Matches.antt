-- ===== src/Base/Text/Matches.antt =====
-- `str::trim_start_matches`, `trim_end_matches` and `trim_matches` for one character.
use Prim.Native.Nat.{ℕ}
use Prim.Native.Char.{Char, code}
use Prim.Native.String.{String, [], ◌∷◌}
use a2ex.Base.Tests.{eqb, if◌then◌else◌}

unfoldable pub trim_start_matches : ℕ → String → String
trim_start_matches z [] = []
trim_start_matches z (c ∷ s) = if eqb (code c) z then trim_start_matches z s else c ∷ s

-- `c` in front of a text whose end is trimmed
abbrev pub cons_trimmed_of : ℕ → Char → String → String
cons_trimmed_of z c [] = if eqb (code c) z then [] else c ∷ []
cons_trimmed_of z c (d ∷ s) = c ∷ d ∷ s

unfoldable pub trim_end_matches : ℕ → String → String
trim_end_matches z [] = []
trim_end_matches z (c ∷ s) = cons_trimmed_of z c (trim_end_matches z s)

unfoldable pub trim_matches : ℕ → String → String
unfolding trim_start_matches trim_end_matches
trim_matches z s = trim_end_matches z (trim_start_matches z s)
