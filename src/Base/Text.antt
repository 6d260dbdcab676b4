-- ===== src/Base/Text.antt =====
-- Rust's `str` methods that the source calls: `trim`, `to_ascii_lowercase`, `to_ascii_uppercase`,
-- and the decimal digits that `format!` writes for an unsigned integer.
pub mod Laws
pub mod Order
pub mod Split
pub mod Matches
use Prim.Native.Nat.{ℕ, zero, suc, ◌+◌, ◌-◌, ◌/◌, ◌%◌, compare, Ordering}
use Prim.Native.Char.{Char, char, code, IsScalar}
use Prim.Native.String.{String, [], ◌∷◌, ◌++◌}
use mathlib.Core.Path.{◌≡◌, refl, ap, ap₂, ◌∙◌}
use mathlib.Core.Bool.{Bool, true, false, ◌&&◌, ◌||◌}
use mathlib.Core.Logic.{inl, inr}
use mathlib.Core.List.{List}
use native.Mathlib.Omega.{arith}
use text.Mathlib.TextEquality.{Char-path}
use a2ex.Base.Tests.{leb, eqb, ltb, if◌then◌else◌, Bool-cases}

-- Unicode's White_Space, `char::is_whitespace`
is_whitespace : ℕ → Bool
is_whitespace c =
    (leb 9 c && leb c 13)
    || eqb c 32
    || eqb c 0x85
    || eqb c 0xa0
    || eqb c 0x1680
    || (leb 0x2000 c && leb c 0x200a)
    || eqb c 0x2028
    || eqb c 0x2029
    || eqb c 0x202f
    || eqb c 0x205f
    || eqb c 0x3000

trim_start : String → String
trim_start [] = []
trim_start (c ∷ s) = if is_whitespace (code c) then trim_start s else c ∷ s

-- `c` in front of a text whose end is trimmed
abbrev cons_trimmed : Char → String → String
cons_trimmed c [] = if is_whitespace (code c) then [] else c ∷ []
cons_trimmed c (d ∷ s) = c ∷ d ∷ s

trim_end : String → String
trim_end [] = []
trim_end (c ∷ s) = cons_trimmed c (trim_end s)

unfoldable pub trim : String → String
unfolding trim_start trim_end is_whitespace
trim s = trim_end (trim_start s)

pub ascii-IsScalar : (n : ℕ) → IsScalar (n % 128)
ascii-IsScalar n = let e : compare (n % 128) 55296 ≡ Ordering.lt = ground arith in rw e tt

-- the character of a code below 128
abbrev pub ascii : ℕ → Char
ascii n = char (n % 128) (ascii-IsScalar n)

lower_char : Char → Char
lower_char c = if leb b'A' (code c) && leb (code c) b'Z' then ascii (code c + 32) else c

upper_char : Char → Char
upper_char c = if leb b'a' (code c) && leb (code c) b'z' then ascii (code c - 32) else c

unfoldable pub to_ascii_lowercase : String → String
unfolding lower_char
to_ascii_lowercase [] = []
to_ascii_lowercase (c ∷ s) = lower_char c ∷ to_ascii_lowercase s

unfoldable pub to_ascii_uppercase : String → String
unfolding upper_char
to_ascii_uppercase [] = []
to_ascii_uppercase (c ∷ s) = upper_char c ∷ to_ascii_uppercase s

-- the digits of a number, most significant first; `fuel` bounds how many there are
unfoldable pub digits : ℕ → ℕ → String → String
digits zero n rest = rest
digits (suc fuel) n rest =
    let longer = digits fuel (n / 10) (ascii (48 + n % 10) ∷ rest) in
    if ltb n 10 then ascii (48 + n) ∷ rest else longer

-- `format!("{n}")`
unfoldable pub decimal : ℕ → String
unfolding digits
decimal n = digits (suc n) n []

-- `parts.join(separator)`
unfoldable pub join : String → List String → String
join separator List.[] = []
join separator (List.◌∷◌ part List.[]) = part
join separator (List.◌∷◌ part (List.◌∷◌ next parts)) =
    part ++ (separator ++ join separator (List.◌∷◌ next parts))
