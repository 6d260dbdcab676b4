-- ===== src/Base/Text/Laws.antt =====
-- Trimming and lower-casing a text a second time changes nothing, and their order is immaterial.
use Prim.Native.Nat.{ℕ, ◌+◌, ◌≤◌}
use Prim.Native.Char.{Char, char, code}
use Prim.Native.String.{String, [], ◌∷◌}
use mathlib.Core.Path.{◌≡◌, refl, ap, ap₂, ◌∙◌}
use mathlib.Core.Bool.{false}
use mathlib.Core.Logic.{inl, inr}
use native.Mathlib.Omega.{arith}
use text.Mathlib.TextEquality.{Char-path}
use a2ex.Base.Tests.{leb, if◌then◌else◌, Bool-cases}
use a2ex.Base.Text.{
  is_whitespace, trim_start, trim_end, cons_trimmed, trim, lower_char, to_ascii_lowercase,
}

letter_not_white : (n : ℕ) → b'A' ≤ n → n ≤ b'z' → is_whitespace n ≡ false
unfolding is_whitespace
letter_not_white n h k = ground arith

code-lower_char :
    (c : Char)
    → code (lower_char c)
      ≡ (if leb b'A' (code c) then (if leb (code c) b'Z' then code c + 32 else code c) else code c)
unfolding lower_char
code-lower_char (char n p) = elim (Bool-cases (leb b'A' n)) [
  | inl lower ↦ elim (Bool-cases (leb n b'Z')) [
    | inl upper ↦ rw (lower, upper) (ground arith)
    | inr above ↦ rw (lower, above)
  ]
  | inr below ↦ rw below
]

white-lower_char : (c : Char) → is_whitespace (code (lower_char c)) ≡ is_whitespace (code c)
white-lower_char c =
    rw code-lower_char (ground (arith, letter_not_white (code c), letter_not_white (code c + 32)))

lower_char_idem : (c : Char) → lower_char (lower_char c) ≡ lower_char c
lower_char_idem c =
    Char-path _ _ (ground (arith, code-lower_char (lower_char c), code-lower_char c))

pub to_ascii_lowercase_idem :
    (s : String) → to_ascii_lowercase (to_ascii_lowercase s) ≡ to_ascii_lowercase s
unfolding to_ascii_lowercase
to_ascii_lowercase_idem [] = refl
to_ascii_lowercase_idem (c ∷ s) = ap₂ ◌∷◌ (lower_char_idem c) (to_ascii_lowercase_idem s)

trim_start-lower :
    (s : String) → trim_start (to_ascii_lowercase s) ≡ to_ascii_lowercase (trim_start s)
unfolding trim_start to_ascii_lowercase
trim_start-lower [] = refl
trim_start-lower (c ∷ s) = rw white-lower_char (elim (Bool-cases (is_whitespace (code c))) [
  | inl white ↦ rw white (trim_start-lower s)
  | inr ink ↦ rw ink
])

cons_trimmed-lower :
    (c : Char) (s : String)
    → cons_trimmed (lower_char c) (to_ascii_lowercase s) ≡ to_ascii_lowercase (cons_trimmed c s)
unfolding to_ascii_lowercase
cons_trimmed-lower c [] =
    rw white-lower_char
      (elim (Bool-cases (is_whitespace (code c))) [ inl white ↦ rw white | inr ink ↦ rw ink ])
cons_trimmed-lower c (d ∷ s) = refl

trim_end-lower : (s : String) → trim_end (to_ascii_lowercase s) ≡ to_ascii_lowercase (trim_end s)
unfolding trim_end to_ascii_lowercase
trim_end-lower [] = refl
trim_end-lower (c ∷ s) =
    ap (cons_trimmed (lower_char c)) (trim_end-lower s) ∙ cons_trimmed-lower c (trim_end s)

pub trim-lower : (s : String) → trim (to_ascii_lowercase s) ≡ to_ascii_lowercase (trim s)
unfolding trim
trim-lower s = ap trim_end (trim_start-lower s) ∙ trim_end-lower (trim_start s)

-- the text does not begin with white space
abbrev BeginsInk : String → Type 0
BeginsInk [] = Unit
BeginsInk (c ∷ s) = is_whitespace (code c) ≡ false

trim_start-BeginsInk : (s : String) → BeginsInk (trim_start s)
unfolding trim_start
trim_start-BeginsInk [] = tt
trim_start-BeginsInk (c ∷ s) = elim (Bool-cases (is_whitespace (code c))) [
  | inl white ↦ rw white (trim_start-BeginsInk s)
  | inr ink ↦ rw ink ink
]

cons_trimmed-BeginsInk :
    (c : Char) (s : String) → is_whitespace (code c) ≡ false → BeginsInk (cons_trimmed c s)
cons_trimmed-BeginsInk c [] h = rw h h
cons_trimmed-BeginsInk c (d ∷ s) h = h

trim_end-BeginsInk : (s : String) → BeginsInk s → BeginsInk (trim_end s)
unfolding trim_end
trim_end-BeginsInk [] h = tt
trim_end-BeginsInk (c ∷ s) h = cons_trimmed-BeginsInk c (trim_end s) h

trim_start_of_BeginsInk : (s : String) → BeginsInk s → trim_start s ≡ s
unfolding trim_start
trim_start_of_BeginsInk [] h = refl
trim_start_of_BeginsInk (c ∷ s) h = rw h

trim_end-cons_trimmed :
    (c : Char) (s : String) → trim_end s ≡ s → trim_end (cons_trimmed c s) ≡ cons_trimmed c s
unfolding trim_end
trim_end-cons_trimmed c [] h = elim (Bool-cases (is_whitespace (code c))) [
  | inl white ↦ rw white
  | inr ink ↦ rw (ink, ink)
]
trim_end-cons_trimmed c (d ∷ s) h = ap (cons_trimmed c) h

trim_end_idem : (s : String) → trim_end (trim_end s) ≡ trim_end s
unfolding trim_end
trim_end_idem [] = refl
trim_end_idem (c ∷ s) = trim_end-cons_trimmed c (trim_end s) (trim_end_idem s)

pub trim_idem : (s : String) → trim (trim s) ≡ trim s
unfolding trim
trim_idem s =
    ap trim_end (
      trim_start_of_BeginsInk (trim_end (trim_start s))
        (trim_end-BeginsInk (trim_start s) (trim_start-BeginsInk s)))
    ∙ trim_end_idem (trim_start s)
