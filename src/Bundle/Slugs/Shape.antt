-- ===== src/Bundle/Slugs/Shape.antt =====
-- What a slug looks like.
use Prim.Native.Char.{Char, code}
use Prim.Native.String.{String, [], ◌∷◌}
use a2ex.Base.{
  ℕ, ◌%◌, ◌≤◌, List, Bool, true, false, ◌&&◌, ◌≡◌, refl, ◌⊎◌, inl, inr, arith, leb, eqb, Bool-cases,
  All, All-append,
}
use a2ex.Base.{[] as nil, ◌∷◌ as cons}
use a2ex.Base.Text.Matches.{trim_start_matches, cons_trimmed_of, trim_end_matches, trim_matches}
use a2ex.Bundle.Slugs.{lower_codes, lowered, is_alphanumeric, slug_step, slug_from, slugify}

-- a digit or a small letter of ASCII
abbrev IsWordCode : ℕ → Type 0
IsWordCode c = ((b'0' ≤ c) × (c ≤ b'9')) ⊎ ((b'a' ≤ c) × (c ≤ b'z'))

-- Words with single dashes between them, where no dash may follow a dash; at the front of a slug
-- no dash may stand either.
abbrev IsWords : Bool → String → Type 0
IsWords after_dash [] = Unit
IsWords after_dash (c ∷ s) =
    (IsWordCode (code c) × IsWords false s)
    ⊎ ((code c ≡ b'-') × (after_dash ≡ false) × IsWords true s)

abbrev EndsInDash : String → Type 0
EndsInDash [] = ⊥
EndsInDash (c ∷ []) = code c ≡ b'-'
EndsInDash (c ∷ d ∷ s) = EndsInDash (d ∷ s)

-- Words of digits and small letters, with one dash between each two of them.
abbrev pub IsSlug : String → Type 0
IsSlug s = IsWords true s × (¬ EndsInDash s)

abbrev IsNotUpper : ℕ → Type 0
IsNotUpper c = (leb b'A' c && leb c b'Z') ≡ false

lower_codes-IsNotUpper : (c : ℕ) → All IsNotUpper (lower_codes c)
lower_codes-IsNotUpper c = elim (Bool-cases (leb b'A' c && leb c b'Z')) [
  | inl upper ↦ rw upper (ground arith, tt)
  | inr other ↦ elim (Bool-cases (eqb c 0x212a)) [
    | inl kelvin ↦ rw (other, kelvin) (refl, tt)
    | inr beyond ↦ elim (Bool-cases (eqb c 0x130)) [
      | inl dotted ↦ rw (other, beyond, dotted) (refl, (refl, tt))
      | inr rest ↦ rw (other, beyond, rest) (other, tt)
    ]
  ]
]

lowered-IsNotUpper : (s : String) → All IsNotUpper (lowered s)
unfolding lowered
lowered-IsNotUpper [] = tt
lowered-IsNotUpper (c ∷ s) =
    All-append IsNotUpper (lower_codes (code c)) (lowered s) (lower_codes-IsNotUpper (code c))
      (lowered-IsNotUpper s)

word_code : (c : ℕ) → IsNotUpper c → is_alphanumeric c ≡ true → IsWordCode (c % 128)
word_code c lower h = elim (Bool-cases (leb b'0' c && leb c b'9')) [
  | inl digit ↦
      let low : b'0' ≤ c = ground arith in
      let high : c ≤ b'9' = ground arith in inl (omega arith, omega arith)
  | inr other ↦
      let low : b'a' ≤ c = ground arith in
      let high : c ≤ b'z' = ground arith in inr (omega arith, omega arith)
]

dash_step :
    (previous_dash : Bool) (c : ℕ) (rest : String)
    → IsWords true rest
    → IsWords previous_dash (slug_step false previous_dash c rest)
dash_step true c rest h = h
dash_step false c rest h = inr (refl, refl, h)

slug_from-IsWords :
    (previous_dash : Bool) (cs : List ℕ)
    → All IsNotUpper cs
    → IsWords previous_dash (slug_from previous_dash cs)
unfolding slug_from
slug_from-IsWords previous_dash nil h = tt
slug_from-IsWords previous_dash (cons c cs) h = elim (Bool-cases (is_alphanumeric c)) [
  | inl kept ↦ rw kept (inl (word_code c h.0 kept, slug_from-IsWords false cs h.1))
  | inr dropped ↦ rw dropped (dash_step previous_dash c _ (slug_from-IsWords true cs h.1))
]

trim_start-IsWords :
    (b : Bool) (s : String) → IsWords b s → IsWords true (trim_start_matches b'-' s)
unfolding trim_start_matches
trim_start-IsWords b [] h = tt
trim_start-IsWords b (c ∷ s) (inl (word, rest)) =
    let kept : eqb (code c) b'-' ≡ false = ground arith in rw kept (inl (word, rest))
trim_start-IsWords b (c ∷ s) (inr (dash, _, rest)) =
    let dropped : eqb (code c) b'-' ≡ true = ground arith in
    rw dropped (trim_start-IsWords true s rest)

cons_trimmed-IsWords :
    (b : Bool) (c : Char) (s : String) → IsWords b (c ∷ s) → IsWords b (cons_trimmed_of b'-' c s)
cons_trimmed-IsWords b c [] h = elim (Bool-cases (eqb (code c) b'-')) [
  | inl dropped ↦ rw dropped tt
  | inr kept ↦ rw kept h
]
cons_trimmed-IsWords b c (d ∷ s) h = h

trim_end-IsWords : (b : Bool) (s : String) → IsWords b s → IsWords b (trim_end_matches b'-' s)
unfolding trim_end_matches
trim_end-IsWords b [] h = tt
trim_end-IsWords b (c ∷ s) (inl (word, rest)) =
    cons_trimmed-IsWords b c _ (inl (word, trim_end-IsWords false s rest))
trim_end-IsWords b (c ∷ s) (inr (dash, after, rest)) =
    cons_trimmed-IsWords b c _ (inr (dash, after, trim_end-IsWords true s rest))

cons_trimmed-end :
    (c : Char) (s : String) → ¬ EndsInDash s → ¬ EndsInDash (cons_trimmed_of b'-' c s)
cons_trimmed-end c [] h = elim (Bool-cases (eqb (code c) b'-')) [
  | inl dropped ↦ rw dropped (λ e. e)
  | inr kept ↦ rw kept (λ e. ground arith)
]
cons_trimmed-end c (d ∷ s) h = h

trim_end-end : (s : String) → ¬ EndsInDash (trim_end_matches b'-' s)
unfolding trim_end_matches
trim_end-end [] = λ e. e
trim_end-end (c ∷ s) = cons_trimmed-end c (trim_end_matches b'-' s) (trim_end-end s)

-- Whatever the text, its slug is words of digits and small letters of ASCII with one dash between
-- each two of them, and no dash at either end.
pub slugify-IsSlug : (input : String) → IsSlug (slugify input)
unfolding slugify trim_matches
slugify-IsSlug input = (
  trim_end-IsWords true _ (
      trim_start-IsWords false _
        (slug_from-IsWords false (lowered input) (lowered-IsNotUpper input))),
  trim_end-end (trim_start_matches b'-' (slug_from false (lowered input))),
)
