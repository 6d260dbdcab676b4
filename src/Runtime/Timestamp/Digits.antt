-- ===== src/Runtime/Timestamp/Digits.antt =====
-- The digits that `format!` writes are read back by `str::parse`.
use Prim.Native.Char.{Char}
use Prim.Native.String.{String, [], ◌∷◌}
use a2ex.Base.{
  ℕ, zero, suc, ◌+◌, ◌-◌, ◌*◌, ◌/◌, ◌%◌, ◌<◌, ◌≡◌, refl, ap, sym, ◌∙◌, true, ◌&&◌, some, arith, leb,
  ltb, if◌then◌else◌, Bool-cases, inl, inr,
}
use a2ex.Base.Text.{decimal, digits, ascii}
use a2ex.Runtime.Timestamp.{digits_from, parse_digits}

-- the number that the digits of `n` make of what was read before them
shifted : ℕ → ℕ → ℕ → ℕ
shifted zero n acc = acc
shifted (suc fuel) n acc =
    let longer = shifted fuel (n / 10) acc * 10 + n % 10 in
    if ltb n 10 then acc * 10 + n else longer

digits_from-digit :
    (acc d : ℕ) (rest : String)
    → d < 10
    → digits_from acc (ascii (48 + d) ∷ rest) ≡ digits_from (acc * 10 + d) rest
unfolding digits_from
digits_from-digit acc d rest h =
    let low : (48 + d) % 128 ≡ 48 + d = omega arith in
    let tests : (leb 48 (48 + d) && leb (48 + d) 57) ≡ true = ground arith in
    let same : acc * 10 + (48 + d - 48) ≡ acc * 10 + d = omega arith in rw (low, tests, same)

digits_from-digits :
    (fuel n acc : ℕ) (rest : String)
    → digits_from acc (digits fuel n rest) ≡ digits_from (shifted fuel n acc) rest
unfolding digits shifted
digits_from-digits zero n acc rest = refl
digits_from-digits (suc fuel) n acc rest = elim (Bool-cases (ltb n 10)) [
  | inl short ↦ rw short (digits_from-digit acc n rest (ground arith))
  | inr long ↦
      rw long
        (digits_from-digits fuel (n / 10) acc _ ∙ digits_from-digit _ (n % 10) rest (omega arith))
]

shifted-zero : (fuel n : ℕ) → n < fuel → shifted fuel n 0 ≡ n
unfolding shifted
shifted-zero zero n h = absurd (omega arith)
shifted-zero (suc fuel) n h = ground (arith, shifted-zero fuel (n / 10))

-- `parse_digits` differs from `digits_from 0` on the empty text only
parse_digits-digits :
    (fuel n : ℕ) (c : Char) (rest : String)
    → parse_digits (digits fuel n (c ∷ rest)) ≡ digits_from 0 (digits fuel n (c ∷ rest))
unfolding parse_digits digits
parse_digits-digits zero n c rest = refl
parse_digits-digits (suc fuel) n c rest = elim (Bool-cases (ltb n 10)) [
  | inl short ↦ rw short
  | inr long ↦ rw long (parse_digits-digits fuel (n / 10) _ (c ∷ rest))
]

parse_digits_of_decimal : (n : ℕ) → parse_digits (decimal n) ≡ digits_from 0 (decimal n)
unfolding decimal parse_digits
parse_digits_of_decimal n = elim (Bool-cases (ltb n 10)) [
  | inl short ↦ rw short
  | inr long ↦ rw long (parse_digits-digits n (n / 10) _ [])
]

parse_digits-decimal : (n : ℕ) → parse_digits (decimal n) ≡ some n
unfolding digits_from decimal
parse_digits-decimal n =
    parse_digits_of_decimal n
    ∙ digits_from-digits (suc n) n 0 []
    ∙ ap some (shifted-zero (suc n) n (omega arith))

-- Two numbers with the same digits are equal.
pub decimal-injective : (n m : ℕ) → decimal n ≡ decimal m → n ≡ m
decimal-injective n m h =
    let e : some n ≡ some m =
      sym (parse_digits-decimal n) ∙ ap parse_digits h ∙ parse_digits-decimal m in
    cc
