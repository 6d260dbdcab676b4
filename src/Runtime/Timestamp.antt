-- ===== src/Runtime/Timestamp.antt =====
-- The timestamps of the runtime, `2026-03-11T00:00:00Z`: parsing, formatting, and the tests built
-- on them. `str::parse` accepts a sign in front of the digits (no `-` for an unsigned type) and
-- refuses a number out of the type's range.
pub mod Digits
use Prim.Native.Char.{Char, code}
use Prim.Native.String.{String, [], ◌∷◌, ◌++◌, count}
use mathlib.Core.Option
use a2ex.Base.{
  ℕ, zero, suc, ◌+◌, ◌-◌, ◌*◌, ◌/◌, ◌%◌, ◌^◌, Bool, false, ◌&&◌, Option, none, some, leb, eqb,
  if◌then◌else◌,
}
use a2ex.Base.{[] as nil, ◌∷◌ as cons, List}
use a2ex.Base.Text.{decimal}
use a2ex.Base.Text.Split.{split}
use a2ex.Base.Int.{ℤ, pos, negsuc, sub_ℕ, ◌+ℤ◌, ◌-ℤ◌, ◌*ℤ◌, leb_ℤ, div_euclid, rem_euclid, wrap}
use a2ex.Runtime.Civil.{days_from_civil, civil_from_days}

infixl 5 ◌>>=◌
abbrev ◌>>=◌ {ℓ κ} : {A : Type ℓ} {B : Type κ} → Option A → (A → Option B) → Option B
none >>= f = none
some a >>= f = f a

-- `strip_suffix(c)`
unfoldable strip_suffix : Char → String → Option String
strip_suffix z [] = none
strip_suffix z (c ∷ []) = if eqb (code c) (code z) then some [] else none
strip_suffix z (c ∷ d ∷ s) = Option.map (λ rest. c ∷ rest) (strip_suffix z (d ∷ s))

-- `split_once(c)`
unfoldable split_once : Char → String → Option (String × String)
split_once z [] = none
split_once z (c ∷ s) =
    if eqb (code c) (code z)
    then some ([], s)
    else Option.map (λ p. (c ∷ p.0, p.1)) (split_once z s)

-- the number of a text that is all digits, after those that `acc` holds
unfoldable pub digits_from : ℕ → String → Option ℕ
digits_from acc [] = some acc
digits_from acc (c ∷ s) =
    if leb b'0' (code c) && leb (code c) b'9'
    then digits_from (acc * 10 + (code c - b'0')) s
    else none

unfoldable pub parse_digits : String → Option ℕ
unfolding digits_from
parse_digits [] = none
parse_digits (c ∷ s) = digits_from 0 (c ∷ s)

abbrev at_most : ℕ → ℕ → Option ℕ
at_most bound n = if leb n bound then some n else none

-- `parse::<u32>`
unfoldable parse_u32 : String → Option ℕ
unfolding parse_digits
parse_u32 [] = none
parse_u32 (c ∷ s) =
    Option.bind (if eqb (code c) b'+' then parse_digits s else parse_digits (c ∷ s))
      (at_most (2 ^ 32 - 1))

-- `parse::<i32>` for w = 31, `parse::<i64>` for w = 63
unfoldable parse_signed : ℕ → String → Option ℤ
unfolding parse_digits
parse_signed w [] = none
parse_signed w (c ∷ s) =
    if eqb (code c) b'-'
    then Option.map (sub_ℕ 0) (Option.bind (parse_digits s) (at_most (2 ^ w)))
    else Option.map pos (
        Option.bind (if eqb (code c) b'+' then parse_digits s else parse_digits (c ∷ s))
          (at_most (2 ^ w - 1)))

-- the first three parts of a split, `None` if there are fewer
abbrev three : List String → Option (String × String × String)
three (cons a (cons b (cons c _))) = some (a, b, c)
three _ = none

-- The sums and products of the source wrap to an `i64` in a release build; wrapping once at the
-- end gives the same number.
abbrev pub as_i64 : ℤ → ℤ
as_i64 = wrap 63

unfoldable epoch_of : ℤ → ℕ → ℕ → ℤ → ℤ → ℤ → ℤ
unfolding days_from_civil ◌+ℤ◌ ◌*ℤ◌ wrap
epoch_of year month day hour minute second =
    as_i64 (days_from_civil year month day *ℤ 86400 +ℤ hour *ℤ 3600 +ℤ minute *ℤ 60 +ℤ second)

unfoldable pub parse_rfc3339_utc : String → Option ℤ
unfolding strip_suffix split_once split parse_u32 parse_signed epoch_of
parse_rfc3339_utc timestamp = do
  stripped ← strip_suffix "Z" timestamp
  (date, time) ← split_once "T" stripped
  (year_text, month_text, day_text) ← three (split "-" date)
  year ← parse_signed 31 year_text
  month ← parse_u32 month_text
  day ← parse_u32 day_text
  (hour_text, minute_text, second_text) ← three (split ":" time)
  hour ← parse_signed 63 hour_text
  minute ← parse_signed 63 minute_text
  second ← parse_signed 63 second_text
  some (epoch_of year month day hour minute second)

zeros : ℕ → String
zeros zero = []
zeros (suc n) = "0" ∷ zeros n

-- `{:0w}` of a number that is not negative
unfoldable pad : ℕ → ℕ → String
unfolding decimal zeros
pad w n = let s = decimal n in zeros (w - count s) ++ s

-- `{:04}` counts the sign
unfoldable pad_year : ℤ → String
unfolding pad
pad_year (pos n) = pad 4 n
pad_year (negsuc n) = "-" ++ pad 3 (suc n)

unfoldable pub format_rfc3339_utc : ℤ → String
unfolding div_euclid rem_euclid civil_from_days pad pad_year
format_rfc3339_utc epoch =
    let days = div_euclid epoch 86400 in
    let seconds = rem_euclid epoch 86400 in
    let (year, month, day) = civil_from_days days in
    pad_year year
    ++ ("-"
        ++ (pad 2 month
            ++ ("-"
                ++ (pad 2 day
                    ++ ("T"
                        ++ (pad 2 (seconds / 3600)
                            ++ (":"
                                ++ (pad 2 (seconds % 3600 / 60)
                                    ++ (":" ++ (pad 2 (seconds % 60) ++ "Z"))))))))))

-- `timestamp` moved by `seconds`
unfoldable pub add_seconds : String → ℤ → Option String
unfolding parse_rfc3339_utc format_rfc3339_utc
add_seconds timestamp seconds =
    Option.map (λ epoch. format_rfc3339_utc (as_i64 (epoch +ℤ seconds)))
      (parse_rfc3339_utc timestamp)

-- `(0..=3600).contains(&(now - candidate))`
unfoldable within_hour : ℤ → ℤ → Bool
unfolding ◌-ℤ◌ wrap
within_hour candidate now =
    let age = as_i64 (now -ℤ candidate) in leb_ℤ (pos 0) age && leb_ℤ age (pos 3600)

unfoldable pub within_last_hour : String → String → Bool
unfolding parse_rfc3339_utc within_hour
within_last_hour candidate now = elim (parse_rfc3339_utc candidate) [
  | none ↦ false
  | some candidate_epoch ↦ elim (parse_rfc3339_utc now) [
    | none ↦ false
    | some now_epoch ↦ within_hour candidate_epoch now_epoch
  ]
]
