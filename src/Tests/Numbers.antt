-- ===== src/Tests/Numbers.antt =====
-- Hundredths, an instance of the operations on floating-point numbers.
use a2ex.Base.{ℕ, ◌*◌, ◌/◌, String, Option, ltb, leb}
use a2ex.Base.Text.{decimal}
use a2ex.Runtime.Platform.{Float}
use a2ex.Runtime.Timestamp.{parse_digits}
use mathlib.Core.Option

abbrev pub hundredths : Float
hundredths = record {
  F = ℕ;
  zero = 0;
  three_quarters = 75;
  ten_thousand = 1000000;
  mul = λ a b. a * b / 100;
  abs = λ a. a;
  lt = ltb;
  le = leb;
  to_u64 = λ a. a / 100;
  show = decimal;
}

-- whole numbers, as hundredths
abbrev pub parse_hundredths : String → Option ℕ
parse_hundredths s = Option.map (λ n. n * 100) (parse_digits s)
