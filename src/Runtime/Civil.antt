-- ===== src/Runtime/Civil.antt =====
-- `days_from_civil` and `civil_from_days`: dates of the Gregorian calendar and days since
-- 1970-01-01, in `i64`.
use a2ex.Base.{ℕ, ◌+◌, ◌*◌, ◌/◌, ◌-◌, leb, ltb, if◌then◌else◌}
use a2ex.Base.Int.{ℤ, pos, negsuc, pos_part, ◌+ℤ◌, ◌-ℤ◌, ◌*ℤ◌, leb_ℤ, quot, wrap}

-- the day of the year that begins in March. The month, an `u32`, is three or more where 3 is
-- taken off it, so that the natural numbers' subtraction is exact.
unfoldable day_of_year : ℕ → ℕ → ℤ
day_of_year month day =
    pos ((153 * (if ltb 2 month then month - 3 else month + 9) + 2) / 5) +ℤ pos day -ℤ pos 1

unfoldable pub days_from_civil : ℤ → ℕ → ℕ → ℤ
unfolding day_of_year ◌+ℤ◌ ◌-ℤ◌ ◌*ℤ◌ quot
days_from_civil year month day =
    let y = year -ℤ (if leb month 2 then pos 1 else pos 0) in
    let era = quot (if leb_ℤ (pos 0) y then y else y -ℤ pos 399) 400 in
    let yoe = y -ℤ era *ℤ 400 in
    let doe = yoe *ℤ 365 +ℤ quot yoe 4 -ℤ quot yoe 100 +ℤ day_of_year month day in
    era *ℤ 146097 +ℤ doe -ℤ pos 719468

-- the year of the era, for a day of the era
unfoldable year_of_era : ℤ → ℤ
unfolding ◌+ℤ◌ ◌-ℤ◌ quot
year_of_era doe = quot (doe -ℤ quot doe 1460 +ℤ quot doe 36524 -ℤ quot doe 146096) 365

-- `year as i32`
abbrev as_i32 : ℤ → ℤ
as_i32 = wrap 31

-- The month and the day are between 1 and 31, so that the casts to `u32` change nothing.
unfoldable pub civil_from_days : ℤ → ℤ × ℕ × ℕ
unfolding year_of_era ◌+ℤ◌ ◌-ℤ◌ ◌*ℤ◌ quot wrap
civil_from_days days =
    let z = days +ℤ pos 719468 in
    let era = quot (if leb_ℤ (pos 0) z then z else z -ℤ pos 146096) 146097 in
    let doe = z -ℤ era *ℤ 146097 in
    let yoe = year_of_era doe in
    let doy = doe -ℤ (yoe *ℤ 365 +ℤ quot yoe 4 -ℤ quot yoe 100) in
    let mp = quot (doy *ℤ 5 +ℤ pos 2) 153 in
    let day = doy -ℤ quot (mp *ℤ 153 +ℤ pos 2) 5 +ℤ pos 1 in
    let month = mp +ℤ (if leb_ℤ (pos 10) mp then negsuc 8 else pos 3) in
    let year = yoe +ℤ era *ℤ 400 +ℤ (if leb_ℤ month (pos 2) then pos 1 else pos 0) in
    (as_i32 year, pos_part month, pos_part day)
