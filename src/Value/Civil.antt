-- ===== src/Value/Civil.antt =====
-- internal/value/temporal.go: calendar dates as days from 1970-01-01 on. Months and days are natural
-- numbers: `validDate` refuses the negative ones.
pub mod Days
pub mod RoundTrip
use mini_graph_db.Prelude.{
  ℕ, zero, suc, ◌+◌, ◌*◌, ◌-◌, ◌/◌, ◌%◌, ◌^◌, ◌<◌, ◌≤◌, ◌≡◌, refl, arith, Bool, true, false, not,
  ◌&&◌, ◌||◌, Option, none, some, if◌then◌else◌, ltb, leb, ◌==◌, nat_eq,
}
use mini_graph_db.Prelude.Int.{ℤ, pos, negsuc, inc, dec, signed}

-- `a - b` of two naturals.
unfoldable pub minus : ℕ → ℕ → ℤ
minus a b = if ltb a b then negsuc (b - a - 1) else pos (a - b)

-- `y % n == 0`.
abbrev pub divides : ℕ → ℤ → Bool
divides n (pos y) = y % n == 0
divides n (negsuc y) = suc y % n == 0

unfoldable pub is_leap : ℤ → Bool
is_leap y = if not (divides 4 y) then false else if not (divides 100 y) then true else divides 400 y

unfoldable pub days_in_month : ℤ → ℕ → ℕ
days_in_month y m =
    if m == 1 || m == 3 || m == 5 || m == 7 || m == 8 || m == 10 || m == 12
    then 31
    else if m == 4 || m == 6 || m == 9 || m == 11
    then 30
    else if m == 2
    then (if is_leap y then 29 else 28)
    else 0

abbrev pub in_years : ℤ → Bool
in_years (pos y) = leb y 9999
in_years (negsuc y) = leb (suc y) 9999

unfoldable pub valid_date : ℤ → ℕ → ℕ → Bool
valid_date y m d =
    if ltb m 1 || ltb 12 m || ltb d 1 || not (in_years y) then false else leb d (days_in_month y m)

-- The quotient rounded down.
unfoldable pub floor_div : ℤ → ℕ → ℤ
floor_div (pos a) n = pos (a / n)
floor_div (negsuc a) n =
    if not (suc a % n == 0) then negsuc (suc a / n) else signed true (suc a / n)

-- `a - q * n`, where `q` is the floor of `a / n`.
abbrev pub past : ℕ → ℤ → ℤ → ℕ
past n (pos a) (pos q) = a - q * n
past n (negsuc a) (negsuc q) = suc q * n - suc a
past n _ _ = 0

-- `era * 146097 + doe - 719468`.
abbrev pub from_era : ℤ → ℕ → ℤ
from_era (pos era) doe = minus (era * 146097 + doe) 719468
from_era (negsuc era) doe = minus doe (suc era * 146097 + 719468)

abbrev pub day_of_year : ℕ → ℕ → ℕ
day_of_year m d = (if ltb 2 m then (153 * (m - 3) + 2) / 5 else (153 * (m + 9) + 2) / 5) + d - 1

abbrev pub in_int32 : ℤ → Bool
in_int32 (pos n) = ltb n (2 ^ 31)
in_int32 (negsuc n) = ltb n (2 ^ 31)

unfoldable pub days_from_civil : ℤ → ℕ → ℕ → Option ℤ
days_from_civil y m d =
    let yy = if leb m 2 then dec y else y in
    let era = floor_div yy 400 in
    let yoe = past 400 yy era in
    let doe = yoe * 365 + yoe / 4 - yoe / 100 + day_of_year m d in
    let days = from_era era doe in if not (in_int32 days) then none else some days

-- `Date`; `none` is its error.
unfoldable pub date : ℤ → ℕ → ℕ → Option ℤ
date y m d = if not (valid_date y m d) then none else days_from_civil y m d

unfoldable pub plus : ℤ → ℕ → ℤ
plus (pos a) n = pos (a + n)
plus (negsuc a) n = minus n (suc a)

-- `yoe + era * 400`.
abbrev pub from_years : ℤ → ℕ → ℤ
from_years (pos era) yoe = pos (era * 400 + yoe)
from_years (negsuc era) yoe = minus yoe (suc era * 400)

-- `yoe` of a day of the era.
abbrev pub year_of_day : ℕ → ℕ
year_of_day doe = (doe - doe / 1460 + doe / 36524 - doe / 146096) / 365

-- The month and day from the day of the year that starts in March.
abbrev pub month_of : ℕ → ℕ
month_of doy = let mp = (5 * doy + 2) / 153 in if ltb mp 10 then mp + 3 else mp - 9

abbrev pub day_of_month : ℕ → ℕ
day_of_month doy = let mp = (5 * doy + 2) / 153 in doy - (153 * mp + 2) / 5 + 1

unfoldable pub civil_from_days : ℤ → ℤ × ℕ × ℕ
civil_from_days z =
    let t = plus z 719468 in
    let era = floor_div t 146097 in
    let doe = past 146097 t era in
    let yoe = year_of_day doe in
    let y = from_years era yoe in
    let doy = doe - (365 * yoe + yoe / 4 - yoe / 100) in
    (if ltb ((5 * doy + 2) / 153) 10 then y else inc y, month_of doy, day_of_month doy)

-- The calendar that day numbers are held against: the day after a date.
unfoldable pub next_date : ℤ → ℕ → ℕ → ℤ × ℕ × ℕ
next_date y m d =
    if ltb d (days_in_month y m)
    then (y, m, suc d)
    else if ltb m 12
    then (y, suc m, 1)
    else (inc y, 1, 1)

abbrev pub date_of : ℤ × ℕ × ℕ → Option ℤ
date_of x = date x.0 x.1 x.2

abbrev pub is_valid : ℤ × ℕ × ℕ → Bool
is_valid x = valid_date x.0 x.1 x.2
