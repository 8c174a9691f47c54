-- ===== src/Value/Civil/RoundTrip.antt =====
-- internal/value/temporal.go: a date is read back from its day number.
use mini_graph_db.Prelude.{
  ℕ, zero, suc, ◌+◌, ◌*◌, ◌-◌, ◌/◌, ◌%◌, ◌<◌, ◌≤◌, ◌≡◌, refl, arith, Bool, true, false, not, ◌&&◌,
  ◌||◌, some, if◌then◌else◌, ltb, leb, ◌==◌, nat_eq, Bool-cases, inl, inr, ◌∙◌,
}
use mini_graph_db.Prelude.Int.{ℤ, pos, negsuc, inc, dec}
use mini_graph_db.Value.Civil.{
  minus, plus, days_in_month, valid_date, floor_div, past, from_years, day_of_year, year_of_day,
  month_of, day_of_month, date, civil_from_days,
}
use mini_graph_db.Value.Civil.Days.{
  shift, IsNear, day, IsDate, valid_date-IsDate, date-day, days_in_month-at_most, shift-year,
  is_leap-shift, IsNear-year, IsNear-march,
}

plus-minus : (a : ℕ) → plus (minus a 4371893) 719468 ≡ minus a 3652425
unfolding plus minus
plus-minus a = elim (Bool-cases (ltb a 4371893)) [
  | inl under ↦ rw under (ground (arith, under))
  | inr over ↦ rw over (ground (arith, over))
]

-- 400 years have 146097 days.
floor_div-negsuc_cycle : (y : ℕ) → floor_div (negsuc y) 146097 ≡ negsuc (y / 146097)
unfolding floor_div
floor_div-negsuc_cycle y = elim (Bool-cases (suc y % 146097 == 0)) [
  | inl whole ↦
      let next : suc y / 146097 ≡ suc (y / 146097) = ground (arith, whole) in rw (whole, next) refl
  | inr part ↦ let same : suc y / 146097 ≡ y / 146097 = ground (arith, part) in rw (part, same) refl
]

floor_div-minus :
    (q doe : ℕ) → doe < 146097 → floor_div (minus (q * 146097 + doe) 3652425) 146097 ≡ minus q 25
unfolding floor_div minus
floor_div-minus q doe h = elim (Bool-cases (ltb q 25)) [
  | inl under ↦
      let below : ltb (q * 146097 + doe) 3652425 ≡ true = ground (arith, under, h) in
      rw (under, below, floor_div-negsuc_cycle (3652425 - (q * 146097 + doe) - 1))
        (ground (arith, under, h))
  | inr over ↦ rw over (ground (arith, over, h))
]

past-minus :
    (q doe : ℕ) → doe < 146097 → past 146097 (minus (q * 146097 + doe) 3652425) (minus q 25) ≡ doe
unfolding minus
past-minus q doe h = elim (Bool-cases (ltb q 25)) [
  | inl under ↦ rw under (ground (arith, under, h))
  | inr over ↦ rw over (ground (arith, over, h))
]

from_years-minus :
    (q yoe : ℕ) → yoe < 400 → from_years (minus q 25) yoe ≡ minus (q * 400 + yoe) 10000
unfolding minus
from_years-minus q yoe h = elim (Bool-cases (ltb q 25)) [
  | inl under ↦ rw under (ground (arith, under, h))
  | inr over ↦ rw over (ground (arith, over, h))
]

minus-shift : (y : ℤ) → IsNear y → minus (shift y) 10000 ≡ y
unfolding minus
minus-shift (pos y) h = ground (arith, h)
minus-shift (negsuc y) h = ground (arith, h)

-- A year of the era has 366 days where it ends a leap February.
year_of_day-lem :
    (yoe doy : ℕ)
    → yoe < 400
    → doy < (
        if (suc yoe % 4 == 0) && (not (suc yoe % 100 == 0) || suc yoe % 400 == 0) then 366 else 365)
    → year_of_day (yoe * 365 + yoe / 4 - yoe / 100 + doy) ≡ yoe
year_of_day-lem yoe doy hy hd = ground (arith, hy, hd)

-- The month and day are found in the day of the year.
month_of-day_of_year :
    (m d : ℕ)
    → 1 ≤ m
    → m ≤ 12
    → 1 ≤ d
    → (y : ℤ) → d ≤ days_in_month y m
    → (month_of (day_of_year m d) ≡ m) × (day_of_month (day_of_year m d) ≡ d)
unfolding days_in_month
month_of-day_of_year m d low high first y last =
    (ground (arith, low, high, first, last), ground (arith, low, high, first, last))

-- January and February belong to the year before.
late-month :
    (m d : ℕ) → 1 ≤ m → m ≤ 12 → 1 ≤ d → d ≤ 31 → ltb ((5 * day_of_year m d + 2) / 153) 10 ≡ ltb 2 m
late-month m d low high first last = ground (arith, low, high, first, last)

civil_from_days-minus :
    (q yoe doy : ℕ)
    → yoe < 400
    → doy < (
        if (suc yoe % 4 == 0) && (not (suc yoe % 100 == 0) || suc yoe % 400 == 0) then 366 else 365)
    → civil_from_days (minus (q * 146097 + (yoe * 365 + yoe / 4 - yoe / 100 + doy)) 4371893) ≡ (
      if ltb ((5 * doy + 2) / 153) 10
          then minus (q * 400 + yoe) 10000
          else inc (minus (q * 400 + yoe) 10000),
      month_of doy,
      day_of_month doy,
    )
unfolding civil_from_days
civil_from_days-minus q yoe doy hy hd =
    let doe = yoe * 365 + yoe / 4 - yoe / 100 + doy in
    let within : doe < 146097 = ground (arith, hy, hd) in
    let rest : doe - (365 * yoe + yoe / 4 - yoe / 100) ≡ doy = omega arith in
    rw
      (
        plus-minus (q * 146097 + doe),
        floor_div-minus q doe within,
        past-minus q doe within,
        year_of_day-lem yoe doy hy hd,
        from_years-minus q yoe hy,
        rest,
      )
      refl

day_of_year-bound :
    (y : ℤ) (m d w : ℕ)
    → IsDate y m d
    → w ≡ (if leb m 2 then shift y - 1 else shift y)
    → day_of_year m d < (
        if (suc (w % 400) % 4 == 0) && (not (suc (w % 400) % 100 == 0) || suc (w % 400) % 400 == 0)
        then 366
        else 365)
unfolding days_in_month
day_of_year-bound y m d w v e = elim (Bool-cases (m == 2)) [
  | inl february ↦
      let two : m ≡ 2 = ground (arith, february) in
      let last = rw (two, is_leap-shift y (IsNear-year y v.year)) at v.last in
      rw two (ground (arith, last, rw two at e, (shift-year y v.year).0))
  | inr other ↦ ground (arith, other, v.low, v.high, v.first, v.last)
]

same_date :
    (x y : ℤ) (k m c d : ℕ) → x ≡ y → k ≡ m → c ≡ d → ◌≡◌ {A = ℤ × ℕ × ℕ} (x, k, c) (y, m, d)
same_date x y k m c d ex em ed = rw (ex, em, ed) refl

inc-dec : (y : ℤ) → inc (dec y) ≡ y
unfolding inc dec
inc-dec (pos zero) = refl
inc-dec (pos (suc n)) = refl
inc-dec (negsuc n) = refl

-- A valid date has a day number, and its year, month and day are read back from it.
pub civil_from_days-date :
    (y : ℤ) (m d : ℕ)
    → valid_date y m d ≡ true
    → (n : ℤ) × (date y m d ≡ some n) × (civil_from_days n ≡ (y, m, d))
civil_from_days-date y m d valid =
    let v = valid_date-IsDate y m d valid in
    let w = if leb m 2 then shift y - 1 else shift y in
    let at_most : d ≤ 31 = omega (arith, v.last, days_in_month-at_most y m) in
    let (near, same) = IsNear-march y m v.year in
    let months = month_of-day_of_year m d v.low v.high v.first y v.last in
    let year : minus (w / 400 * 400 + w % 400) 10000 ≡ (if leb m 2 then dec y else y) =
      rw (the_whole w, ← same) (minus-shift (if leb m 2 then dec y else y) near) in
    (
      minus (day (shift y) m d) 4371893,
      date-day y m d valid,
      civil_from_days-minus (w / 400) (w % 400) (day_of_year m d) (omega arith)
            (day_of_year-bound y m d w v refl)
          ∙ same_date _ y _ m _ d
              (rw (late-month m d v.low v.high v.first at_most, year) (back (leb m 2) refl))
              months.0 months.1,
    )
  where
    the_whole : (w : ℕ) → w / 400 * 400 + w % 400 ≡ w
    the_whole w = omega arith

    back :
        (early : Bool)
        → leb m 2 ≡ early
        → (if ltb 2 m then (if early then dec y else y) else inc (if early then dec y else y)) ≡ y
    back true early =
        let not_late : ltb 2 m ≡ false = ground (arith, early) in rw (not_late, inc-dec y) refl
    back false late = let is_late : ltb 2 m ≡ true = ground (arith, late) in rw is_late refl
