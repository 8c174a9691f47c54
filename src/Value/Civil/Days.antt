-- ===== src/Value/Civil/Days.antt =====
-- The day numbers of temporal.go against the calendar.
use mini_graph_db.Prelude.{
  ℕ, zero, suc, ◌+◌, ◌*◌, ◌-◌, ◌/◌, ◌%◌, ◌^◌, ◌<◌, ◌≤◌, ◌≡◌, refl, arith, Bool, true, false, not,
  some, if◌then◌else◌, ltb, leb, ◌==◌, nat_eq, Bool-cases, inl, inr, ◌∙◌,
}
use mini_graph_db.Prelude.Int.{ℤ, pos, negsuc, inc, dec}
use mini_graph_db.Value.Civil.{
  minus, is_leap, days_in_month, valid_date, in_years, floor_div, past, from_era, day_of_year,
  in_int32, days_from_civil, date, next_date, date_of, is_valid,
}

-- Years counted from -10000 on.
abbrev pub shift : ℤ → ℕ
shift (pos y) = y + 10000
shift (negsuc y) = 9999 - y

abbrev pub IsNear : ℤ → Type 0
IsNear (pos y) = y < 10000
IsNear (negsuc y) = y < 10000

floor_div-negsuc : (y : ℕ) → floor_div (negsuc y) 400 ≡ negsuc (y / 400)
unfolding floor_div
floor_div-negsuc y = elim (Bool-cases (suc y % 400 == 0)) [
  | inl whole ↦
      let next : suc y / 400 ≡ suc (y / 400) = ground (arith, whole) in rw (whole, next) refl
  | inr part ↦ let same : suc y / 400 ≡ y / 400 = ground (arith, part) in rw (part, same) refl
]

past-floor_div : (y : ℤ) → IsNear y → past 400 y (floor_div y 400) ≡ shift y % 400
unfolding floor_div
past-floor_div (pos y) h = omega (arith, h)
past-floor_div (negsuc y) h = rw (floor_div-negsuc y) (omega (arith, h))

from_era-floor_div :
    (y : ℤ) (doe : ℕ)
    → IsNear y
    → from_era (floor_div y 400) doe ≡ minus (shift y / 400 * 146097 + doe) 4371893
unfolding floor_div minus
from_era-floor_div (pos y) doe h = ground (arith, h)
from_era-floor_div (negsuc y) doe h = rw (floor_div-negsuc y) (ground (arith, h))

pub is_leap-shift :
    (y : ℤ)
    → IsNear y
    → is_leap y ≡ (
        if not (shift y % 4 == 0)
        then false
        else if not (shift y % 100 == 0)
        then true
        else shift y % 400 == 0)
unfolding is_leap
is_leap-shift (pos y) h = ground (arith, h)
is_leap-shift (negsuc y) h = ground (arith, h)

-- The day of a date, counted from -10000-03-01 on.
abbrev pub day : ℕ → ℕ → ℕ → ℕ
day z m d =
    let w = if leb m 2 then z - 1 else z in
    w / 400 * 146097 + (w % 400 * 365 + w % 400 / 4 - w % 400 / 100 + day_of_year m d)

leap : ℕ → Bool
leap z = if not (z % 4 == 0) then false else if not (z % 100 == 0) then true else z % 400 == 0

-- One more year is 365 days more, or 366 where it ends a leap February.
day-year : (z : ℕ) → day (suc z) 3 1 ≡ day z 3 1 + (if leap (suc z) then 366 else 365)
unfolding leap
day-year z = ground arith

pub shift-year : (y : ℤ) → in_years y ≡ true → (1 ≤ shift y) × (shift y < 20000)
shift-year (pos y) h = (ground (arith, h), ground (arith, h))
shift-year (negsuc y) h = (ground (arith, h), ground (arith, h))

-- The year that starts in March.
pub IsNear-march :
    (y : ℤ) (m : ℕ)
    → in_years y ≡ true
    → IsNear (if leb m 2 then dec y else y)
      × (shift (if leb m 2 then dec y else y) ≡ (if leb m 2 then shift y - 1 else shift y))
unfolding dec
IsNear-march (pos zero) m h = elim (Bool-cases (leb m 2)) [
  | inl early ↦ rw early (omega arith, refl)
  | inr late ↦ rw late (omega arith, refl)
]
IsNear-march (pos (suc y)) m h = elim (Bool-cases (leb m 2)) [
  | inl early ↦ rw early (ground (arith, h), ground arith)
  | inr late ↦ rw late (ground (arith, h), refl)
]
IsNear-march (negsuc y) m h = elim (Bool-cases (leb m 2)) [
  | inl early ↦ rw early (ground (arith, h), ground (arith, h))
  | inr late ↦ rw late (ground (arith, h), refl)
]

pub record IsDate (y : ℤ) (m d : ℕ) : Type 0 where
  pub year : in_years y ≡ true
  pub low : 1 ≤ m
  pub high : m ≤ 12
  pub first : 1 ≤ d
  pub last : d ≤ days_in_month y m

pub valid_date-IsDate : (y : ℤ) (m d : ℕ) → valid_date y m d ≡ true → IsDate y m d
unfolding valid_date
valid_date-IsDate y m d h = record {
  year = ground (arith, h);
  low = ground (arith, h);
  high = ground (arith, h);
  first = ground (arith, h);
  last = ground (arith, h);
}

pub days_in_month-at_most : (y : ℤ) (m : ℕ) → days_in_month y m ≤ 31
unfolding days_in_month
days_in_month-at_most y m = ground arith

day-bound : (z m d : ℕ) → z < 20000 → m ≤ 12 → d ≤ 31 → day z m d < 2 ^ 31
day-bound z m d hz hm hd = elim (Bool-cases (leb m 2)) [
  | inl early ↦ rw early (ground (arith, hz, hm, hd))
  | inr late ↦ rw late (ground (arith, hz, hm, hd))
]

minus-in_int32 : (a : ℕ) → a < 2 ^ 31 → in_int32 (minus a 4371893) ≡ true
unfolding minus
minus-in_int32 a h = ground (arith, h)

days_from_civil-day :
    (y : ℤ) (m d : ℕ)
    → IsDate y m d
    → days_from_civil y m d ≡ some (minus (day (shift y) m d) 4371893)
unfolding days_from_civil
days_from_civil-day y m d v =
    let (near, same) = IsNear-march y m v.year in
    let fits = minus-in_int32 (day (shift y) m d) (
      day-bound (shift y) m d (shift-year y v.year).1 v.high
        (omega (arith, v.last, days_in_month-at_most y m))) in
    rw
      (
        past-floor_div (if leb m 2 then dec y else y) near,
        from_era-floor_div (if leb m 2 then dec y else y) _ near,
        same,
        fits,
      )
      refl

minus-inc : (a : ℕ) → minus (suc a) 4371893 ≡ inc (minus a 4371893)
unfolding minus inc
minus-inc a = elim (Bool-cases (ltb (suc a) 4371893)) [
  | inl under ↦
      let down : 4371893 - a - 1 ≡ suc (4371893 - suc a - 1) = ground (arith, under) in
      let still : ltb a 4371893 ≡ true = ground (arith, under) in rw (under, still, down) refl
  | inr over ↦ elim (Bool-cases (ltb a 4371893)) [
    | inl last ↦ let edge : a ≡ 4371892 = ground (arith, last, over) in rw edge refl
    | inr above ↦
        let up : suc a - 4371893 ≡ suc (a - 4371893) = ground (arith, above) in
        rw (over, above, up) refl
  ]
]

-- The last day of a month is the day before the first of the next.
month-end :
    (y : ℤ) (m : ℕ)
    → (m == 2) ≡ false
    → 1 ≤ m
    → m < 12
    → day_of_year (suc m) 1 ≡ suc (day_of_year m (days_in_month y m))
unfolding days_in_month
month-end y m other low high = ground (arith, other, low, high)

day-month :
    (y : ℤ) (m : ℕ)
    → IsNear y
    → 1 ≤ shift y
    → 1 ≤ m
    → m < 12
    → day (shift y) (suc m) 1 ≡ suc (day (shift y) m (days_in_month y m))
unfolding days_in_month
day-month y m near some_year low high = elim (Bool-cases (m == 2)) [
  | inl february ↦
      let two : m ≡ 2 = ground (arith, february) in
      rw (two, is_leap-shift y near) (ground (arith, some_year))
  | inr other ↦
      let same : leb (suc m) 2 ≡ leb m 2 = ground (arith, other, low) in
      rw (same, month-end y m other low high) (omega arith)
]

shift-inc : (y : ℤ) → IsNear y → shift (inc y) ≡ suc (shift y)
unfolding inc
shift-inc (pos y) h = omega arith
shift-inc (negsuc zero) h = refl
shift-inc (negsuc (suc y)) h = omega (arith, h)

pub IsNear-year : (y : ℤ) → in_years y ≡ true → IsNear y
IsNear-year (pos y) h = ground (arith, h)
IsNear-year (negsuc y) h = ground (arith, h)

day-next :
    (y : ℤ) (m d : ℕ)
    → IsDate y m d
    → day (shift (next_date y m d).0) (next_date y m d).1 (next_date y m d).2
      ≡ suc (day (shift y) m d)
unfolding next_date days_in_month
day-next y m d v =
    let near = IsNear-year y v.year in
    elim (Bool-cases (ltb d (days_in_month y m))) [
      | inl within ↦ rw within (omega (arith, v.first))
      | inr at_end ↦
          let last : days_in_month y m ≡ d = ground (arith, at_end, v.last) in
          elim (Bool-cases (ltb m 12)) [
            | inl goes_on ↦
                rw
                  (
                    at_end,
                    goes_on,
                    day-month y m near (shift-year y v.year).0 v.low (ground (arith, goes_on)),
                    last,
                  )
                  refl
            | inr december ↦
                let twelve : m ≡ 12 = ground (arith, december, v.high) in
                let final : 31 ≡ d = rw twelve at last in
                rw (at_end, december, shift-inc y near, twelve, ← final) (omega arith)
          ]
    ]

pub date-day :
    (y : ℤ) (m d : ℕ)
    → valid_date y m d ≡ true
    → date y m d ≡ some (minus (day (shift y) m d) 4371893)
unfolding date
date-day y m d v = rw (v, days_from_civil-day y m d (valid_date-IsDate y m d v)) refl

-- Every valid date has a day number, and the next calendar day, if it is still in range, has the next
-- number: no valid date is refused as out of range.
pub date-next_date :
    (y : ℤ) (m d : ℕ)
    → valid_date y m d ≡ true
    → is_valid (next_date y m d) ≡ true
    → (n : ℤ) × (date y m d ≡ some n) × (date_of (next_date y m d) ≡ some (inc n))
date-next_date y m d v w = (
  minus (day (shift y) m d) 4371893,
  date-day y m d v,
  date-day _ _ _ w
      ∙ rw (day-next y m d (valid_date-IsDate y m d v), minus-inc (day (shift y) m d)) refl,
)
