-- ===== src/Dates/Calendar.antt =====
-- The proleptic Gregorian calendar that `Date` keeps: web/src/lib/date.ts calls its constructor
-- with local fields, and `setDate`, both of which carry what is out of range.
use konku.Common.{
  ℕ, zero, suc, ◌+◌, ◌-◌, ◌/◌, ◌%◌, ◌≤◌, ◌≡◌, refl, Bool, ◌&&◌, ◌||◌, not, leb, ltb, ◌==◌,
  if◌then◌else◌, arith, Bool-cases, inl, inr,
}
use konku.Dates.{Day}

unfoldable pub is_leap : ℕ → Bool
is_leap y = y % 4 == 0 && not (y % 100 == 0) || y % 400 == 0

-- The days of a month, counted from 1.
unfoldable pub month_days : ℕ → ℕ → ℕ
unfolding is_leap
month_days y m =
    if m == 2
    then (if is_leap y then 29 else 28)
    else if m == 4 || m == 6 || (m == 9 || m == 11)
    then 30
    else 31

unfoldable pub next_month : ℕ → ℕ → ℕ × ℕ
next_month y m = if leb 12 m then (suc y, 1) else (y, suc m)

unfoldable pub last_month : ℕ → ℕ → ℕ × ℕ
last_month y m = if leb m 1 then (y - 1, 12) else (y, m - 1)

-- Days past the end of the month go to the months that follow. Two digits reach the fourth month
-- behind at most, so `fuel` is four.
unfoldable pub carry : ℕ → ℕ → ℕ → ℕ → Day
carry zero y m d = record { year = y; month = m; date = d }
carry (suc fuel) y m d =
    let later = carry fuel (next_month y m).0 (next_month y m).1 (d - month_days y m) in
    if leb d (month_days y m) then record { year = y; month = m; date = d } else later

-- Day 0 is the last day of the month before.
unfoldable pub from_month : ℕ → ℕ → ℕ → Day
from_month y m zero =
    let (y', m') = last_month y m in record { year = y'; month = m'; date = month_days y' m' }
from_month y m (suc d) = carry 4 y m (suc d)

-- `new Date(y, m - 1, d)`: a year below 100 means 19xx, and months carry too.
unfoldable pub make_date : ℕ → ℕ → ℕ → Day
make_date y m d =
    let full = if ltb y 100 then 1900 + y else y in
    if m == 0
    then from_month (full - 1) 12 d
    else from_month (full + (m - 1) / 12) ((m - 1) % 12 + 1) d

-- `yesterday.setDate(yesterday.getDate() - 1)`.
unfoldable pub day_before : Day → Day
day_before d = from_month d.year d.month (d.date - 1)

-- A day that the calendar has.
pub record IsDay (d : Day) : Type 0 where
  pub month_least : 1 ≤ d.month
  pub month_most : d.month ≤ 12
  pub date_least : 1 ≤ d.date
  pub date_most : d.date ≤ month_days d.year d.month

pub month_days_bounds : (y m : ℕ) → (28 ≤ month_days y m) × (month_days y m ≤ 31)
unfolding month_days
month_days_bounds y m = ground arith

carry_fits :
    (fuel y m d : ℕ)
    → d ≤ month_days y m
    → carry fuel y m d ≡ record { year = y; month = m; date = d }
unfolding carry
carry_fits zero y m d h = refl
carry_fits (suc fuel) y m d h = ground arith

from_month_fits :
    (y m d : ℕ)
    → 1 ≤ d
    → d ≤ month_days y m
    → from_month y m d ≡ record { year = y; month = m; date = d }
unfolding from_month
from_month_fits y m zero h k = absurd (omega arith)
from_month_fits y m (suc d) h k = carry_fits 4 y m (suc d) k

-- A day that the calendar has is made as it is given.
pub make_date_same : (d : Day) → IsDay d → 100 ≤ d.year → make_date d.year d.month d.date ≡ d
unfolding make_date
make_date_same d h old =
    let same_year : d.year + (d.month - 1) / 12 ≡ d.year =
      omega (arith, h.month_least, h.month_most) in
    let same_month : (d.month - 1) % 12 + 1 ≡ d.month =
      omega (arith, h.month_least, h.month_most) in
    ground
      (arith, same_year, same_month, from_month_fits d.year d.month d.date h.date_least h.date_most)

-- The day after.
unfoldable pub day_after : Day → Day
unfolding next_month
day_after d =
    if leb (month_days d.year d.month) d.date
    then record {
      year = (next_month d.year d.month).0;
      month = (next_month d.year d.month).1;
      date = 1;
    }
    else record d { date = suc d.date }

day_before_first :
    (d : Day)
    → d.date ≡ 1
    → day_before d ≡ (
        let (y, m) = last_month d.year d.month in
        record { year = y; month = m; date = month_days y m })
unfolding day_before from_month
day_before_first d e = let z : d.date - 1 ≡ 0 = omega arith in rw z

day_before_later : (d : Day) → IsDay d → 2 ≤ d.date → day_before d ≡ record d { date = d.date - 1 }
unfolding day_before
day_before_later d h k =
    from_month_fits d.year d.month (d.date - 1) (omega arith) (omega (arith, h.date_most))

-- "Yesterday" of a day of the calendar, from the year 1 on, is a day of the calendar, and the day
-- after it is the day itself, across the ends of months and of years.
pub day_after-day_before :
    (d : Day) → IsDay d → 1 ≤ d.year → IsDay (day_before d) × (day_after (day_before d) ≡ d)
unfolding day_after last_month
day_after-day_before d h old = elim (Bool-cases (leb d.date 1)) [
  | inl first ↦
      rw (day_before_first d (ground (arith, h.date_least)))
        (ground (arith, month_days_bounds (d.year - 1) 12, month_days_bounds d.year (d.month - 1)))
  | inr later ↦ rw (day_before_later d h (ground arith)) (ground (arith, h.date_most))
]
