-- ===== src/Dates/RoundTrip.antt =====
-- What is written is what is read back: stored dates and the timer face.
use konku.Common.{
  ℕ, zero, suc, ◌+◌, ◌*◌, ◌/◌, ◌%◌, ◌≤◌, ◌<◌, ◌≡◌, refl, ◌∙◌, Text, [], ◌∷◌, ◌++◌, some, true,
  arith,
}
use konku.Common.Digits.{digits_from, to_digits, from_digits}
use konku.Dates.{Day, pad2, format, clock, is_digit, parse_ymd}
use konku.Dates.Calendar.{IsDay, month_days_bounds}

digits_of_one :
    (fuel n : ℕ) (rest : Text) → n < 10 → digits_from 10 (suc fuel) n rest ≡ (b'0' + n) ∷ rest
unfolding digits_from
digits_of_one fuel n rest h = ground arith

digits_of_more :
    (fuel n : ℕ) (rest : Text)
    → 10 ≤ n
    → digits_from 10 (suc fuel) n rest ≡ digits_from 10 fuel (n / 10) ((b'0' + n % 10) ∷ rest)
unfolding digits_from
digits_of_more fuel n rest h = ground arith

pub pad2_lem : (n : ℕ) → n < 100 → pad2 n ≡ (b'0' + n / 10) ∷ (b'0' + n % 10) ∷ []
unfolding pad2 to_digits
pad2_lem zero h = refl
pad2_lem (suc n) h = ground (
  arith,
  digits_of_one (suc n) (suc n) [],
  digits_of_more (suc n) (suc n) [],
  digits_of_one n (suc n / 10) ((b'0' + suc n % 10) ∷ []),
)

year_digits_at :
    (fuel y : ℕ)
    → 1000 ≤ y
    → y < 10000
    → digits_from 10 (suc (suc (suc (suc fuel)))) y []
      ≡ (b'0' + y / 1000) ∷ (b'0' + y / 100 % 10) ∷ (b'0' + y / 10 % 10) ∷ (b'0' + y % 10) ∷ []
year_digits_at fuel y lo hi =
    digits_of_more (suc (suc (suc fuel))) y [] (omega arith)
    ∙ digits_of_more (suc (suc fuel)) (y / 10) _ (omega arith)
    ∙ digits_of_more (suc fuel) (y / 10 / 10) _ (omega arith)
    ∙ digits_of_one fuel (y / 10 / 10 / 10) _ (omega arith)
    ∙ (let e : y / 10 / 10 / 10 ≡ y / 1000 = omega arith in
        let f : y / 10 / 10 ≡ y / 100 = omega arith in rw (e, f))

year_digits :
    (y : ℕ)
    → 1000 ≤ y
    → y < 10000
    → to_digits 10 y
      ≡ (b'0' + y / 1000) ∷ (b'0' + y / 100 % 10) ∷ (b'0' + y / 10 % 10) ∷ (b'0' + y % 10) ∷ []
unfolding to_digits
year_digits (suc (suc (suc y))) lo hi = year_digits_at y (suc (suc (suc y))) lo hi
year_digits zero lo hi = absurd (omega arith)
year_digits (suc zero) lo hi = absurd (omega arith)
year_digits (suc (suc zero)) lo hi = absurd (omega arith)

is_digit_lem : (k : ℕ) → k < 10 → is_digit (b'0' + k) ≡ true
unfolding is_digit
is_digit_lem k h = ground arith

four_digits :
    (a b c d : ℕ)
    → a < 10
    → b < 10
    → c < 10
    → d < 10
    → from_digits 10 0 ((b'0' + a) ∷ (b'0' + b) ∷ (b'0' + c) ∷ (b'0' + d) ∷ [])
      ≡ a * 1000 + b * 100 + c * 10 + d
unfolding from_digits
four_digits a b c d ha hb hc hd = ground arith

two_digits :
    (a b : ℕ) → a < 10 → b < 10 → from_digits 10 0 ((b'0' + a) ∷ (b'0' + b) ∷ []) ≡ a * 10 + b
unfolding from_digits
two_digits a b ha hb = ground arith

parse_ymd_parts :
    (a b c d e f g h : ℕ)
    → is_digit a ≡ true
    → is_digit b ≡ true
    → is_digit c ≡ true
    → is_digit d ≡ true
    → is_digit e ≡ true
    → is_digit f ≡ true
    → is_digit g ≡ true
    → is_digit h ≡ true
    → parse_ymd (a ∷ b ∷ c ∷ d ∷ b'-' ∷ e ∷ f ∷ b'-' ∷ g ∷ h ∷ [])
      ≡ some (
        from_digits 10 0 (a ∷ b ∷ c ∷ d ∷ []),
        from_digits 10 0 (e ∷ f ∷ []),
        from_digits 10 0 (g ∷ h ∷ []),
      )
unfolding parse_ymd
parse_ymd_parts a b c d e f g h ta tb tc td te tf tg th = rw (ta, tb, tc, td, te, tf, tg, th)

two_parts : (n : ℕ) → n < 100 → from_digits 10 0 ((b'0' + n / 10) ∷ (b'0' + n % 10) ∷ []) ≡ n
two_parts n h = two_digits (n / 10) (n % 10) (omega arith) (omega arith) ∙ omega arith

four_parts :
    (y : ℕ)
    → y < 10000
    → from_digits 10 0
        ((b'0' + y / 1000) ∷ (b'0' + y / 100 % 10) ∷ (b'0' + y / 10 % 10) ∷ (b'0' + y % 10) ∷ [])
      ≡ y
four_parts y h =
    four_digits (y / 1000) (y / 100 % 10) (y / 10 % 10) (y % 10) (omega arith) (omega arith)
      (omega arith) (omega arith)
    ∙ omega arith

parse_ymd_digits :
    (y m d : ℕ)
    → y < 10000
    → m < 100
    → d < 100
    → parse_ymd (
        (b'0' + y / 1000)
        ∷ (b'0' + y / 100 % 10)
        ∷ (b'0' + y / 10 % 10)
        ∷ (b'0' + y % 10)
        ∷ b'-'
        ∷ (b'0' + m / 10)
        ∷ (b'0' + m % 10)
        ∷ b'-'
        ∷ (b'0' + d / 10)
        ∷ (b'0' + d % 10)
        ∷ [])
      ≡ some (y, m, d)
parse_ymd_digits y m d hy hm hd =
    parse_ymd_parts _ _ _ _ _ _ _ _ (is_digit_lem (y / 1000) (omega arith))
      (is_digit_lem (y / 100 % 10) (omega arith)) (is_digit_lem (y / 10 % 10) (omega arith))
      (is_digit_lem (y % 10) (omega arith)) (is_digit_lem (m / 10) (omega arith))
      (is_digit_lem (m % 10) (omega arith)) (is_digit_lem (d / 10) (omega arith))
      (is_digit_lem (d % 10) (omega arith))
    ∙ rw (four_parts y hy, two_parts m hm, two_parts d hd)

-- A date of the calendar, of a four-digit year, is written so that the pattern reads its three
-- numbers back.
pub parse_ymd-format :
    (d : Day)
    → IsDay d
    → 1000 ≤ d.year
    → d.year < 10000
    → parse_ymd (format d) ≡ some (d.year, d.month, d.date)
unfolding format
parse_ymd-format d h lo hi =
    let month : d.month < 100 = omega (arith, h.month_most) in
    let date : d.date < 100 = omega (arith, h.date_most, month_days_bounds d.year d.month) in
    rw (year_digits d.year lo hi, pad2_lem d.month month, pad2_lem d.date date)
      (parse_ymd_digits d.year d.month d.date hi month date)

-- The face shows the milliseconds left rounded up to seconds: whole minutes, a colon and two
-- digits below 60.
clock_lem :
    (ms : ℕ)
    → (minutes : ℕ) × (seconds : ℕ) × (clock ms
        ≡ to_digits 10 minutes ++ b':' ∷ (b'0' + seconds / 10) ∷ (b'0' + seconds % 10) ∷ [])
      × (seconds < 60)
      × (ms ≤ (minutes * 60 + seconds) * 1000)
      × ((minutes * 60 + seconds) * 1000 < ms + 1000)
unfolding clock
clock_lem ms = (
  (ms + 999) / 1000 / 60,
  (ms + 999) / 1000 % 60,
  rw (pad2_lem ((ms + 999) / 1000 % 60) (omega arith)),
  omega arith,
  omega arith,
  omega arith,
)
