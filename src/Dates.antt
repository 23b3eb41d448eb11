-- ===== src/Dates.antt =====
-- Local calendar dates and the timer face: web/src/lib/date.ts. A `Date` is read through its local
-- fields, which the platform computes from the time zone; `Intl` formatters are parameters.
pub mod Calendar
pub mod RoundTrip
pub mod Labels
use konku.Common.{
  ℕ, zero, suc, ◌+◌, ◌-◌, ◌*◌, ◌/◌, ◌%◌, Bool, true, false, ◌&&◌, ◌||◌, not, Text, codes, Option,
  none, some, List, [], ◌∷◌, ◌++◌, length, str_eq, leb, ltb, ◌==◌, if◌then◌else◌,
}
use konku.Common.Digits.{to_digits, from_digits}

-- `getFullYear()`, `getMonth() + 1` and `getDate()`.
pub record Day : Type 0 where
  pub year : ℕ
  pub month : ℕ
  pub date : ℕ

-- `String(n).padStart(2, '0')`.
unfoldable pub pad2 : ℕ → Text
pad2 n =
    let s = to_digits 10 n in
    if ltb (length s) 2 then (if ltb (length s) 1 then b'0' ∷ b'0' ∷ [] else b'0' ∷ s) else s

unfoldable pub format : Day → Text
format d = to_digits 10 d.year ++ b'-' ∷ (pad2 d.month ++ b'-' ∷ pad2 d.date)

-- The face of the timer, from the milliseconds left. `Math.max(0, Math.ceil(ms / 1000))`; what is
-- left is never negative here.
unfoldable pub clock : ℕ → Text
clock ms = let total = (ms + 999) / 1000 in to_digits 10 (total / 60) ++ b':' ∷ pad2 (total % 60)

unfoldable pub is_digit : ℕ → Bool
is_digit c = leb b'0' c && leb c b'9'

-- The pattern `^(\d{4})-(\d{2})-(\d{2})$`, with the groups read by `Number`.
unfoldable pub parse_ymd : Text → Option (ℕ × ℕ × ℕ)
parse_ymd (a ∷ b ∷ c ∷ d ∷ e ∷ f ∷ g ∷ h ∷ i ∷ j ∷ []) =
    if is_digit a
      && is_digit b
      && is_digit c
      && is_digit d
      && e == b'-'
      && (is_digit f && is_digit g && h == b'-' && (is_digit i && is_digit j))
    then some (
      from_digits 10 0 (a ∷ b ∷ c ∷ d ∷ []),
      from_digits 10 0 (f ∷ g ∷ []),
      from_digits 10 0 (i ∷ j ∷ []),
    )
    else none
parse_ymd _ = none
