-- ===== src/Dates/Labels.antt =====
-- The day labels of a screen: `dateFormatters` of web/src/lib/date.ts. The two `Intl` formatters
-- are arguments, and so is the reading of a timestamp, which fails on an invalid one.
use konku.Common.{
  ℕ, ◌≤◌, ◌<◌, ◌≡◌, refl, sym, ◌∙◌, ap, ◌↔◌, Bool, true, false, ◌&&◌, Text, [], Option, none, some,
  str_eq, str_eq_iff, str_eq_refl, ◌==◌, if◌then◌else◌, arith,
}
use konku.Dates.{Day, format, parse_ymd}
use konku.Dates.Calendar.{IsDay, make_date, day_before, make_date_same}
use konku.Dates.RoundTrip.{parse_ymd-format}

-- The copy and the formatters of one locale.
pub record Formatters : Type 0 where
  pub today : Text
  pub yesterday : Text
  pub short_day : Day → Text
  pub with_year : Day → Text

module _ (f : Formatters) where
  unfoldable pub day_label : Day → Day → Text
  day_label d now =
      if str_eq (format d) (format now)
      then f.today
      else if str_eq (format d) (format (day_before now))
      then f.yesterday
      else (if d.year == now.year then f.short_day d else f.with_year d)

  -- `new Date(iso)`, `none` where its time is NaN.
  unfoldable pub human_day : Option Day → Day → Text
  unfolding day_label
  human_day none now = []
  human_day (some d) now = day_label d now

  human_parsed : Option (ℕ × ℕ × ℕ) → Day → Text
  human_parsed none now = []
  human_parsed (some (y, m, d)) now = day_label (make_date y m d) now

  unfoldable pub human_date : Text → Day → Text
  unfolding human_parsed
  human_date ymd now = human_parsed (parse_ymd ymd) now

-- A day of a four-digit year.
pub record IsRecent (d : Day) : Type 0 where
  pub day : IsDay d
  pub year_least : 1000 ≤ d.year
  pub year_most : d.year < 10000

same_parts :
    (d e : Day)
    → ◌≡◌ {A = Option (ℕ × ℕ × ℕ)} (some (d.year, d.month, d.date)) (some (e.year, e.month, e.date))
    → d ≡ e
same_parts d e h = ground arith

-- Two days are written alike only if they are one day.
pub format_injective : (d e : Day) → IsRecent d → IsRecent e → format d ≡ format e → d ≡ e
format_injective d e hd he h = same_parts d e (
    sym (parse_ymd-format d hd.day hd.year_least hd.year_most)
    ∙ ap parse_ymd h
    ∙ parse_ymd-format e he.day he.year_least he.year_most)

str_eq-format :
    (d e : Day) → IsRecent d → IsRecent e → (str_eq (format d) (format e) ≡ true) ↔ (d ≡ e)
str_eq-format d e hd he = (
  λ h. format_injective d e hd he ((str_eq_iff (format d) (format e)).0 h),
  λ h. rw h (str_eq_refl (format e)),
)

human_date_lem :
    (f : Formatters) (d now : Day) → IsRecent d → human_date f (format d) now ≡ day_label f d now
unfolding human_date
human_date_lem f d now h =
    rw (parse_ymd-format d h.day h.year_least h.year_most)
      (ap (λ e. day_label f e now) (make_date_same d h.day (omega (arith, h.year_least))))

-- The three fields agree.
abbrev pub same_day : Day → Day → Bool
same_day d e = d.year == e.year && d.month == e.month && d.date == e.date

same_day_iff : (d e : Day) → (same_day d e ≡ true) ↔ (d ≡ e)
same_day_iff d e = ground arith

agree : (a b : Bool) → (a ≡ true → b ≡ true) → (b ≡ true → a ≡ true) → a ≡ b
agree true true f g = refl
agree true false f g = sym (f refl)
agree false true f g = g refl
agree false false f g = refl

format_same : (d e : Day) → IsRecent d → IsRecent e → str_eq (format d) (format e) ≡ same_day d e
format_same d e hd he =
    let text = str_eq-format d e hd he in
    let day = same_day_iff d e in
    agree (str_eq (format d) (format e)) (same_day d e) (λ h. day.1 (text.0 h))
      (λ h. text.1 (day.0 h))

-- With four-digit years for it, for now and for the day before, a stored date is shown by the day
-- that it names: "today" if it is this
-- day, "yesterday" if it is the day before, and else by its own fields, with the year if that is
-- another than this one.
pub human_date-format :
    (f : Formatters) (d now : Day)
    → IsRecent d
    → IsRecent now
    → IsRecent (day_before now)
    → human_date f (format d) now ≡ (
        if same_day d now
        then f.today
        else if same_day d (day_before now)
        then f.yesterday
        else (if d.year == now.year then f.short_day d else f.with_year d))
unfolding day_label
human_date-format f d now hd hnow hb =
    human_date_lem f d now hd ∙ rw (format_same d now hd hnow, format_same d (day_before now) hd hb)
