-- ===== src/Examples/Days.antt =====
-- Dates around the end of a month.
use konku.Common.{◌≡◌, refl, codes, arith}
use konku.Dates.{Day, format}
use konku.Dates.Calendar.{IsDay, is_leap, last_month, month_days, day_before, from_month}
use konku.Dates.Labels.{Formatters, IsRecent}

abbrev leap_day : Day
leap_day = record { year = 2024; month = 2; date = 29 }

abbrev first_of_march : Day
first_of_march = record { year = 2024; month = 3; date = 1 }

leap_day-IsDay : IsDay leap_day
unfolding month_days is_leap
leap_day-IsDay = record {
  month_least = omega arith;
  month_most = omega arith;
  date_least = omega arith;
  date_most = omega arith;
}

first_of_march-IsDay : IsDay first_of_march
unfolding month_days is_leap
first_of_march-IsDay = record {
  month_least = omega arith;
  month_most = omega arith;
  date_least = omega arith;
  date_most = omega arith;
}

abbrev english : Formatters
english = record {
  today = codes "Today";
  yesterday = codes "Yesterday";
  short_day = λ d. format d;
  with_year = λ d. format d;
}

leap_day-IsRecent : IsRecent leap_day
leap_day-IsRecent = record {
  day = leap_day-IsDay;
  year_least = omega arith;
  year_most = omega arith;
}

first_of_march-IsRecent : IsRecent first_of_march
first_of_march-IsRecent = record {
  day = first_of_march-IsDay;
  year_least = omega arith;
  year_most = omega arith;
}

day_before_march : day_before first_of_march ≡ leap_day
unfolding day_before from_month month_days is_leap last_month
day_before_march = refl
