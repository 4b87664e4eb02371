-- ===== src/Date/Tests.antt =====
-- Runs of the definitions of flute/common/Date.cc.
use flute.Prelude.{◌+◌, ◌≡◌, refl, arith}
use flute.Date.{YearMonthDay, get_julian_day_number, get_year_month_day, new, week_day}
use flute.Date.Calendar.{IsDate, next_day}
use flute.Date.Days.{number, number-next_day}

abbrev leap_day : YearMonthDay
leap_day = record { year = 2024; month = 2; day = 29 }

leap_day-IsDate : IsDate leap_day
leap_day-IsDate = record {
  month_ge = omega arith;
  month_le = omega arith;
  day_ge = omega arith;
  day_le = omega arith;
}

epoch : get_julian_day_number 1970 1 1 ≡ 2440588
unfolding get_julian_day_number
epoch = refl

epoch_fields : get_year_month_day 2440588 ≡ record { year = 1970; month = 1; day = 1 }
unfolding get_year_month_day
epoch_fields = refl

epoch_is_thursday : week_day (new 1970 1 1) ≡ 4
unfolding week_day new get_julian_day_number
epoch_is_thursday = refl

number-next_day_example : number (next_day leap_day) ≡ number leap_day + 1
number-next_day_example = number-next_day leap_day leap_day-IsDate
