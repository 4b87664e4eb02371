-- ===== src/Date/Calendar.antt =====
-- The Gregorian calendar, for flute/common/Date.cc: its years, months and days.
use flute.Prelude.{◌/◌, ℕ, ◌+◌, ◌%◌, ◌≤◌, Bool, not, ◌&&◌, ◌||◌, ltb, ◌==◌, if◌then◌else◌}
use flute.Date.{YearMonthDay}

-- A year is a leap year where 4 divides it, but for a hundredth that is no four hundredth.
abbrev pub is_leap : ℕ → Bool
is_leap y = (y % 4 == 0) && (not (y % 100 == 0) || (y % 400 == 0))

-- Months have 31 and 30 days in turn, beginning anew with August, but for February.
abbrev pub month_length : ℕ → ℕ → ℕ
month_length year month =
    let february = if is_leap year then 29 else 28 in
    if month == 2 then february else 30 + (month + month / 8) % 2

pub record IsDate (t : YearMonthDay) : Type 0 where
  pub month_ge : 1 ≤ t.month
  pub month_le : t.month ≤ 12
  pub day_ge : 1 ≤ t.day
  pub day_le : t.day ≤ month_length t.year t.month

-- The day after.
abbrev pub next_day : YearMonthDay → YearMonthDay
next_day t =
    if ltb t.day (month_length t.year t.month)
    then record t { day = t.day + 1 }
    else if ltb t.month 12
    then record t { month = t.month + 1; day = 1 }
    else record { year = t.year + 1; month = 1; day = 1 }
