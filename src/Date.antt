-- ===== src/Date.antt =====
-- flute/common/Date.h and Date.cc: dates of the Gregorian calendar as Julian day numbers. The fields
-- are numbers from zero on, as they are in the range that Date.h gives them, and a month is 12 at
-- most, so that no difference below goes
-- under zero, with the subtraction of 4800 put last.
pub mod Fields
pub mod Calendar
pub mod Days
mod Tests
use flute.Prelude.{ℕ, ◌+◌, ◌-◌, ◌*◌, ◌/◌, ◌%◌, Bool, true, false, ltb, ◌==◌}

pub record YearMonthDay : Type 0 where
  pub year : ℕ
  pub month : ℕ
  pub day : ℕ

unfoldable pub get_julian_day_number : ℕ → ℕ → ℕ → ℕ
get_julian_day_number year month day =
    let a = (14 - month) / 12 in
    let y = year + 4800 - a in
    let m = month + 12 * a - 3 in
    day + (153 * m + 2) / 5 + y * 365 + y / 4 - y / 100 + y / 400 - 32045

unfoldable pub get_year_month_day : ℕ → YearMonthDay
get_year_month_day julian_day_number =
    let a = julian_day_number + 32044 in
    let b = (4 * a + 3) / 146097 in
    let c = a - b * 146097 / 4 in
    let d = (4 * c + 3) / 1461 in
    let e = c - 1461 * d / 4 in
    let m = (5 * e + 2) / 153 in
    record {
      day = e - (153 * m + 2) / 5 + 1;
      month = m + 3 - 12 * (m / 10);
      year = b * 100 + d + m / 10 - 4800;
    }

-- A date is its Julian day number; the constructor from fields is `get_julian_day_number`.
pub record Date : Type 0 where
  pub julian_day_number : ℕ

unfoldable pub new : ℕ → ℕ → ℕ → Date
new y m d = record { julian_day_number = get_julian_day_number y m d }

unfoldable pub year_month_day : Date → YearMonthDay
year_month_day t = get_year_month_day t.julian_day_number

abbrev pub k_days_per_week : ℕ
k_days_per_week = 7

unfoldable pub week_day : Date → ℕ
week_day t = (t.julian_day_number + 1) % k_days_per_week

abbrev pub valid : Date → Bool
valid t = ltb 0 t.julian_day_number

abbrev pub is_before : Date → Date → Bool
is_before x y = ltb x.julian_day_number y.julian_day_number

abbrev pub is_same : Date → Date → Bool
is_same x y = x.julian_day_number == y.julian_day_number

abbrev pub k_julian_day_of_1970_01_01 : ℕ
k_julian_day_of_1970_01_01 = get_julian_day_number 1970 1 1
