-- ===== src/Timezone/Utc.antt =====
-- UTC in flute/common/Timezone.cc: the fields of a time and the time of the fields.
use flute.Prelude.{
  subst, ℕ, suc, ◌+◌, ◌-◌, ◌*◌, ◌/◌, ◌%◌, ◌^◌, ◌≤◌, ◌<◌, ◌≡◌, refl, ap, ◌∙◌, sym, Bool, true, false,
  some, ℤ, pos, negsuc, pos_part, neg_part, ◌+ℤ◌, ◌-ℤ◌, int_laws, arith,
}
use flute.Date.{YearMonthDay, get_julian_day_number, new, k_julian_day_of_1970_01_01}
use flute.Date.Calendar.{IsDate}
use flute.Timezone.{
  Tm, k_seconds_per_day, fill_hms, zero_gmt, first_julian_day, julian_day, fill_date, to_utc_time,
  times, seconds_of, from_utc_time,
}
use flute.Timezone.Floor.{
  fields, fields-IsDate, floor_day, floor_second, floor_second-bound, floor_parts,
  day_and_seconds-floor,
}

-- The times from the year 0 on, up to some million years.
pub record IsInYears (time : ℤ) : Type 0 where
  pub from : neg_part time ≤ 719528 * k_seconds_per_day
  pub until : pos_part time < 2 ^ 45

epoch : k_julian_day_of_1970_01_01 ≡ 2440588
unfolding get_julian_day_number
epoch = refl

-- The Julian day number of a time.
day_number : ℤ → ℕ
day_number time = pos_part (floor_day time +ℤ pos 2440588)

julian_day-some :
    (time : ℤ)
    → IsInYears time
    → (julian_day (floor_day time +ℤ pos k_julian_day_of_1970_01_01) ≡ some (day_number time))
      × (first_julian_day ≤ day_number time)
      × (floor_day time ≡ pos (day_number time) -ℤ pos 2440588)
unfolding floor_day ◌+ℤ◌ day_number ◌-ℤ◌
julian_day-some (pos n) v =
    let h : n < 2 ^ 45 = v.until in
    rw epoch (ground (arith, h), ground (arith, h), ground (arith, h))
julian_day-some (negsuc n) v =
    let h : suc n ≤ 719528 * k_seconds_per_day = v.from in
    rw epoch (ground (arith, h), ground (arith, h), ground (arith, h))

-- The fields of a date and of a time of day.
pub record IsNormal (utc : Tm) : Type 0 where
  pub year : ℕ
  pub tm_year : utc.tm_year ≡ pos year -ℤ pos 1900
  pub date : IsDate (record { year = year; month = utc.tm_mon + 1; day = utc.tm_mday })
  pub hour : utc.tm_hour < 24
  pub minute : utc.tm_min < 60
  pub second : utc.tm_sec < 60

back_and_forth : (y : ℕ) → pos y -ℤ pos 1900 +ℤ pos 1900 ≡ pos y
back_and_forth y = omega int_laws

-- The fields that the time of day `s` of the day `j` is given.
abbrev utc_of : ℕ → Bool → ℕ → Tm
utc_of j yday s = fill_date j yday (fill_hms s zero_gmt)

to_utc_time-fields :
    (time : ℤ) (yday : Bool)
    → IsInYears time
    → to_utc_time time yday ≡ some (utc_of (day_number time) yday (floor_second time))
unfolding to_utc_time
to_utc_time-fields time yday v =
    let (found, _, _) = julian_day-some time v in
    rw (day_and_seconds-floor time (omega (arith, v.until)) (omega (arith, v.from)), found) refl

month_back :
    (t : YearMonthDay)
    → IsDate t
    → record { year = t.year; month = t.month - 1 + 1; day = t.day } ≡ t
month_back t v =
    ap (λ m. record { year = t.year; month = m; day = t.day }) (omega (arith, v.month_ge))

month_back-IsDate :
    (j : ℕ)
    → first_julian_day ≤ j
    → IsDate
        (record { year = (fields j).year; month = (fields j).month - 1 + 1; day = (fields j).day })
month_back-IsDate j h =
    let (v, _) = fields-IsDate j h in subst IsDate (sym (month_back (fields j) v)) v

utc_of-IsNormal :
    (j s : ℕ) (yday : Bool)
    → first_julian_day ≤ j
    → s < k_seconds_per_day
    → IsNormal (utc_of j yday s)
unfolding fill_date fill_hms
utc_of-IsNormal j s true h k = record {
  year = (fields j).year;
  tm_year = refl;
  date = month_back-IsDate j h;
  hour = omega (arith, k);
  minute = omega arith;
  second = omega arith;
}
utc_of-IsNormal j s false h k = record {
  year = (fields j).year;
  tm_year = refl;
  date = month_back-IsDate j h;
  hour = omega (arith, k);
  minute = omega arith;
  second = omega arith;
}

-- The seconds of the fields of a day and a time of day.
seconds_of-fields :
    (j s : ℕ)
    → first_julian_day ≤ j
    → seconds_of
        (fields j).year
        ((fields j).month - 1 + 1)
        (fields j).day
        (s / 60 / 60)
        (s / 60 % 60)
        (s % 60)
      ≡ times (pos j -ℤ pos 2440588) k_seconds_per_day +ℤ pos s
unfolding seconds_of new
seconds_of-fields j s h =
    let (v, e) = fields-IsDate j h in
    let whole : s / 60 / 60 * 3600 + s / 60 % 60 * 60 + s % 60 ≡ s = omega arith in
    let month : (fields j).month - 1 + 1 ≡ (fields j).month = omega (arith, v.month_ge) in
    rw (month, e, epoch, whole) refl

from_utc_time-utc_of :
    (j s : ℕ) (yday : Bool)
    → first_julian_day ≤ j
    → from_utc_time (utc_of j yday s)
      ≡ some (times (pos j -ℤ pos 2440588) k_seconds_per_day +ℤ pos s)
unfolding from_utc_time fill_date fill_hms
from_utc_time-utc_of j s true h =
    rw (from_utc_time, back_and_forth (fields j).year) (ap some (seconds_of-fields j s h))
from_utc_time-utc_of j s false h =
    rw (from_utc_time, back_and_forth (fields j).year) (ap some (seconds_of-fields j s h))

-- A time from the year 0 on and below 2^45 seconds has fields of UTC, which are those of a date of the
-- Gregorian calendar and of a time of day, and the time of these fields is the time itself.
pub from_utc_time-to_utc_time :
    (time : ℤ) (yday : Bool)
    → IsInYears time
    → (utc : Tm) × (to_utc_time time yday ≡ some utc)
      × IsNormal utc
      × (from_utc_time utc ≡ some time)
from_utc_time-to_utc_time time yday v =
    let (_, low, whole) = julian_day-some time v in
    (
      utc_of (day_number time) yday (floor_second time),
      to_utc_time-fields time yday v,
      utc_of-IsNormal (day_number time) (floor_second time) yday low (floor_second-bound time),
      from_utc_time-utc_of (day_number time) (floor_second time) yday low
          ∙ ap some (
              ap (λ d. times d k_seconds_per_day +ℤ pos (floor_second time)) (sym whole)
              ∙ floor_parts time),
    )
