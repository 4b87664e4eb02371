-- ===== src/Timezone/Floor.antt =====
-- Days and seconds of flute/common/Timezone.cc, before 1970 as well.
use flute.Prelude.{
  subst, ℕ, zero, suc, ◌+◌, ◌-◌, ◌/◌, ◌%◌, ◌^◌, ◌≤◌, ◌<◌, ◌≡◌, refl, ap, ◌∙◌, sym, ℤ, pos, negsuc,
  pos_part, neg_part, ◌+ℤ◌, ◌-ℤ◌, sub_ℕ, from_int32, to_int32, IsInt32, from_int32-to_int32, arith,
}
use flute.Date.{YearMonthDay, get_julian_day_number, new, year_month_day}
use flute.Date.Calendar.{IsDate, next_day}
use flute.Date.Days.{number, number-next_day}
use flute.Date.Fields.{year_month_day-new}
use flute.Timezone.{
  k_seconds_per_day, div_trunc, mod_trunc, day_and_seconds, first_julian_day, times,
}

next_day-IsDate : (t : YearMonthDay) → IsDate t → IsDate (next_day t)
next_day-IsDate t v = ground (arith, v.month_ge, v.month_le, v.day_ge, v.day_le)

-- Each day number from the year 0 on is that of a date.
each_day-IsDate : (k : ℕ) → (t : YearMonthDay) × IsDate t × (number t ≡ first_julian_day + k)
unfolding get_julian_day_number
each_day-IsDate zero = (
  record { year = 0; month = 1; day = 1 },
  record {
    month_ge = omega arith;
    month_le = omega arith;
    day_ge = omega arith;
    day_le = omega arith;
  },
  refl,
)
each_day-IsDate (suc k) =
    let (t, v, e) = each_day-IsDate k in
    (next_day t, next_day-IsDate t v, omega (arith, number-next_day t v, e))

-- The fields of such a day are a date with this number.
abbrev pub fields : ℕ → YearMonthDay
fields j = year_month_day (record { julian_day_number = j })

fields_of_date : (t : YearMonthDay) → IsDate t → fields (number t) ≡ t
unfolding new
fields_of_date t v = year_month_day-new t v

pub fields-IsDate : (j : ℕ) → first_julian_day ≤ j → IsDate (fields j) × (number (fields j) ≡ j)
fields-IsDate j h =
    let (t, v, e) = each_day-IsDate (j - first_julian_day) in
    let same : number t ≡ j = omega (arith, h, e) in
    let found : t ≡ fields j = sym (fields_of_date t v) ∙ ap fields same in
    (subst IsDate found v, ap number (sym found) ∙ same)

small-IsInt32 : (a b : ℕ) → a < 2 ^ 31 → b < 2 ^ 31 → IsInt32 (sub_ℕ a b)
small-IsInt32 a b h k = record { above = ground (arith, h, k); below = ground (arith, h, k) }

-- The casts keep the quotient and the rest of a time that is not too far from 1970.
uncast :
    (time : ℤ)
    → pos_part time < 2 ^ 47
    → neg_part time < 2 ^ 47
    → (from_int32 (to_int32 (div_trunc time k_seconds_per_day)) ≡ div_trunc time k_seconds_per_day)
      × (from_int32 (to_int32 (mod_trunc time k_seconds_per_day))
          ≡ mod_trunc time k_seconds_per_day)
uncast time h k = (
  from_int32-to_int32 (div_trunc time k_seconds_per_day)
      (small-IsInt32 _ _ (omega (arith, h)) (omega (arith, k))),
  from_int32-to_int32 (mod_trunc time k_seconds_per_day)
      (small-IsInt32 _ _ (omega arith) (omega arith)),
)

-- The day of a time and the second in it.
unfoldable pub floor_day : ℤ → ℤ
floor_day (pos n) = pos (n / k_seconds_per_day)
floor_day (negsuc n) = negsuc (n / k_seconds_per_day)

unfoldable pub floor_second : ℤ → ℕ
floor_second (pos n) = n % k_seconds_per_day
floor_second (negsuc n) = k_seconds_per_day - 1 - n % k_seconds_per_day

pub floor_second-bound : (time : ℤ) → floor_second time < k_seconds_per_day
unfolding floor_second
floor_second-bound (pos n) = omega arith
floor_second-bound (negsuc n) = omega arith

pub floor_parts :
    (time : ℤ) → times (floor_day time) k_seconds_per_day +ℤ pos (floor_second time) ≡ time
unfolding floor_day floor_second ◌+ℤ◌
floor_parts (pos n) = ground arith
floor_parts (negsuc n) = ground arith

pub day_and_seconds-floor :
    (time : ℤ)
    → pos_part time < 2 ^ 47
    → neg_part time < 2 ^ 47
    → day_and_seconds time ≡ (floor_day time, pos (floor_second time))
unfolding day_and_seconds floor_day floor_second ◌-ℤ◌ ◌+ℤ◌
day_and_seconds-floor (pos n) h k = let (d, s) = uncast (pos n) h k in rw (d, s) (ground arith)
day_and_seconds-floor (negsuc n) h k =
    let (d, s) = uncast (negsuc n) h k in rw (d, s) (ground arith)
