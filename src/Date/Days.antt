-- ===== src/Date/Days.antt =====
-- The day numbers of flute/common/Date.cc count the days of the calendar one by one.
use flute.Prelude.{ℕ, ◌+◌, ◌≤◌, ◌<◌, ◌≡◌, sym, ap, ◌∙◌, inl, inr, ltb, arith, Bool-cases}
use flute.Date.{YearMonthDay, get_julian_day_number}
use flute.Date.Calendar.{is_leap, month_length, IsDate, next_day}
use flute.Date.Fields.{in_range}

abbrev pub number : YearMonthDay → ℕ
number t = get_julian_day_number t.year t.month t.day

same_month : (y m d : ℕ) → get_julian_day_number y m (d + 1) ≡ get_julian_day_number y m d + 1
unfolding get_julian_day_number
same_month y m d = omega arith

-- The last day of a month, and the first of the next one.
abbrev MonthEnds : ℕ → ℕ → Type 0
MonthEnds y m =
    m < 12 → get_julian_day_number y (m + 1) 1 ≡ get_julian_day_number y m (month_length y m) + 1

january_ends : (y : ℕ) → MonthEnds y 1
unfolding get_julian_day_number
january_ends y h = omega arith

february_ends : (y : ℕ) → MonthEnds y 2
unfolding get_julian_day_number
february_ends y h = elim (Bool-cases (is_leap y)) [
  | inl e ↦ rw e (ground (arith, e))
  | inr e ↦ rw e (ground (arith, e))
]

month_ends : (y m : ℕ) → 1 ≤ m → m ≤ 12 → MonthEnds y m
unfolding get_julian_day_number
month_ends y m h k =
    in_range (MonthEnds y) 12 1 m
      (
        january_ends y,
        (
          february_ends y,
          (
            λ _. omega arith,
            (
              λ _. omega arith,
              (
                λ _. omega arith,
                (
                  λ _. omega arith,
                  (
                    λ _. omega arith,
                    (
                      λ _. omega arith,
                      (
                        λ _. omega arith,
                        (
                          λ _. omega arith,
                          (λ _. omega arith, (λ h. absurd (omega (arith, h)), tt)),
                        ),
                      ),
                    ),
                  ),
                ),
              ),
            ),
          ),
        ),
      )
      h (omega (arith, k))

year_ends : (y : ℕ) → get_julian_day_number (y + 1) 1 1 ≡ get_julian_day_number y 12 31 + 1
unfolding get_julian_day_number
year_ends y = omega arith

december_ends :
    (y m d : ℕ)
    → m ≡ 12
    → d ≡ month_length y m
    → get_julian_day_number (y + 1) 1 1 ≡ get_julian_day_number y m d + 1
december_ends y m d e f = rw (f, e) (year_ends y)

-- The Julian day number of the day after a date of the Gregorian calendar, over the end of a month or
-- a year as well, is one more than that of the date.
pub number-next_day : (t : YearMonthDay) → IsDate t → number (next_day t) ≡ number t + 1
number-next_day t v = elim (Bool-cases (ltb t.day (month_length t.year t.month))) [
  | inl e ↦ rw e (same_month t.year t.month t.day)
  | inr e ↦
      let last : t.day ≡ month_length t.year t.month = ground (arith, e, v.day_le) in
      elim (Bool-cases (ltb t.month 12)) [
        | inl f ↦
            rw (e, f)
              (month_ends t.year t.month v.month_ge v.month_le (ground (arith, f))
                ∙ ap (λ d. get_julian_day_number t.year t.month d + 1) (sym last))
        | inr f ↦
            let december : t.month ≡ 12 = ground (arith, f, v.month_le) in
            rw (e, f) (december_ends t.year t.month t.day december last)
      ]
]
