-- ===== src/Date/Fields.antt =====
-- The day numbers of flute/common/Date.cc and the fields of a date.
use flute.Prelude.{
  subst, Bool-cases, inr, inl, ◌==◌, ℕ, zero, suc, ◌+◌, ◌-◌, ◌*◌, ◌/◌, ◌%◌, ◌≤◌, ◌<◌, ◌≡◌, ◌≢◌,
  refl, ap, ◌⊎◌, inl, inr, false, if◌then◌else◌, arith,
}
use flute.Date.{YearMonthDay, get_julian_day_number, get_year_month_day, new, year_month_day}
use flute.Date.Calendar.{is_leap, month_length, IsDate}

-- The days before the year `y` that begins in March, from some day on, split at the century.
before_year : ℕ → ℕ
before_year y = 365 * y + y / 4 - y / 100 + y / 400

before_year-century :
    (b r : ℕ)
    → r < 100
    → (100 * b + r) * 365 + (100 * b + r) / 4 - (100 * b + r) / 100 + (100 * b + r) / 400
      ≡ 146097 * b / 4 + (1461 * r / 4)
before_year-century b r h = omega arith

century-of :
    (b t : ℕ)
    → t ≤ 36523 ⊎ ((t ≤ 36524) × (b % 4 ≡ 3))
    → (4 * (146097 * b / 4 + t) + 3) / 146097 ≡ b
century-of b t h = omega arith

year-of : (r u : ℕ) → u ≤ 364 ⊎ ((u ≤ 365) × (r % 4 ≡ 3)) → (4 * (1461 * r / 4 + u) + 3) / 1461 ≡ r
year-of r u h = omega arith

cancel-century : (b t : ℕ) → 146097 * b / 4 + t - b * 146097 / 4 ≡ t
cancel-century b t = omega arith

cancel-year : (r u : ℕ) → 1461 * r / 4 + u - 1461 * r / 4 ≡ u
cancel-year r u = omega arith

-- The fields of the day `u` days into the year `r` of the century `b`, all from March on.
get_year_month_day-parts :
    (j b r u : ℕ)
    → j + 32044 ≡ 146097 * b / 4 + (1461 * r / 4 + u)
    → r < 100
    → (u ≤ 364) ⊎ ((u ≤ 365) × (r % 4 ≡ 3) × ((r < 99) ⊎ (b % 4 ≡ 3)))
    → get_year_month_day j ≡ record {
      day = u - (153 * ((5 * u + 2) / 153) + 2) / 5 + 1;
      month = (5 * u + 2) / 153 + 3 - 12 * ((5 * u + 2) / 153 / 10);
      year = b * 100 + r + (5 * u + 2) / 153 / 10 - 4800;
    }
unfolding get_year_month_day
get_year_month_day-parts j b r u e small bound =
    rw
      (
        e,
        century-of b (1461 * r / 4 + u) (omega (arith, small, bound)),
        cancel-century b (1461 * r / 4 + u),
        year-of r u (omega (arith, bound)),
        cancel-year r u,
      )
      refl

-- A day of the year `y` from March on, by its month `m` from March on.
from_parts :
    (y m d j y' m' u : ℕ)
    → (j + 32044 ≡ u + y' * 365 + y' / 4 - y' / 100 + y' / 400)
      × ((u ≤ 364) ⊎ ((u ≤ 365) × (y' % 4 ≡ 3) × ((y' % 100 < 99) ⊎ (y' % 400 ≡ 399))))
      × ((5 * u + 2) / 153 ≡ m')
      × (u - (153 * m' + 2) / 5 + 1 ≡ d)
      × (m' + 3 - 12 * (m' / 10) ≡ m)
      × (y' + m' / 10 - 4800 ≡ y)
    → get_year_month_day j ≡ record { year = y; month = m; day = d }
from_parts y m d j y' m' u (e, bound, em, ed, ef, ey) =
    rw
      (
        get_year_month_day-parts j (y' / 100) (y' % 100) u (omega (arith, e)) (omega arith)
            (omega (arith, bound)),
        em,
        ed,
        ef,
      )
      (ap (λ x. record { year = x; month = m; day = d }) (omega (arith, ey)))

abbrev Recovered : ℕ → ℕ → ℕ → Type 0
Recovered y m d =
    get_year_month_day (get_julian_day_number y m d) ≡ record { year = y; month = m; day = d }

january : (y d : ℕ) → 1 ≤ d → d ≤ 31 → Recovered y 1 d
unfolding get_julian_day_number
january y d h k = from_parts y 1 d _ (y + 4799) 10 (305 + d) (omega (arith, h, k))

march : (y d : ℕ) → 1 ≤ d → d ≤ 31 → Recovered y 3 d
unfolding get_julian_day_number
march y d h k = from_parts y 3 d _ (y + 4800) 0 (d - 1) (omega (arith, h, k))

april : (y d : ℕ) → 1 ≤ d → d ≤ 30 → Recovered y 4 d
unfolding get_julian_day_number
april y d h k = from_parts y 4 d _ (y + 4800) 1 (30 + d) (omega (arith, h, k))

may : (y d : ℕ) → 1 ≤ d → d ≤ 31 → Recovered y 5 d
unfolding get_julian_day_number
may y d h k = from_parts y 5 d _ (y + 4800) 2 (60 + d) (omega (arith, h, k))

june : (y d : ℕ) → 1 ≤ d → d ≤ 30 → Recovered y 6 d
unfolding get_julian_day_number
june y d h k = from_parts y 6 d _ (y + 4800) 3 (91 + d) (omega (arith, h, k))

july : (y d : ℕ) → 1 ≤ d → d ≤ 31 → Recovered y 7 d
unfolding get_julian_day_number
july y d h k = from_parts y 7 d _ (y + 4800) 4 (121 + d) (omega (arith, h, k))

august : (y d : ℕ) → 1 ≤ d → d ≤ 31 → Recovered y 8 d
unfolding get_julian_day_number
august y d h k = from_parts y 8 d _ (y + 4800) 5 (152 + d) (omega (arith, h, k))

september : (y d : ℕ) → 1 ≤ d → d ≤ 30 → Recovered y 9 d
unfolding get_julian_day_number
september y d h k = from_parts y 9 d _ (y + 4800) 6 (183 + d) (omega (arith, h, k))

october : (y d : ℕ) → 1 ≤ d → d ≤ 31 → Recovered y 10 d
unfolding get_julian_day_number
october y d h k = from_parts y 10 d _ (y + 4800) 7 (213 + d) (omega (arith, h, k))

november : (y d : ℕ) → 1 ≤ d → d ≤ 30 → Recovered y 11 d
unfolding get_julian_day_number
november y d h k = from_parts y 11 d _ (y + 4800) 8 (244 + d) (omega (arith, h, k))

december : (y d : ℕ) → 1 ≤ d → d ≤ 31 → Recovered y 12 d
unfolding get_julian_day_number
december y d h k = from_parts y 12 d _ (y + 4800) 9 (274 + d) (omega (arith, h, k))

february_short : (y d : ℕ) → 1 ≤ d → d ≤ 28 → Recovered y 2 d
unfolding get_julian_day_number
february_short y d h k = from_parts y 2 d _ (y + 4799) 11 (336 + d) (omega (arith, h, k))

february_long :
    (y d : ℕ) → 1 ≤ d → d ≤ 29 → y % 4 ≡ 0 → (y % 100 ≢ 0) ⊎ (y % 400 ≡ 0) → Recovered y 2 d
unfolding get_julian_day_number
february_long y d h k four hundred =
    from_parts y 2 d _ (y + 4799) 11 (336 + d) (omega (arith, h, k, four, hundred))

leap_rule : (y : ℕ) → (is_leap y ≡ false) ⊎ ((y % 4 ≡ 0) × ((y % 100 ≢ 0) ⊎ (y % 400 ≡ 0)))
leap_rule y = ground arith

february : (y d : ℕ) → 1 ≤ d → d ≤ (if is_leap y then 29 else 28) → Recovered y 2 d
february y d h k = elim (leap_rule y) [
  | inl e ↦ february_short y d h (ground (arith, e, k))
  | inr (four, hundred) ↦ february_long y d h (ground (arith, k)) four hundred
]

-- A statement about each of `n` numbers from `lo` on.
abbrev pub EachFrom {ℓ} : (ℕ → Type ℓ) → ℕ → ℕ → Type ℓ
EachFrom P lo zero = Unit
EachFrom P lo (suc n) = P lo × EachFrom P (lo + 1) n

pub in_range {ℓ} : (P : ℕ → Type ℓ) (n lo m : ℕ) → EachFrom P lo n → lo ≤ m → m < lo + n → P m
in_range P zero lo m each h k = absurd (omega (arith, h, k))
in_range P (suc n) lo m (first, each) h k = elim (Bool-cases (lo == m)) [
  | inl e ↦ subst P (ground (arith, e)) first
  | inr e ↦ in_range P n (lo + 1) m each (ground (arith, e, h)) (omega (arith, k))
]

-- The fields of a date of the Gregorian calendar are recovered from its Julian day number.
pub year_month_day-new :
    (t : YearMonthDay) → IsDate t → year_month_day (new t.year t.month t.day) ≡ t
unfolding year_month_day new
year_month_day-new t v =
    in_range (λ m. t.day ≤ month_length t.year m → Recovered t.year m t.day) 12 1 t.month
      (
        january y d g,
        (
          february y d g,
          (
            march y d g,
            (
              april y d g,
              (
                may y d g,
                (
                  june y d g,
                  (
                    july y d g,
                    (
                      august y d g,
                      (september y d g, (october y d g, (november y d g, (december y d g, tt)))),
                    ),
                  ),
                ),
              ),
            ),
          ),
        ),
      )
      v.month_ge (omega (arith, v.month_le)) v.day_le
  where
    y : ℕ
    y = t.year

    d : ℕ
    d = t.day

    g : 1 ≤ d
    g = v.day_ge
