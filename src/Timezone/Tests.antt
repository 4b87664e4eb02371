-- ===== src/Timezone/Tests.antt =====
-- Runs of the definitions of flute/common/Timezone.cc.
use flute.Prelude.{
  ℕ, ◌≡◌, refl, true, false, some, ◌>>=◌, List, [], ◌∷◌, replicate, ℤ, pos, negsuc, ◌+ℤ◌, ◌-ℤ◌,
  IsInt32, arith,
}
use flute.Date.{get_julian_day_number, get_year_month_day, new, year_month_day, week_day}
use flute.Timezone.{
  Localtime, TimeData, Timezone, Tm, at_bound, lower_bound, c_string, gmt_sentry, find_local_time,
  zero_gmt, day_and_seconds, fill_hms, fill_date, to_utc_time, seconds_of, from_utc_time,
  to_local_time, from_local_time,
}
use flute.Timezone.File.{read_timezone_file, open_zone}
use flute.Timezone.Lookup.{local_time_at, find_local_time-local_time_at}
use flute.Timezone.ZoneFile.{Zone, zone_bytes, IsZone, data_of, transition_of}
use flute.Timezone.Printed.{read_timezone_file-zone_bytes}
use flute.Timezone.Utc.{IsInYears, IsNormal, from_utc_time-to_utc_time}
use flute.Timezone.Local.{IsUsable, from_local_time-to_local_time, to_local_time-zone_bytes}

-- A second before 1970.
abbrev new_year : Tm
new_year = record {
  tm_sec = 59;
  tm_min = 59;
  tm_hour = 23;
  tm_mday = 31;
  tm_mon = 11;
  tm_year = pos 69;
  tm_wday = 3;
  tm_yday = 364;
  tm_isdst = false;
  tm_gmtoff = pos 0;
  tm_zone = 71 ∷ 77 ∷ 84 ∷ [];
}

before_the_epoch : to_utc_time (negsuc 0) true ≡ some new_year
unfolding to_utc_time day_and_seconds fill_hms fill_date year_month_day get_year_month_day new
    get_julian_day_number week_day ◌+ℤ◌ ◌-ℤ◌
before_the_epoch = refl

back_to_the_epoch : from_utc_time new_year ≡ some (negsuc 0)
unfolding from_utc_time seconds_of new get_julian_day_number ◌+ℤ◌ ◌-ℤ◌
back_to_the_epoch = refl

last_second-IsInYears : IsInYears (negsuc 0)
last_second-IsInYears = record { from = omega arith; until = omega arith }

from_utc_time-to_utc_time_example :
    (utc : Tm) × (to_utc_time (negsuc 0) true ≡ some utc)
    × IsNormal utc
    × (from_utc_time utc ≡ some (negsuc 0))
from_utc_time-to_utc_time_example = from_utc_time-to_utc_time (negsuc 0) true last_second-IsInYears

abbrev winter : Localtime
winter = record { gmt_offset = pos 3600; is_dst = false; arrb_idx = 0 }

abbrev summer : Localtime
summer = record { gmt_offset = pos 7200; is_dst = true; arrb_idx = 4 }

-- A zone with its summer from the time 1000000 to the time 2000000; "CET" and "CEST" are its names.
abbrev europe : Zone
europe = record {
  version = 0;
  reserved = replicate 15 0;
  isgmtcnt = pos 0;
  isstdcnt = pos 0;
  leapcnt = pos 0;
  entries = (pos 1000000, 1) ∷ (pos 2000000, 0) ∷ [];
  types = winter ∷ summer ∷ [];
  chars = 67 ∷ 69 ∷ 84 ∷ 0 ∷ 67 ∷ 69 ∷ 83 ∷ 84 ∷ 0 ∷ [];
}

small-IsInt32 : IsInt32 (pos 0)
small-IsInt32 = record { above = omega arith; below = omega arith }

europe-IsZone : IsZone europe
europe-IsZone = record {
  reserved = refl;
  isgmtcnt = small-IsInt32;
  isstdcnt = small-IsInt32;
  leapcnt = small-IsInt32;
  entries = (
    (record { above = omega arith; below = omega arith }, omega arith),
    ((record { above = omega arith; below = omega arith }, omega arith), tt),
  );
  types = (
    record { above = omega arith; below = omega arith },
    (record { above = omega arith; below = omega arith }, tt),
  );
  many_entries = omega arith;
  many_types = omega arith;
  many_chars = omega arith;
}

abbrev europe_data : TimeData
europe_data = record {
  transitions =
      record { gmttime = pos 1000000; localtime = pos 1007200; localtime_idx = 1 }
      ∷ record { gmttime = pos 2000000; localtime = pos 2003600; localtime_idx = 0 }
      ∷ [];
  localtimes = winter ∷ summer ∷ [];
  abbreviation = 67 ∷ 69 ∷ 84 ∷ 0 ∷ 67 ∷ 69 ∷ 83 ∷ 84 ∷ 0 ∷ [];
}

read_timezone_file-zone_bytes_example :
    read_timezone_file
      (some (zone_bytes europe (1 ∷ [])))
      (record { transitions = []; localtimes = []; abbreviation = [] })
    ≡ some (true, data_of europe)
read_timezone_file-zone_bytes_example = read_timezone_file-zone_bytes europe (1 ∷ []) europe-IsZone

find_local_time-local_time_at_example :
    find_local_time europe_data (gmt_sentry (pos 1500000)) true
    ≡ local_time_at europe_data (gmt_sentry (pos 1500000)) true
find_local_time-local_time_at_example =
    find_local_time-local_time_at europe_data (gmt_sentry (pos 1500000)) true
      ((omega arith, tt), (tt, tt))

in_summer : find_local_time europe_data (gmt_sentry (pos 1500000)) true ≡ some summer
unfolding find_local_time at_bound lower_bound
in_summer = refl

-- Functions with the behaviour that is asked of the C library's: the year holds all of the time.
abbrev year_only : ℤ → Tm
year_only s = record zero_gmt { tm_year = s }

abbrev from_year : Tm → ℤ
from_year t = t.tm_year

from_local_time-to_local_time_example :
    (to_local_time year_only from_year (record { data_of = some europe_data }) (pos 1500000)
      >>= from_local_time year_only from_year (record { data_of = some europe_data }))
    ≡ some (pos 1500000)
unfolding find_local_time at_bound lower_bound ◌+ℤ◌ c_string
from_local_time-to_local_time_example =
    from_local_time-to_local_time year_only from_year europe_data summer (67 ∷ 69 ∷ 83 ∷ 84 ∷ [])
      (pos 1500000) refl refl refl (λ s b o zone. refl)

europe-IsUsable : IsUsable (data_of europe)
unfolding transition_of
europe-IsUsable = record {
  first = omega arith;
  indices = (omega arith, (omega arith, tt));
  names = (omega arith, (omega arith, tt));
}

to_local_time-zone_bytes_example :
    (zone : Timezone) × (l : Localtime) × (text : List ℕ) × (open_zone (some (zone_bytes europe []))
      ≡ some zone)
    × (find_local_time (data_of europe) (gmt_sentry (negsuc 4)) true ≡ some l)
    × (to_local_time year_only from_year zone (negsuc 4)
        ≡ some (record (year_only (negsuc 4 +ℤ l.gmt_offset)) {
          tm_isdst = l.is_dst;
          tm_gmtoff = l.gmt_offset;
          tm_zone = text;
        }))
to_local_time-zone_bytes_example =
    to_local_time-zone_bytes year_only from_year europe [] (negsuc 4) europe-IsZone europe-IsUsable
