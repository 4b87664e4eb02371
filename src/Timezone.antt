-- ===== src/Timezone.antt =====
-- flute/common/Timezone.h and Timezone.cc: the times of a zone and UTC. `none` is a null `m_data`, a
-- failed `assert` or a read outside of a vector. `gmtime` and `timegm` are the C library's functions.
-- A `time_t` is an integer, as the sums of a time and an offset stay far from its 64 bits; an `int` is
-- one, with its wrap at a cast.
pub mod File
pub mod Lookup
pub mod ZoneFile
pub mod Printed
pub mod Floor
pub mod Utc
pub mod Local
mod Tests
use flute.Prelude.{
  ℕ, zero, suc, ◌+◌, ◌-◌, ◌*◌, ◌/◌, ◌%◌, ◌^◌, Bool, true, false, not, ◌&&◌, ltb, leb, ◌==◌,
  if◌then◌else◌, Option, none, some, assert, ◌>>=◌, ◌>>◌, List, [], ◌∷◌, length, get_elem?, drop, ℤ,
  pos, pos_part, neg_part, sub_ℕ, ◌+ℤ◌, ◌-ℤ◌, ltb_ℤ, eqb_ℤ, from_int32, to_int32,
}
use flute.Date.{Date, YearMonthDay, new, year_month_day, week_day, k_julian_day_of_1970_01_01}

pub record Transition : Type 0 where
  pub gmttime : ℤ
  pub localtime : ℤ
  pub localtime_idx : ℕ

pub record Localtime : Type 0 where
  pub gmt_offset : ℤ
  pub is_dst : Bool
  pub arrb_idx : ℕ

-- The field `names` of the source is never used.
pub record TimeData : Type 0 where
  pub transitions : List Transition
  pub localtimes : List Localtime
  pub abbreviation : List ℕ

abbrev pub empty_data : TimeData
empty_data = record { transitions = []; localtimes = []; abbreviation = [] }

-- The pointer `m_data`, null in an invalid timezone.
pub record Timezone : Type 0 where
  pub data_of : Option TimeData

-- `struct tm`; `tm_zone` is the text it points to.
pub record Tm : Type 0 where
  pub tm_sec : ℕ
  pub tm_min : ℕ
  pub tm_hour : ℕ
  pub tm_mday : ℕ
  pub tm_mon : ℕ
  pub tm_year : ℤ
  pub tm_wday : ℕ
  pub tm_yday : ℕ
  pub tm_isdst : Bool
  pub tm_gmtoff : ℤ
  pub tm_zone : List ℕ

-- The sentries of the two lookups.
abbrev pub gmt_sentry : ℤ → Transition
gmt_sentry seconds = record { gmttime = seconds; localtime = pos 0; localtime_idx = 0 }

abbrev pub local_sentry : ℤ → Transition
local_sentry seconds = record { gmttime = pos 0; localtime = seconds; localtime_idx = 0 }

-- `Comp` with its `compare_gmt`.
abbrev pub key : Bool → Transition → ℤ
key compare_gmt t = if compare_gmt then t.gmttime else t.localtime

abbrev pub comp : Bool → Transition → Transition → Bool
comp compare_gmt lhs rhs = ltb_ℤ (key compare_gmt lhs) (key compare_gmt rhs)

abbrev pub equal : Bool → Transition → Transition → Bool
equal compare_gmt lhs rhs = eqb_ℤ (key compare_gmt lhs) (key compare_gmt rhs)

-- `std::lower_bound`: how many transitions stand before the first that is not before the sentry.
unfoldable pub lower_bound : Bool → Transition → List Transition → ℕ
lower_bound c sentry [] = 0
lower_bound c sentry (t ∷ ts) =
    let rest = lower_bound c sentry ts in if comp c t sentry then suc rest else 0

-- The transition that holds at the sentry, where `i` is its bound and the first is not after it.
pub at_bound : Bool → Transition → List Transition → ℕ → Option Transition
at_bound c sentry ts i = elim (get_elem? ts i) [
  | some t ↦ if equal c sentry t then some t else assert (not (i == 0)) >> get_elem? ts (i - 1)
  | none ↦ get_elem? ts (length ts - 1)
]

unfoldable pub find_local_time : TimeData → Transition → Bool → Option Localtime
find_local_time d sentry c = elim (d.transitions) [
  | [] ↦ get_elem? (d.localtimes) 0
  | front ∷ ts ↦ if comp c sentry front then get_elem? (d.localtimes) 0 else do
    t ← at_bound c sentry (front ∷ ts) (lower_bound c sentry (front ∷ ts))
    get_elem? (d.localtimes) (t.localtime_idx)
]

unfoldable pub fixed : ℤ → List ℕ → Timezone
fixed east_of_utc name = record {
  data_of = some (record empty_data {
    localtimes = record { gmt_offset = east_of_utc; is_dst = false; arrb_idx = 0 } ∷ [];
    abbreviation = name;
  });
}

abbrev pub valid : Timezone → Bool
valid z = elim (z.data_of) [ some d ↦ true | none ↦ false ]

-- The text from a place on, up to its NUL.
pub c_string : List ℕ → List ℕ
c_string [] = []
c_string (x ∷ xs) = if x == 0 then [] else x ∷ c_string xs

-- The text at `&abbreviation[i]`, where the place of the closing NUL is the last that may be named.
abbrev pub text_from : List ℕ → ℕ → Option (List ℕ)
text_from s i = if leb i (length s) then some (c_string (drop i s)) else none

-- The HACK: the time is told as one in summer, and is none with the same hour and minute.
abbrev pub is_told_twice : Tm → Tm → Bool
is_told_twice try_tm local_tm =
    not (try_tm.tm_isdst)
    && ((try_tm.tm_hour == local_tm.tm_hour) && (try_tm.tm_min == local_tm.tm_min))

module _ (gmtime : ℤ → Tm) (timegm : Tm → ℤ) where
  unfoldable pub to_local_time : Timezone → ℤ → Option Tm
  to_local_time z seconds = do
    d ← z.data_of
    local ← find_local_time d (gmt_sentry seconds) true
    zone ← text_from (d.abbreviation) (local.arrb_idx)
    let t = gmtime (seconds +ℤ local.gmt_offset)
    some (record t { tm_isdst = local.is_dst; tm_gmtoff = local.gmt_offset; tm_zone = zone })

  unfoldable pub without_dst : Timezone → Tm → ℤ → Localtime → Option ℤ
  without_dst z local_tm seconds local =
      if local_tm.tm_isdst
      then to_local_time z (seconds -ℤ local.gmt_offset) >>= (λ try_tm.
        some (if is_told_twice try_tm local_tm then seconds -ℤ pos 3600 else seconds))
      else some seconds

  unfoldable pub from_local_time : Timezone → Tm → Option ℤ
  from_local_time z local_tm = do
    d ← z.data_of
    let seconds = timegm local_tm
    local ← find_local_time d (local_sentry seconds) false
    seconds' ← without_dst z local_tm seconds local
    some (seconds' -ℤ local.gmt_offset)

abbrev pub k_seconds_per_day : ℕ
k_seconds_per_day = 24 * 60 * 60

-- Division of C, whose quotient is cut towards zero.
abbrev pub div_trunc : ℤ → ℕ → ℤ
div_trunc a k = sub_ℕ (pos_part a / k) (neg_part a / k)

abbrev pub mod_trunc : ℤ → ℕ → ℤ
mod_trunc a k = sub_ℕ (pos_part a % k) (neg_part a % k)

unfoldable pub fill_hms : ℕ → Tm → Tm
fill_hms seconds utc =
    let minutes = seconds / 60 in
    record utc { tm_sec = seconds % 60; tm_min = minutes % 60; tm_hour = minutes / 60 }

-- "GMT", in a `struct tm` of zeros.
abbrev pub zero_gmt : Tm
zero_gmt = record {
  tm_sec = 0;
  tm_min = 0;
  tm_hour = 0;
  tm_mday = 0;
  tm_mon = 0;
  tm_year = pos 0;
  tm_wday = 0;
  tm_yday = 0;
  tm_isdst = false;
  tm_gmtoff = pos 0;
  tm_zone = 71 ∷ 77 ∷ 84 ∷ [];
}

-- `seconds` and `days`, both cast to `int`.
unfoldable pub day_and_seconds : ℤ → ℤ × ℤ
day_and_seconds time =
    let seconds = from_int32 (to_int32 (mod_trunc time k_seconds_per_day)) in
    let days = from_int32 (to_int32 (div_trunc time k_seconds_per_day)) in
    if ltb_ℤ seconds (pos 0)
    then (days -ℤ pos 1, seconds +ℤ pos k_seconds_per_day)
    else (days, seconds)

-- The Julian day numbers from the year 0 on for which the sums in `get_year_month_day` are an `int`;
-- outside of them the model of Date says nothing.
abbrev pub first_julian_day : ℕ
first_julian_day = 1721060

abbrev pub julian_day : ℤ → Option ℕ
julian_day j =
    if leb first_julian_day (pos_part j) && ltb (4 * (pos_part j + 32044) + 3) (2 ^ 31)
    then some (pos_part j)
    else none

-- The fields of a day.
unfoldable pub fill_date : ℕ → Bool → Tm → Tm
fill_date j yday utc =
    let date : Date = record { julian_day_number = j } in
    let ymd = year_month_day date in
    let start_of_year = new (ymd.year) 1 1 in
    let dated : Tm = record utc {
      tm_year = pos (ymd.year) -ℤ pos 1900;
      tm_mon = ymd.month - 1;
      tm_mday = ymd.day;
      tm_wday = week_day date;
    } in
    if yday
    then record dated { tm_yday = date.julian_day_number - start_of_year.julian_day_number }
    else dated

unfoldable pub to_utc_time : ℤ → Bool → Option Tm
to_utc_time time yday =
    let (days, seconds) = day_and_seconds time in
    let utc = fill_hms (pos_part seconds) zero_gmt in
    do j ← julian_day (days +ℤ pos k_julian_day_of_1970_01_01); some (fill_date j yday utc)

abbrev pub times : ℤ → ℕ → ℤ
times a k = sub_ℕ (pos_part a * k) (neg_part a * k)

-- From the fields of a date in the year 0 or later.
unfoldable pub seconds_of : ℕ → ℕ → ℕ → ℕ → ℕ → ℕ → ℤ
seconds_of year month day hour minute seconds =
    let date = new year month day in
    let seconds_in_day = hour * 3600 + minute * 60 + seconds in
    let days = pos (date.julian_day_number) -ℤ pos k_julian_day_of_1970_01_01 in
    times days k_seconds_per_day +ℤ pos seconds_in_day

unfoldable pub from_utc_time : Tm → Option ℤ
from_utc_time utc = elim (utc.tm_year +ℤ pos 1900) [
  | pos year ↦ some (seconds_of year (utc.tm_mon + 1) utc.tm_mday utc.tm_hour utc.tm_min utc.tm_sec)
  | _ ↦ none
]
