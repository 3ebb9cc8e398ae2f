-- ===== src/Date.antt =====
-- Dates: xinu/system/ascdate.c with the macros of xinu/include/date.h. The result is what the code
-- hands to `sprintf`: the parts of the date and the names' indices. Times are seconds since the start
-- of 1970, as 32-bit words, so a walk of the years takes fewer than 150 rounds.
pub mod Calendar
pub mod Weekday
use xinu_c_mips.Base.{
  ℕ, zero, suc, ◌+◌, ◌-◌, ◌*◌, ◌/◌, ◌%◌, ltb, leb, ◌==◌, if◌then◌else◌, Option, none, some, Bool,
  true, false, ◌&&◌, ◌||◌, [], ◌∷◌, get_or,
}

abbrev pub secperdy : ℕ
secperdy = 86400

abbrev pub secperhr : ℕ
secperhr = 3600

abbrev pub secpermn : ℕ
secpermn = 60

-- `isleap`, right from 1970 to 2099
unfoldable pub isleap : ℕ → Bool
isleap year = year % 4 == 0

-- `DATE_DST_OFF`, `DATE_DST_ON` and `DATE_DST_AUTO`
pub data Daylight : Type 0 where
  dst_off : Daylight
  dst_on : Daylight
  dst_auto : Daylight

-- `Date.dt_msize`; a month past the end of the table has none.
abbrev pub dt_msize : ℕ → ℕ
dt_msize month = get_or (31 ∷ 28 ∷ 31 ∷ 30 ∷ 31 ∷ 30 ∷ 31 ∷ 31 ∷ 30 ∷ 31 ∷ 30 ∷ 31 ∷ []) month 0

-- The days of the first months, with 28 in February.
abbrev pub msize_sum : ℕ → ℕ
msize_sum zero = 0
msize_sum (suc i) = msize_sum i + dt_msize i

abbrev pub year_days : ℕ → ℕ
year_days year = if isleap year then 366 else 365

abbrev pub month_days : ℕ → ℕ → ℕ
month_days year month = if (month == 1) && isleap year then dt_msize month + 1 else dt_msize month

-- The walk of the years, with the seconds that are left.
unfoldable pub year_loop : ℕ → ℕ → ℕ → Option (ℕ × ℕ)
year_loop zero year now = none
year_loop (suc fuel) year now =
    let tmp = year_days year * secperdy in
    let rest = year_loop fuel (year + 1) (now - tmp) in
    if ltb now tmp then some (year, now) else rest

-- The walk of the months, with the number of months still to try.
unfoldable pub month_loop : ℕ → ℕ → ℕ → ℕ → ℕ × ℕ
month_loop zero year month now = (month, now)
month_loop (suc left) year month now =
    let tmp = month_days year month * secperdy in
    let rest = month_loop left year (month + 1) (now - tmp) in
    if ltb now tmp then (month, now) else rest

-- The parts of a time: `days` counts the whole days of the year that have passed.
pub record Civil : Type 0 where
  pub year : ℕ
  pub days : ℕ
  pub month : ℕ
  pub day : ℕ
  pub hour : ℕ
  pub minute : ℕ
  pub second : ℕ

unfoldable pub split_month : ℕ → ℕ → ℕ → ℕ → Civil
split_month year days month now =
    let left = now % secperdy in
    record {
      year = year;
      days = days;
      month = month;
      day = now / secperdy + 1;
      hour = left / secperhr;
      minute = left % secperhr / secpermn;
      second = left % secperhr % secpermn;
    }

unfoldable pub split_year : ℕ → ℕ → Civil
split_year year now =
    let (month, left) = month_loop 12 year 0 now in split_month year (now / secperdy) month left

abbrev pub from_year : Option (ℕ × ℕ) → Option Civil
from_year none = none
from_year (some (year, now)) = some (split_year year now)

unfoldable pub split_time : ℕ → Option Civil
split_time now = from_year (year_loop 150 1970 now)

-- The day of the week of the first of January, 0 for a Sunday, and that of the date.
unfoldable pub shift_of : ℕ → ℕ
shift_of year = 4 + (year - 1970) + (year - 1969) / 4

unfoldable pub jan1_of : ℕ → ℕ
jan1_of year = shift_of year % 7

unfoldable pub dayofweek : Civil → ℕ
dayofweek c = (shift_of c.year + c.days) % 7

-- The second Sunday of March and the first Sunday of November.
unfoldable pub marss_of : ℕ → ℕ
marss_of year =
    let mar1 = (jan1_of year + dt_msize 0 + dt_msize 1 + (if isleap year then 1 else 0)) % 7 in
    if mar1 == 0 then 8 else 15 - mar1

unfoldable pub novfs_of : ℕ → ℕ
novfs_of year =
    let nov1 = (jan1_of year + msize_sum 10 + (if isleap year then 1 else 0)) % 7 in
    if nov1 == 0 then 1 else 8 - nov1

unfoldable pub dst_by_date : Civil → Bool
dst_by_date c =
    if (c.month == 11) || (c.month == 0) || (c.month == 1)
    then false
    else if ltb 2 c.month && ltb c.month 10
    then true
    else if c.month == 2
    then ltb (marss_of c.year) c.day || ((c.day == marss_of c.year) && leb 2 c.hour)
    else if c.month == 10
    then (if ltb (novfs_of c.year) c.day
        then false
        else if (c.day == novfs_of c.year) && leb 1 c.hour
        then false
        else true)
    else false

unfoldable pub dst_of : Daylight → Civil → Bool
dst_of dst_off c = false
dst_of dst_on c = true
dst_of dst_auto c = dst_by_date c

-- One hour ahead, on the next day or in the next month if it must be.
unfoldable pub advance_hour : Civil → Civil
advance_hour c =
    if ltb 23 (c.hour + 1)
    then (if ltb (dt_msize c.month) (c.day + 1)
        then record c { hour = 0; day = 1; month = c.month + 1 }
        else record c { hour = 0; day = c.day + 1 })
    else record c { hour = c.hour + 1 }

-- The values that `ascdate` prints: the day of the week, the parts, and whether it is summer time.
unfoldable pub printed : Daylight → Civil → ℕ × Civil × Bool
printed mode c = let dst = dst_of mode c in (dayofweek c, if dst then advance_hour c else c, dst)

abbrev pub print_all : Daylight → Option Civil → Option (ℕ × Civil × Bool)
print_all mode none = none
print_all mode (some c) = some (printed mode c)

unfoldable pub ascdate : Daylight → ℕ → Option (ℕ × Civil × Bool)
ascdate mode now = print_all mode (split_time now)
