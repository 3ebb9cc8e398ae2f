-- ===== src/Examples/Calendar.antt =====
-- The theorems about dates at a moment: 29 February 2000, 23:59:59.
use xinu_c_mips.Base.{ℕ, ◌+◌, ◌/◌, ◌%◌, ◌≤◌, ◌≡◌, ◌-◌, refl, some, arith}
use xinu_c_mips.Date.{
  Civil, split_time, dayofweek, isleap, dst_auto, printed, shift_of, marss_of, novfs_of,
}
use xinu_c_mips.Date.Calendar.{IsCivil, split_time-IsCivil, days_in_year_before}
use xinu_c_mips.Date.Weekday.{dayofweek-IsCivil, dst_sundays, InRange, printed-InRange}

abbrev moment : ℕ
moment = 951868799

abbrev leap_day : Civil
leap_day = record {
  year = 2000;
  days = 59;
  month = 1;
  day = 29;
  hour = 23;
  minute = 59;
  second = 59;
}

leap_day-IsCivil : IsCivil moment leap_day
unfolding isleap
leap_day-IsCivil = (
  30,
  refl,
  omega arith,
  omega arith,
  omega arith,
  omega arith,
  omega arith,
  omega arith,
  refl,
  refl,
)

split_time-IsCivil_example : (c : Civil) × (split_time moment ≡ some c) × IsCivil moment c
split_time-IsCivil_example = split_time-IsCivil moment (omega arith)

dayofweek-IsCivil_example : dayofweek leap_day ≡ (moment / 86400 + 4) % 7
dayofweek-IsCivil_example = dayofweek-IsCivil moment leap_day leap_day-IsCivil

printed-InRange_example : InRange (printed dst_auto leap_day)
printed-InRange_example = printed-InRange moment leap_day leap_day-IsCivil

dst_sundays_example :
    (8 ≤ marss_of 2000)
    × (marss_of 2000 ≤ 14)
    × ((shift_of 2000 + (days_in_year_before 2000 2 + (marss_of 2000 - 1))) % 7 ≡ 0)
    × (1 ≤ novfs_of 2000)
    × (novfs_of 2000 ≤ 7)
    × ((shift_of 2000 + (days_in_year_before 2000 10 + (novfs_of 2000 - 1))) % 7 ≡ 0)
dst_sundays_example = dst_sundays 2000
