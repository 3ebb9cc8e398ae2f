-- ===== src/Date/Calendar.antt =====
-- The parts of a time are those of the calendar: they add up to the time.
use xinu_c_mips.Base.{
  ℕ, zero, suc, ◌+◌, ◌-◌, ◌*◌, ◌^◌, ◌<◌, ◌≤◌, ◌≡◌, refl, ap, ltb, Option, none, some, arith,
  Bool-cases, inl, inr, ltb→lt, ltb→le,
}
use xinu_c_mips.Date.{
  secperdy, year_days, month_days, year_loop, month_loop, Civil, split_month, split_year, from_year,
  split_time,
}

-- The days from the start of 1970 to the start of the year `n` years later, and from the start of a
-- year to the start of a month.
abbrev pub days_before : ℕ → ℕ
days_before zero = 0
days_before (suc n) = days_before n + year_days (1970 + n)

abbrev pub days_in_year_before : ℕ → ℕ → ℕ
days_in_year_before year zero = 0
days_in_year_before year (suc month) = days_in_year_before year month + month_days year month

year_days_range : (year : ℕ) → (365 ≤ year_days year) × (year_days year ≤ 366)
year_days_range year = ground arith

-- A year and the seconds of it that have passed.
abbrev IsYear : ℕ → Option (ℕ × ℕ) → Type 0
IsYear total none = ⊥
IsYear total (some (year, now)) =
    (n : ℕ) × (year ≡ 1970 + n)
    × (now + days_before n * secperdy ≡ total)
    × (now < year_days year * secperdy)

year_loop-IsYear :
    (total fuel n year now : ℕ)
    → year ≡ 1970 + n
    → now < fuel * 31536000
    → now + days_before n * secperdy ≡ total
    → IsYear total (year_loop fuel year now)
unfolding year_loop
year_loop-IsYear total zero n year now e enough h = absurd (omega arith)
year_loop-IsYear total (suc fuel) n year now e enough h =
    elim (Bool-cases (ltb now (year_days year * secperdy))) [
      | inl w ↦ rw w (n, e, h, ltb→lt now (year_days year * secperdy) w)
      | inr w ↦ rw w (
          year_loop-IsYear total fuel (suc n) (year + 1) (now - year_days year * secperdy)
            (omega arith)
            (omega (arith, ltb→le now (year_days year * secperdy) w, year_days_range year))
            (omega (arith, h, ltb→le now (year_days year * secperdy) w, ap year_days e)))
    ]

-- A month, at most `m`, and the seconds of it that have passed.
abbrev IsMonth : ℕ → ℕ → ℕ × ℕ → Type 0
IsMonth year total (month, now) =
    (month < 12)
    × (now + days_in_year_before year month * secperdy ≡ total)
    × (now < month_days year month * secperdy)

month_loop-IsMonth :
    (year total left month now : ℕ)
    → month + left ≡ 12
    → total < days_in_year_before year 12 * secperdy
    → now + days_in_year_before year month * secperdy ≡ total
    → IsMonth year total (month_loop left year month now)
unfolding month_loop
month_loop-IsMonth year total zero month now e fits h =
    let at : days_in_year_before year month ≡ days_in_year_before year 12 =
      ap (days_in_year_before year) {y = 12} (omega arith) in
    absurd (omega (arith, at))
month_loop-IsMonth year total (suc left) month now e fits h =
    elim (Bool-cases (ltb now (month_days year month * secperdy))) [
      | inl w ↦ rw w (omega arith, h, ltb→lt now (month_days year month * secperdy) w)
      | inr w ↦
          let step : days_in_year_before year (month + 1)
              ≡ days_in_year_before year month + month_days year month =
            ap (days_in_year_before year) {y = suc month} (omega arith) in
          rw w (
            month_loop-IsMonth year total left (month + 1) (now - month_days year month * secperdy)
              (omega arith) fits
              (omega (arith, step, h, ltb→le now (month_days year month * secperdy) w)))
    ]

-- The months make up the year.
months_sum : (year : ℕ) → days_in_year_before year 12 ≡ year_days year
months_sum year = ground arith

-- The parts name a day of the calendar and a time of it: `n` years after 1970, with the whole days of
-- the year that have passed.
abbrev pub IsCivil : ℕ → Civil → Type 0
IsCivil now c =
    (n : ℕ) × (c.year ≡ 1970 + n)
    × (c.month < 12)
    × (1 ≤ c.day)
    × (c.day ≤ month_days c.year c.month)
    × (c.hour < 24)
    × (c.minute < 60)
    × (c.second < 60)
    × (c.days + 1 ≡ days_in_year_before c.year c.month + c.day)
    × (((days_before n + c.days) * 24 + c.hour) * 3600 + c.minute * 60 + c.second ≡ now)

abbrev Splits : ℕ → Option Civil → Type 0
Splits now none = ⊥
Splits now (some c) = IsCivil now c

split_year-IsCivil :
    (total n year now : ℕ)
    → year ≡ 1970 + n
    → now + days_before n * secperdy ≡ total
    → now < year_days year * secperdy
    → IsCivil total (split_year year now)
unfolding split_year split_month
split_year-IsCivil total n year now e h fits =
    let m =
      month_loop-IsMonth year now 12 0 now refl (omega (arith, months_sum year)) (omega arith) in
    let month = (month_loop 12 year 0 now).0 in
    let left = (month_loop 12 year 0 now).1 in
    (
      n,
      e,
      m.0,
      omega arith,
      omega (arith, m.2),
      omega arith,
      omega arith,
      omega arith,
      omega (arith, m.1),
      omega (arith, m.1),
    )

from_year-Splits : (now : ℕ) (o : Option (ℕ × ℕ)) → IsYear now o → Splits now (from_year o)
from_year-Splits now none y = absurd y
from_year-Splits now (some (year, left)) y = split_year-IsCivil now y.0 year left y.1 y.2 y.3

-- The code splits every 32-bit time into a date and a time of day that name it: the year, month, day,
-- hour, minute and second are in their ranges, in a calendar that has a leap year every four years,
-- and counting back from them gives the time. Its walk of the years ends.
pub split_time-IsCivil :
    (now : ℕ) → now < 2 ^ 32 → (c : Civil) × (split_time now ≡ some c) × IsCivil now c
unfolding split_time
split_time-IsCivil now h = found (from_year (year_loop 150 1970 now)) refl (
    from_year-Splits now (year_loop 150 1970 now)
      (year_loop-IsYear now 150 0 1970 now refl (omega arith) (omega arith)))
  where
    found :
        (o : Option Civil)
        → from_year (year_loop 150 1970 now) ≡ o
        → Splits now o
        → (c : Civil) × (from_year (year_loop 150 1970 now) ≡ some c) × IsCivil now c
    found none e s = absurd s
    found (some c) e s = (c, e, s)
