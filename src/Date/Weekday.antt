-- ===== src/Date/Weekday.antt =====
-- The day of the week, the Sundays of the summer time, and what the shift of an hour prints.
use xinu_c_mips.Base.{
  ℕ, zero, suc, ◌+◌, ◌-◌, ◌/◌, ◌%◌, ◌<◌, ◌≤◌, ◌≡◌, refl, ap, ltb, Bool, true, false, List, [], ◌∷◌,
  get_or, length, arith, ne→==, Bool-cases, inl, inr, ltb→le,
}
use xinu_c_mips.Date.{
  isleap, dt_msize, month_days, Civil, dst_auto, shift_of, jan1_of, dayofweek, marss_of, novfs_of,
  dst_by_date, dst_of, advance_hour, printed,
}
use xinu_c_mips.Date.Calendar.{days_before, days_in_year_before, IsCivil}

shift_of_lem : (n : ℕ) → shift_of (1970 + n) % 7 ≡ (4 + days_before n) % 7
unfolding shift_of isleap
shift_of_lem zero = refl
shift_of_lem (suc n) = ground (arith, shift_of_lem n)

-- The day of the week of a time's date is that of its day, counting from the first of January 1970,
-- which was a Thursday.
pub dayofweek-IsCivil : (now : ℕ) (c : Civil) → IsCivil now c → dayofweek c ≡ (now / 86400 + 4) % 7
unfolding dayofweek
dayofweek-IsCivil now c h = omega (arith, shift_of_lem h.0, ap shift_of h.1, h.9, h.5, h.6, h.7)

-- In every year, the day that the code takes for the start of the summer time is the second Sunday of
-- March, and the day for its end is the first Sunday of November.
pub dst_sundays :
    (year : ℕ)
    → (8 ≤ marss_of year)
      × (marss_of year ≤ 14)
      × ((shift_of year + (days_in_year_before year 2 + (marss_of year - 1))) % 7 ≡ 0)
      × (1 ≤ novfs_of year)
      × (novfs_of year ≤ 7)
      × ((shift_of year + (days_in_year_before year 10 + (novfs_of year - 1))) % 7 ≡ 0)
unfolding marss_of novfs_of jan1_of isleap
dst_sundays year = ground arith

-- The values that index the tables of names and that are printed are in their ranges.
abbrev pub InRange : ℕ × Civil × Bool → Type 0
InRange (w, c, dst) =
    (w < 7)
    × (c.month < 12)
    × (1 ≤ c.day)
    × (c.day ≤ month_days c.year c.month)
    × (c.hour < 24)
    × (c.minute < 60)
    × (c.second < 60)

dst_by_date_months :
    (c : Civil) → c.month < 12 → dst_by_date c ≡ true → (2 ≤ c.month) × (c.month ≤ 10)
unfolding dst_by_date
dst_by_date_months c h e = ground arith

AllPositive : List ℕ → Type 0
AllPositive [] = Unit {0}
AllPositive (x ∷ xs) = (1 ≤ x) × AllPositive xs

get_or-positive : (xs : List ℕ) (i : ℕ) → AllPositive xs → i < length xs → 1 ≤ get_or xs i 0
unfolding AllPositive
get_or-positive [] i a h = absurd (omega arith)
get_or-positive (x ∷ xs) zero a h = a.0
get_or-positive (x ∷ xs) (suc i) a h = get_or-positive xs i a.1 (omega arith)

dt_msize-positive : (month : ℕ) → month < 12 → 1 ≤ dt_msize month
unfolding AllPositive
dt_msize-positive month h =
    get_or-positive (31 ∷ 28 ∷ 31 ∷ 30 ∷ 31 ∷ 30 ∷ 31 ∷ 31 ∷ 30 ∷ 31 ∷ 30 ∷ 31 ∷ []) month
      (omega arith) h

month_days_plain : (year month : ℕ) → 2 ≤ month → month_days year month ≡ dt_msize month
month_days_plain year month h = rw (ne→== month 1 (omega arith)) refl

advance_hour-InRange :
    (c : Civil) (w : ℕ) (b : Bool)
    → 2 ≤ c.month
    → c.month ≤ 10
    → InRange (w, c, b)
    → InRange (w, advance_hour c, b)
unfolding advance_hour
advance_hour-InRange c w b from upto r = elim (Bool-cases (ltb 23 (c.hour + 1))) [
  | inl late ↦ elim (Bool-cases (ltb (dt_msize c.month) (c.day + 1))) [
    | inl over ↦
        let next = month_days_plain c.year (c.month + 1) (omega arith) in
        rw (late, over)
          (
            r.0,
            omega arith,
            omega arith,
            omega (arith, next, dt_msize-positive (c.month + 1) (omega arith)),
            omega arith,
            r.5,
            r.6,
          )
    | inr within ↦
        rw (late, within)
          (
            r.0,
            r.1,
            omega arith,
            omega (
              arith,
              ltb→le (dt_msize c.month) (c.day + 1) within,
              month_days_plain c.year c.month from,
            ),
            omega arith,
            r.5,
            r.6,
          )
  ]
  | inr early ↦ rw early (r.0, r.1, r.2, r.3, omega (arith, ltb→le 23 (c.hour + 1) early), r.5, r.6)
]

dayofweek_range : (c : Civil) → dayofweek c < 7
unfolding dayofweek
dayofweek_range c = omega arith

-- What `ascdate` prints when it finds out by the date whether it is summer time is in range: the
-- indices of the names, the day of the month, the hour, the minute and the second, also when the
-- shift of an hour moves the date into the next day or month.
pub printed-InRange : (now : ℕ) (c : Civil) → IsCivil now c → InRange (printed dst_auto c)
unfolding printed dst_of
printed-InRange now c h =
    let r : (b : Bool) → InRange (dayofweek c, c, b) =
      λ b. (dayofweek_range c, h.2, h.3, h.4, h.5, h.6, h.7) in
    elim (Bool-cases (dst_by_date c)) [
      | inl summer ↦
          let m = dst_by_date_months c h.2 summer in
          rw summer (advance_hour-InRange c (dayofweek c) true m.0 m.1 (r true))
      | inr winter ↦ rw winter (r false)
    ]
