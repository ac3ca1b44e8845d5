-- ===== src/Clock/Calendar.antt =====
-- The day arithmetic of shiftDay and istWallClockToInstant (src/lib/time.ts).
use native.Mathlib.Numerals.{add-one}
use nistula_assistance.Prelude.{
  ℕ, zero, suc, ◌+◌, ◌-◌, ◌*◌, ◌/◌, ◌%◌, ◌≤◌, ◌<◌, ◌≡◌, ◌⊎◌, inl, inr, refl, sym, ◌∙◌, ap, arith,
  if◌then◌else◌, Bool-cases,
}
use nistula_assistance.Clock.{
  Day, is_leap, days_in_month, days_before_year, days_before_month, day_number, next_day, prev_day,
  days_after, days_before, ist_wall_clock_to_instant, ist_hour, ist_minute, ist_day_number,
  epoch_day, ist_offset_ms,
}

-- A day of the calendar.
pub record IsDay (d : Day) : Type 0 where
  pub month_pos : 1 ≤ d.month
  pub month_le : d.month ≤ 12
  pub day_pos : 1 ≤ d.day
  pub day_le : d.day ≤ days_in_month d.year d.month

pub days_before_year-suc :
    (y : ℕ) → days_before_year (y + 1) ≡ days_before_year y + (if is_leap y then 366 else 365)
unfolding days_before_year is_leap
days_before_year-suc y = ground arith

days_before_month_all : (y : ℕ) → days_before_month y 13 ≡ (if is_leap y then 366 else 365)
unfolding days_before_month days_in_month
days_before_month_all y = elim (Bool-cases (is_leap y)) [
  | inl leap ↦ rw leap
  | inr common ↦ rw common
]

pub days_before_month-suc :
    (y m : ℕ) → 1 ≤ m → days_before_month y (m + 1) ≡ days_before_month y m + days_in_month y m
unfolding days_before_month
days_before_month-suc y m h = rw add-one (ground arith)

pub december : (y : ℕ) → days_before_month y 12 + 31 ≡ (if is_leap y then 366 else 365)
unfolding days_in_month
december y = rw (← days_before_month_all y) (sym (days_before_month-suc y 12 (omega arith)))

january : (y : ℕ) → days_before_month y 1 ≡ 0
unfolding days_before_month
january y = refl

days_in_month-pos : (y m : ℕ) → 1 ≤ days_in_month y m
unfolding days_in_month
days_in_month-pos y m = ground arith

pub days_in_month-le : (y m : ℕ) → days_in_month y m ≤ 31
unfolding days_in_month
days_in_month-le y m = ground arith

-- The three ways in which the next day is written.
next_day-cases :
    (d : Day)
    → IsDay d
    → ((d.day < days_in_month d.year d.month) × (next_day d ≡ record d { day = d.day + 1 }))
      ⊎ (((d.day ≡ days_in_month d.year d.month)
            × (d.month < 12)
            × (next_day d ≡ record { year = d.year; month = d.month + 1; day = 1 }))
          ⊎ ((d.day ≡ 31)
              × (d.month ≡ 12)
              × (next_day d ≡ record { year = d.year + 1; month = 1; day = 1 })))
unfolding next_day
next_day-cases d h = ground arith

next_day-IsDay : (d : Day) → IsDay d → IsDay (next_day d)
next_day-IsDay d h = elim (next_day-cases d h) [
  | inl (lt, e) ↦ rw e (ground arith)
  | inr (inl (eq, lt, e)) ↦ rw e (ground (arith, days_in_month-pos d.year (d.month + 1)))
  | inr (inr (eq, eq', e)) ↦ rw e (ground (arith, days_in_month-pos (d.year + 1) 1))
]

-- Going one day forward adds one to the number of the day.
day_number-next_day : (d : Day) → IsDay d → day_number (next_day d) ≡ day_number d + 1
unfolding day_number
day_number-next_day d h = elim (next_day-cases d h) [
  | inl (lt, e) ↦ rw e (omega arith)
  | inr (inl (eq, lt, e)) ↦ rw e (omega (arith, days_before_month-suc d.year d.month))
  | inr (inr (eq, eq', e)) ↦
      rw (e, eq', eq)
        (omega (
          arith,
          days_before_year-suc d.year,
          days_before_month_all d.year,
          december d.year,
          january (d.year + 1),
        ))
]

prev_day-cases :
    (d : Day)
    → IsDay d
    → ((1 < d.day) × (prev_day d ≡ record d { day = d.day - 1 }))
      ⊎ (((d.day ≡ 1)
            × (1 < d.month)
            × (prev_day d ≡ record {
              year = d.year;
              month = d.month - 1;
              day = days_in_month d.year (d.month - 1);
            }))
          ⊎ ((d.day ≡ 1)
              × (d.month ≡ 1)
              × (prev_day d ≡ record { year = d.year - 1; month = 12; day = 31 })))
unfolding prev_day
prev_day-cases d h = ground arith

pub december_days : (y : ℕ) → days_in_month y 12 ≡ 31
unfolding days_in_month
december_days y = refl

pub prev_day-IsDay : (d : Day) → IsDay d → IsDay (prev_day d)
prev_day-IsDay d h = elim (prev_day-cases d h) [
  | inl (lt, e) ↦ rw e (ground arith)
  | inr (inl (eq, lt, e)) ↦ rw e (ground (arith, days_in_month-pos d.year (d.month - 1)))
  | inr (inr (eq, eq', e)) ↦ rw e (ground (arith, december_days (d.year - 1)))
]

prev_day-year : (d : Day) → IsDay d → d.year ≤ (prev_day d).year + 1
prev_day-year d h = elim (prev_day-cases d h) [
  | inl (lt, e) ↦ rw e (omega arith)
  | inr (inl (eq, lt, e)) ↦ rw e (omega arith)
  | inr (inr (eq, eq', e)) ↦ rw e (omega arith)
]

days_before_month-pred :
    (y m : ℕ)
    → 1 < m
    → days_before_month y m ≡ days_before_month y (m - 1) + days_in_month y (m - 1)
days_before_month-pred y m h =
    let e : m ≡ m - 1 + 1 = omega arith in
    ap (days_before_month y) e ∙ days_before_month-suc y (m - 1) (omega arith)

days_before_year-pred :
    (y : ℕ)
    → 1 ≤ y
    → days_before_year y ≡ days_before_year (y - 1) + (if is_leap (y - 1) then 366 else 365)
days_before_year-pred y h =
    let e : y ≡ y - 1 + 1 = omega arith in ap days_before_year e ∙ days_before_year-suc (y - 1)

-- Going one day back takes one from the number of the day.
day_number-prev_day : (d : Day) → IsDay d → 1 ≤ d.year → day_number (prev_day d) + 1 ≡ day_number d
unfolding day_number
day_number-prev_day d h pos = elim (prev_day-cases d h) [
  | inl (lt, e) ↦ rw e (omega arith)
  | inr (inl (eq, lt, e)) ↦ rw e (
      omega
        (arith, days_before_month-pred d.year d.month lt, days_in_month-pos d.year (d.month - 1)))
  | inr (inr (eq, eq', e)) ↦
      rw (e, eq', eq)
        (omega (arith, days_before_year-pred d.year pos, december (d.year - 1), january d.year))
]

days_after-IsDay : (d : Day) (n : ℕ) → IsDay d → IsDay (days_after d n)
unfolding days_after
days_after-IsDay d zero h = h
days_after-IsDay d (suc n) h = next_day-IsDay (days_after d n) (days_after-IsDay d n h)

day_number-days_after : (d : Day) (n : ℕ) → IsDay d → day_number (days_after d n) ≡ day_number d + n
unfolding days_after
day_number-days_after d zero h = omega arith
day_number-days_after d (suc n) h = omega (
  arith,
  day_number-next_day (days_after d n) (days_after-IsDay d n h),
  day_number-days_after d n h,
)

days_before-IsDay : (d : Day) (n : ℕ) → IsDay d → IsDay (days_before d n)
unfolding days_before
days_before-IsDay d zero h = h
days_before-IsDay d (suc n) h = prev_day-IsDay (days_before d n) (days_before-IsDay d n h)

days_before-year : (d : Day) (n : ℕ) → IsDay d → d.year ≤ (days_before d n).year + n
unfolding days_before
days_before-year d zero h = omega arith
days_before-year d (suc n) h =
    omega (arith, prev_day-year (days_before d n) (days_before-IsDay d n h), days_before-year d n h)

day_number-days_before :
    (d : Day) (n : ℕ) → IsDay d → n ≤ d.year → day_number (days_before d n) + n ≡ day_number d
unfolding days_before
day_number-days_before d zero h le = omega arith
day_number-days_before d (suc n) h le = omega (
  arith,
  day_number-prev_day (days_before d n) (days_before-IsDay d n h)
      (omega (arith, days_before-year d n h)),
  day_number-days_before d n h (omega arith),
)

-- Shifting a calendar day by n days, forward or back, gives a calendar day whose number differs by
-- exactly n: months, leap years and year ends included.
pub shift_day_exact :
    (d : Day) (n : ℕ)
    → IsDay d
    → n ≤ d.year
    → (IsDay (days_after d n) × (day_number (days_after d n) ≡ day_number d + n))
      × (IsDay (days_before d n) × (day_number (days_before d n) + n ≡ day_number d))
shift_day_exact d n h le = (
  (days_after-IsDay d n h, day_number-days_after d n h),
  (days_before-IsDay d n h, day_number-days_before d n h le),
)

abbrev clock_ms : ℕ → ℕ → ℕ → ℕ
clock_ms n hour minute = (n - epoch_day) * 86400000 + hour * 3600000 + minute * 60000

module _ (n hour minute : ℕ) (h : hour < 24) (m : minute < 60) where
  clock_ms-hour : clock_ms n hour minute / 3600000 % 24 ≡ hour
  clock_ms-hour = omega arith

  clock_ms-minute : clock_ms n hour minute / 60000 % 60 ≡ minute
  clock_ms-minute = omega arith

  clock_ms-day : clock_ms n hour minute / 86400000 ≡ n - epoch_day
  clock_ms-day = omega arith

ist_wall_clock-ms :
    (d : Day) (hour minute : ℕ)
    → epoch_day < day_number d
    → ist_wall_clock_to_instant d hour minute + ist_offset_ms ≡ clock_ms (day_number d) hour minute
unfolding ist_wall_clock_to_instant
ist_wall_clock-ms d hour minute after = omega arith

-- An instant that is made from a calendar day and a time of day is read back as that hour, that
-- minute and that day, for every wall clock after the first day of 1970.
pub ist_wall_clock_roundtrip :
    (d : Day) (hour minute : ℕ)
    → epoch_day < day_number d
    → hour < 24
    → minute < 60
    → let t = ist_wall_clock_to_instant d hour minute in
      (ist_hour t ≡ hour) × (ist_minute t ≡ minute) × (ist_day_number t ≡ day_number d)
unfolding ist_hour ist_minute ist_day_number
ist_wall_clock_roundtrip d hour minute after h m =
    let e = ist_wall_clock-ms d hour minute after in
    (
      rw e (clock_ms-hour (day_number d) hour minute h m),
      rw e (clock_ms-minute (day_number d) hour minute h m),
      rw e (omega (arith, clock_ms-day (day_number d) hour minute h m)),
    )
