-- ===== src/Clock/Tests.antt =====
-- The clock at concrete inputs: New Year's night in Goa, a leap day, the default night window.
use nistula_assistance.Prelude.{◌≡◌, refl, arith}
use nistula_assistance.Clock.{Day, day_number, days_after, days_before, days_in_month, is_leap}
use nistula_assistance.Clock.Calendar.{IsDay}

abbrev new_year : Day
new_year = record { year = 2026; month = 1; day = 1 }

abbrev leap_day : Day
leap_day = record { year = 2028; month = 2; day = 29 }

new_year-IsDay : IsDay new_year
unfolding days_in_month is_leap
new_year-IsDay = ground arith

leap_day-IsDay : IsDay leap_day
unfolding days_in_month is_leap
leap_day-IsDay = ground arith

-- Two days on from the last but one day of 2025, and back.
night_before : (days_before new_year 2).day ≡ 30
unfolding days_before
night_before = refl

after_leap_day : (days_after leap_day 2).month ≡ 3
unfolding days_after
after_leap_day = refl

new_year_number : day_number new_year ≡ 739982
unfolding day_number
new_year_number = refl
