-- ===== src/Clock.antt =====
-- src/lib/time.ts: instants as milliseconds since 1970 (none lies before it), the IST wall clock,
-- calendar days, and the night window. A `Date` of the language is the day number of the proleptic
-- Gregorian calendar with the milliseconds of the day; a thrown error is `none`.
pub mod Calendar
pub mod DayText
pub mod Night
mod Tests
use nistula_assistance.Prelude.{
  ℕ, zero, suc, ◌+◌, ◌-◌, ◌*◌, ◌/◌, ◌%◌, Option, some, none, List, [], ◌∷◌, ◌++◌, Bool, true, false,
  not, ◌&&◌, ◌||◌, ◌==◌, ltb, leb, if◌then◌else◌,
}

-- IST_OFFSET_MINUTES * MS_PER_MINUTE
abbrev pub ist_offset_ms : ℕ
ist_offset_ms = 330 * 60000

-- A calendar day, which the program writes as "YYYY-MM-DD".
pub record Day : Type 0 where
  pub year : ℕ
  pub month : ℕ
  pub day : ℕ

unfoldable pub is_leap : ℕ → Bool
is_leap y = (y % 4 == 0 && not (y % 100 == 0)) || y % 400 == 0

unfoldable pub days_in_month : ℕ → ℕ → ℕ
days_in_month y m =
    if m == 2
    then if is_leap y then 29 else 28
    else if m == 4 || (m == 6 || (m == 9 || m == 11))
    then 30
    else 31

-- The days of year 0 to y - 1.
unfoldable pub days_before_year : ℕ → ℕ
days_before_year y = 365 * y + (y + 3) / 4 - (y + 99) / 100 + (y + 399) / 400

unfoldable pub days_before_month : ℕ → ℕ → ℕ
days_before_month y zero = 0
days_before_month y (suc m) = days_before_month y m + (if m == 0 then 0 else days_in_month y m)

-- The number of a day, from 0000-01-01.
unfoldable pub day_number : Day → ℕ
unfolding days_before_year days_before_month days_in_month is_leap
day_number d = days_before_year d.year + days_before_month d.year d.month + (d.day - 1)

abbrev pub epoch_day : ℕ
epoch_day = 719528

unfoldable pub next_day : Day → Day
unfolding days_in_month is_leap
next_day d =
    if ltb d.day (days_in_month d.year d.month)
    then record d { day = d.day + 1 }
    else if ltb d.month 12
    then record { year = d.year; month = d.month + 1; day = 1 }
    else record { year = d.year + 1; month = 1; day = 1 }

unfoldable pub prev_day : Day → Day
unfolding days_in_month is_leap
prev_day d =
    if ltb 1 d.day
    then record d { day = d.day - 1 }
    else if ltb 1 d.month
    then record { year = d.year; month = d.month - 1; day = days_in_month d.year (d.month - 1) }
    else record { year = d.year - 1; month = 12; day = 31 }

-- shiftDay with days forward, and with days back: setUTCDate carries over months and years.
unfoldable pub days_after : Day → ℕ → Day
unfolding next_day
days_after d zero = d
days_after d (suc n) = next_day (days_after d n)

unfoldable pub days_before : Day → ℕ → Day
unfolding prev_day
days_before d zero = d
days_before d (suc n) = prev_day (days_before d n)

-- The fields of istParts that the time of day is read from.
unfoldable pub ist_hour : ℕ → ℕ
ist_hour t = (t + ist_offset_ms) / 3600000 % 24

unfoldable pub ist_minute : ℕ → ℕ
ist_minute t = (t + ist_offset_ms) / 60000 % 60

-- The number of the IST calendar day of an instant.
unfoldable pub ist_day_number : ℕ → ℕ
ist_day_number t = (t + ist_offset_ms) / 86400000 + epoch_day

-- istWallClockToInstant of a day and a time of day, for a wall clock from 1970-01-02 on
unfoldable pub ist_wall_clock_to_instant : Day → ℕ → ℕ → ℕ
unfolding day_number
ist_wall_clock_to_instant d hour minute =
    (day_number d - epoch_day) * 86400000 + hour * 3600000 + minute * 60000 - ist_offset_ms

-- istWeekday: 1970-01-01 was a Thursday
unfoldable pub ist_weekday : ℕ → ℕ
ist_weekday t = ((t + ist_offset_ms) / 86400000 + 4) % 7

-- A decimal digit of a text, and the two of `\d{2}`.
abbrev pub digit? : ℕ → Option ℕ
digit? c = if leb b'0' c && leb c b'9' then some (c - b'0') else none

abbrev pub two_digits : Option ℕ → Option ℕ → Option ℕ
two_digits (some a) (some b) = some (a * 10 + b)
two_digits _ _ = none

abbrev pub valid_time : Option ℕ → Option ℕ → Option (ℕ × ℕ)
valid_time (some h) (some m) = if ltb 23 h || ltb 59 m then none else some (h, m)
valid_time _ _ = none

-- parseHHMM
unfoldable pub parse_hhmm : List ℕ → Option (ℕ × ℕ)
parse_hhmm (a ∷ b ∷ colon ∷ c ∷ d ∷ []) =
    if colon == b':'
    then valid_time (two_digits (digit? a) (digit? b)) (two_digits (digit? c) (digit? d))
    else none
parse_hhmm _ = none

abbrev pub pad_two : ℕ → List ℕ
pad_two n = (b'0' + n / 10) ∷ (b'0' + n % 10) ∷ []

-- formatISTClock
unfoldable pub format_ist_clock : ℕ → List ℕ
unfolding ist_hour ist_minute
format_ist_clock t = pad_two (ist_hour t) ++ b':' ∷ pad_two (ist_minute t)

-- The test of isNightIST on minutes of the day: start inclusive, end exclusive, and the window may
-- wrap midnight.
unfoldable pub in_window : ℕ → ℕ → ℕ → Bool
in_window current start end =
    if start == end
    then false
    else if ltb start end
    then leb start current && ltb current end
    else leb start current || ltb current end

abbrev pub ist_minute_of_day : ℕ → ℕ
ist_minute_of_day t = ist_hour t * 60 + ist_minute t

abbrev pub to_minutes : Option (ℕ × ℕ) → Option ℕ
to_minutes none = none
to_minutes (some (h, m)) = some (h * 60 + m)

abbrev pub night_from : ℕ → Option ℕ → Option ℕ → Option Bool
night_from current (some start) (some end) = some (in_window current start end)
night_from current _ _ = none

unfoldable pub is_night_ist : ℕ → List ℕ → List ℕ → Option Bool
unfolding parse_hhmm in_window ist_hour ist_minute
is_night_ist t night_start night_end =
    night_from (ist_minute_of_day t) (to_minutes (parse_hhmm night_start))
      (to_minutes (parse_hhmm night_end))
