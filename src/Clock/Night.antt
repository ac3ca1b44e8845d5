-- ===== src/Clock/Night.antt =====
-- The night window and the IST clock (isNightIST, formatISTClock, parseHHMM).
use mathlib.Core.Path.{ap₂}
use nistula_assistance.Prelude.{
  ℕ, ◌+◌, ◌*◌, ◌/◌, ◌%◌, ◌<◌, ◌≡◌, ◌≢◌, ap, ◌∙◌, some, List, [], ◌∷◌, Bool, not, arith,
}
use nistula_assistance.Clock.{
  ist_hour, ist_minute, ist_minute_of_day, parse_hhmm, format_ist_clock, in_window, is_night_ist,
  to_minutes, night_from, digit?, two_digits, valid_time,
}

-- Outside a window is inside the window with its ends exchanged: day and night share no minute and
-- leave none out.
in_window_complement :
    (current start end : ℕ)
    → start ≢ end
    → in_window current end start ≡ not (in_window current start end)
unfolding in_window
in_window_complement current start end ne = ground arith

-- Whatever the hour, of two different bounds that parse the window from the first to the second
-- holds exactly when the window from the second to the first does not.
pub is_night_ist_complement :
    (t a b : ℕ) (start end : List ℕ)
    → to_minutes (parse_hhmm start) ≡ some a
    → to_minutes (parse_hhmm end) ≡ some b
    → a ≢ b
    → (night : Bool) × (is_night_ist t start end ≡ some night)
      × (is_night_ist t end start ≡ some (not night))
unfolding is_night_ist
is_night_ist_complement t a b start end ha hb ne = (
  in_window (ist_minute_of_day t) a b,
  rw (ha, hb),
  rw (hb, ha) (rw (in_window_complement (ist_minute_of_day t) a b ne)),
)

ist_hour-lt : (t : ℕ) → ist_hour t < 24
unfolding ist_hour
ist_hour-lt t = omega arith

ist_minute-lt : (t : ℕ) → ist_minute t < 60
unfolding ist_minute
ist_minute-lt t = omega arith

digit?-add : (n : ℕ) → n < 10 → digit? (b'0' + n) ≡ some n
digit?-add n h = ground arith

two_digits-pad_two :
    (n : ℕ) → n < 100 → two_digits (digit? (b'0' + n / 10)) (digit? (b'0' + n % 10)) ≡ some n
two_digits-pad_two n h =
    rw (digit?-add (n / 10) (omega arith), digit?-add (n % 10) (omega arith))
      (ap some (omega arith))

valid_time_of_lt : (h m : ℕ) → h < 24 → m < 60 → valid_time (some h) (some m) ≡ some (h, m)
valid_time_of_lt h m p q = ground arith

parse_hhmm-pad_two :
    (h m : ℕ)
    → h < 24
    → m < 60
    → parse_hhmm ((b'0' + h / 10) ∷ (b'0' + h % 10) ∷ b':' ∷ (b'0' + m / 10) ∷ (b'0' + m % 10) ∷ [])
      ≡ some (h, m)
unfolding parse_hhmm
parse_hhmm-pad_two h m p q =
    ap₂ valid_time (two_digits-pad_two h (omega arith)) (two_digits-pad_two m (omega arith))
    ∙ valid_time_of_lt h m p q

-- The clock that is printed for an instant is read back as the instant's hour and minute.
pub parse_hhmm-format_ist_clock :
    (t : ℕ) → parse_hhmm (format_ist_clock t) ≡ some (ist_hour t, ist_minute t)
unfolding format_ist_clock
parse_hhmm-format_ist_clock t =
    parse_hhmm-pad_two (ist_hour t) (ist_minute t) (ist_hour-lt t) (ist_minute-lt t)

ist_hour-daily : (t : ℕ) → ist_hour (t + 86400000) ≡ ist_hour t
unfolding ist_hour
ist_hour-daily t = omega arith

ist_minute-daily : (t : ℕ) → ist_minute (t + 86400000) ≡ ist_minute t
unfolding ist_minute
ist_minute-daily t = omega arith

-- The window depends on the time of day alone: a day later it answers the same.
pub is_night_ist_daily :
    (t : ℕ) (start end : List ℕ) → is_night_ist (t + 86400000) start end ≡ is_night_ist t start end
unfolding is_night_ist
is_night_ist_daily t start end =
    ap (λ c. night_from c (to_minutes (parse_hhmm start)) (to_minutes (parse_hhmm end)))
      (ap₂ (λ (h m : ℕ). h * 60 + m) (ist_hour-daily t) (ist_minute-daily t))
