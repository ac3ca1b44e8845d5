-- ===== src/Turn/Debounce.antt =====
-- src/brain/debounce.ts, and createRateWindow of src/brain/policy.ts.
use nistula_assistance.Prelude.{
  ℕ, ◌+◌, ◌*◌, String, List, [], ◌∷◌, ◌++◌, Bool, ◌||◌, ltb, leb, str_eq, codes_eq, any, ◌&&◌,
  length, select_where, update_where, delete_where, if◌then◌else◌,
}

-- DEBOUNCE_WINDOWS, without the cron text
pub record DebounceWindows : Type 0 where
  pub quiet_ms : ℕ
  pub max_wait_ms : ℕ
  pub sweep_after_ms : ℕ

abbrev pub debounce_windows : DebounceWindows
debounce_windows = record { quiet_ms = 15000; max_wait_ms = 45000; sweep_after_ms = 60000 }

pub data DebounceDecision : Type 0 where
  process : DebounceDecision
  requeue : ℕ → DebounceDecision

-- An age is negative for a message later than now, and then is below each window.
abbrev pub is_aged : ℕ → ℕ → ℕ → Bool
is_aged now at window = leb (at + window) now

unfoldable pub decide_debounce : ℕ → ℕ → ℕ → ℕ → ℕ → DebounceDecision
decide_debounce newest_at oldest_at now quiet_ms max_wait_ms =
    if is_aged now newest_at quiet_ms || is_aged now oldest_at max_wait_ms
    then process
    else requeue (newest_at + quiet_ms + 1000)

-- RATE_LIMIT
abbrev pub max_messages : ℕ
max_messages = 20

abbrev pub rate_window_ms : ℕ
rate_window_ms = 5 * 60000

-- what the window holds of a message: its phone, its id and its time
pub record RateEntry : Type 0 where
  pub phone : List ℕ
  pub message_id : String
  pub at : ℕ

abbrev pub RateWindow : Type 0
RateWindow = List RateEntry

abbrev pub is_entry : List ℕ → String → RateEntry → Bool
is_entry phone id e = codes_eq e.phone phone && str_eq e.message_id id

-- `entries.set(id, at)`
unfoldable pub set_entry : List ℕ → String → ℕ → RateWindow → RateWindow
set_entry phone id at window =
    if any (is_entry phone id) window
    then update_where (is_entry phone id) (λ e. record e { at = at }) window
    else window ++ record { phone = phone; message_id = id; at = at } ∷ []

abbrev pub is_pruned : List ℕ → ℕ → RateEntry → Bool
is_pruned phone now e = codes_eq e.phone phone && ltb (e.at + rate_window_ms) now

unfoldable pub prune : List ℕ → ℕ → RateWindow → RateWindow
prune phone now window = delete_where (is_pruned phone now) window

unfoldable pub feed_all : List ℕ → List (String × ℕ) → RateWindow → RateWindow
unfolding set_entry
feed_all phone [] window = window
feed_all phone ((id, at) ∷ incoming) window = feed_all phone incoming (set_entry phone id at window)

unfoldable pub feed : List ℕ → List (String × ℕ) → ℕ → RateWindow → RateWindow
unfolding feed_all prune
feed phone incoming now window = prune phone now (feed_all phone incoming window)

unfoldable pub is_over_limit : List ℕ → ℕ → RateWindow → Bool
unfolding prune
is_over_limit phone now window =
    ltb max_messages (length (select_where (λ e. codes_eq e.phone phone) (prune phone now window)))
