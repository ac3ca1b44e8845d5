-- ===== src/Windows.antt =====
-- src/db/windows.ts: the service window of 24 hours, kept in the conversation of a guest and by
-- phone for everyone.
pub mod Touching
mod Tests
use nistula_assistance.Prelude.{
  ℕ, ◌+◌, ◌*◌, String, Option, some, none, List, [], ◌∷◌, ◌++◌, Bool, true, false, str_eq, any,
  head?, ltb, leb, select_where, update_where, delete_where, if◌then◌else◌,
}

abbrev pub window_ms : ℕ
window_ms = 24 * 3600000

pub record PhoneWindow : Type 0 where
  pub phone : String
  pub last_inbound_at : ℕ

-- the columns of a conversation that the window is read from
pub record ServiceWindow : Type 0 where
  pub conversation_id : String
  pub service_window_expires_at : Option ℕ

abbrev pub WindowTable : Type 0
WindowTable = List PhoneWindow

abbrev pub greatest : ℕ → ℕ → ℕ
greatest a b = if leb a b then b else a

abbrev pub is_of : String → PhoneWindow → Bool
is_of phone w = str_eq w.phone phone

abbrev pub extend : ℕ → PhoneWindow → PhoneWindow
extend at w = record w { last_inbound_at = greatest w.last_inbound_at at }

unfoldable pub touch_phone_window : String → ℕ → WindowTable → WindowTable
touch_phone_window phone at rows =
    if any (is_of phone) rows
    then update_where (is_of phone) (extend at) rows
    else rows ++ record { phone = phone; last_inbound_at = at } ∷ []

unfoldable pub delete_phone_window : String → WindowTable → WindowTable
delete_phone_window phone rows = delete_where (is_of phone) rows

pub data WindowSource : Type 0 where
  conversation phone_window nowhere : WindowSource

pub record WindowState : Type 0 where
  pub is_open : Bool
  pub source : WindowSource

abbrev pub expires_after : Option ℕ → ℕ → Bool
expires_after none now = false
expires_after (some at) now = ltb now at

abbrev pub expiry_of : Option ServiceWindow → Option ℕ
expiry_of none = none
expiry_of (some c) = c.service_window_expires_at

abbrev pub state_of_phone : ℕ → Option PhoneWindow → WindowState
state_of_phone now none = record { is_open = false; source = nowhere }
state_of_phone now (some w) = record {
  is_open = ltb now (w.last_inbound_at + window_ms);
  source = phone_window;
}

abbrev pub find_window : String → WindowTable → Option PhoneWindow
find_window phone rows = head? (select_where (is_of phone) rows)

unfoldable pub window_state_for :
    Option String → String → ℕ → List ServiceWindow → WindowTable → WindowState
window_state_for (some id) phone now conversations rows = record {
  is_open =
      expires_after
        (expiry_of (head? (select_where (λ c. str_eq c.conversation_id id) conversations))) now;
  source = conversation;
}
window_state_for none phone now conversations rows = state_of_phone now (find_window phone rows)
