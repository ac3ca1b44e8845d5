-- ===== src/Windows/Tests.antt =====
-- Two inbounds of a number that are delivered in the wrong order.
use nistula_assistance.Prelude.{
  ◌≡◌, refl, none, true, any, List, [], ◌∷◌, select_where, update_where,
}
use nistula_assistance.Windows.{window_state_for}
use nistula_assistance.Windows.Touching.{Inbound, touch_all, is_recent, window_state_for-recent}

abbrev late : List Inbound
late = ("+91900", 90000000) ∷ ("+91901", 5) ∷ ("+91900", 1000) ∷ []

still_open : (window_state_for none "+91900" 90000001 [] (touch_all late [])).is_open ≡ true
unfolding window_state_for touch_all select_where update_where
still_open = refl

window_state_for-recent_example :
    (window_state_for none "+91900" 90000001 [] (touch_all late [])).is_open
    ≡ any (is_recent "+91900" 90000001) late
window_state_for-recent_example = window_state_for-recent "+91900" 90000001 [] late
