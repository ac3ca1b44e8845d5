-- ===== src/Windows/Touching.antt =====
-- Webhooks come in any order (touchPhoneWindow): the window of a phone is open exactly while some
-- inbound of it is less than a day old.
use nistula_assistance.Prelude.{
  ℕ, ◌+◌, ◌≡◌, inl, inr, refl, sym, ap, ◌∙◌, String, none, List, [], ◌∷◌, ◌++◌, Bool, true, false,
  ◌&&◌, ◌||◌, arith, str_eq, eq_iff, any, ltb, select_where, update_where, Bool-cases,
}
use nistula_assistance.Windows.{
  window_ms, ServiceWindow, WindowTable, is_of, extend, touch_phone_window, state_of_phone,
  find_window, window_state_for,
}

-- The inbound messages so far, each with its phone and its time, in the order of their arrival here.
abbrev pub Inbound : Type 0
Inbound = String × ℕ

unfoldable pub touch_all : List Inbound → WindowTable → WindowTable
unfolding touch_phone_window
touch_all [] rows = rows
touch_all ((phone, at) ∷ inbounds) rows = touch_all inbounds (touch_phone_window phone at rows)

abbrev pub is_recent : String → ℕ → Inbound → Bool
is_recent phone now (from, at) = str_eq from phone && ltb now (at + window_ms)

abbrev open_for : String → ℕ → WindowTable → Bool
open_for phone now rows = (state_of_phone now (find_window phone rows)).is_open

find_window-extend :
    (phone : String) (now at : ℕ) (rows : WindowTable)
    → any (is_of phone) rows ≡ true
    → open_for phone now (update_where (is_of phone) (extend at) rows)
      ≡ (open_for phone now rows || ltb now (at + window_ms))
unfolding select_where update_where
find_window-extend phone now at [] h = absurd (ground arith)
find_window-extend phone now at (w ∷ rows) h = elim (Bool-cases (str_eq w.phone phone)) [
  | inl hit ↦ ground arith
  | inr miss ↦ ground (arith, find_window-extend phone now at rows)
]

find_window-other :
    (phone other : String) (now at : ℕ) (rows : WindowTable)
    → str_eq other phone ≡ false
    → open_for phone now (update_where (is_of other) (extend at) rows) ≡ open_for phone now rows
unfolding select_where update_where
find_window-other phone other now at [] h = refl
find_window-other phone other now at (w ∷ rows) h = elim (Bool-cases (str_eq w.phone other)) [
  | inl hit ↦
      let same : w.phone ≡ other = (eq_iff w.phone other).0 hit in
      let apart : str_eq w.phone phone ≡ false = ap (λ p. str_eq p phone) same ∙ h in
      ground (arith, apart, hit, find_window-other phone other now at rows h)
  | inr miss ↦ ground (arith, find_window-other phone other now at rows h)
]

find_window-append :
    (phone other : String) (now at : ℕ) (rows : WindowTable)
    → any (is_of other) rows ≡ false
    → open_for phone now (rows ++ record { phone = other; last_inbound_at = at } ∷ [])
      ≡ (open_for phone now rows || is_recent phone now (other, at))
unfolding select_where
find_window-append phone other now at [] h = ground arith
find_window-append phone other now at (w ∷ rows) h = elim (Bool-cases (str_eq w.phone phone)) [
  | inl hit ↦
      let same : w.phone ≡ phone = (eq_iff w.phone phone).0 hit in
      elim (Bool-cases (str_eq other phone)) [
        | inl one ↦
            let equal : other ≡ phone = (eq_iff other phone).0 one in
            let met : str_eq w.phone other ≡ true = (eq_iff w.phone other).1 (same ∙ sym equal) in
            absurd (ground (arith, met))
        | inr two ↦ ground (arith, two, hit)
      ]
  | inr miss ↦ ground (arith, miss, find_window-append phone other now at rows)
]

touch-recent :
    (phone : String) (now : ℕ) (inbound : Inbound) (rows : WindowTable)
    → open_for phone now (touch_phone_window inbound.0 inbound.1 rows)
      ≡ (open_for phone now rows || is_recent phone now inbound)
unfolding touch_phone_window
touch-recent phone now (other, at) rows = elim (Bool-cases (any (is_of other) rows)) [
  | inr fresh ↦ rw fresh (find_window-append phone other now at rows fresh)
  | inl known ↦ elim (Bool-cases (str_eq other phone)) [
    | inr two ↦ rw (known, two) (find_window-other phone other now at rows two ∙ ground arith)
    | inl one ↦
        let same : other ≡ phone = (eq_iff other phone).0 one in
        rw (known, one)
          (ap (λ p. open_for phone now (update_where (is_of p) (extend at) rows)) same
            ∙ find_window-extend phone now at rows
                (ap (λ p. any (is_of p) rows) (sym same) ∙ known))
  ]
]

touch_all-recent :
    (phone : String) (now : ℕ) (inbounds : List Inbound) (rows : WindowTable)
    → open_for phone now (touch_all inbounds rows)
      ≡ (open_for phone now rows || any (is_recent phone now) inbounds)
unfolding touch_all
touch_all-recent phone now [] rows = ground arith
touch_all-recent phone now ((other, at) ∷ inbounds) rows =
    touch_all-recent phone now inbounds (touch_phone_window other at rows)
    ∙ ground (arith, touch-recent phone now (other, at) rows)

-- From an empty table, after inbound messages of any numbers in any order of their times, a
-- free-form send to a number without a conversation is allowed exactly if some inbound of that
-- number is less than 24 hours old: a late delivery never shortens a window.
pub window_state_for-recent :
    (phone : String) (now : ℕ) (conversations : List ServiceWindow) (inbounds : List Inbound)
    → (window_state_for none phone now conversations (touch_all inbounds [])).is_open
      ≡ any (is_recent phone now) inbounds
unfolding window_state_for select_where
window_state_for-recent phone now conversations inbounds = touch_all-recent phone now inbounds []
