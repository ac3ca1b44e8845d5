-- ===== src/Turn/Cursor/Order.antt =====
-- The order of messages by time and id, and the sorted batch that a turn reads.
use nistula_assistance.Prelude.{
  ℕ, ◌≡◌, inl, inr, refl, List, [], ◌∷◌, Bool, true, false, arith, codes, codes_eq, select_where,
  All-select_where, All, All-map, Bool-cases,
}
use nistula_assistance.Messages.{Message}
use nistula_assistance.Turn.Cursor.{
  MessageCursor, cursor_of, codes_ltb, is_before, insert_ordered, order_messages,
}

codes_ltb_irrefl : (s : List ℕ) → codes_ltb s s ≡ false
unfolding codes_ltb
codes_ltb_irrefl [] = refl
codes_ltb_irrefl (a ∷ s) = ground (arith, codes_ltb_irrefl s)

codes_ltb_trans :
    (s t u : List ℕ) → codes_ltb s t ≡ true → codes_ltb t u ≡ true → codes_ltb s u ≡ true
unfolding codes_ltb
codes_ltb_trans [] [] u h k = absurd (ground arith)
codes_ltb_trans [] (b ∷ t) [] h k = absurd (ground arith)
codes_ltb_trans [] (b ∷ t) (c ∷ u) h k = refl
codes_ltb_trans (a ∷ s) [] u h k = absurd (ground arith)
codes_ltb_trans (a ∷ s) (b ∷ t) [] h k = absurd (ground arith)
codes_ltb_trans (a ∷ s) (b ∷ t) (c ∷ u) h k = ground (arith, codes_ltb_trans s t u)

codes_ltb_total :
    (s t : List ℕ) → codes_ltb s t ≡ false → codes_eq s t ≡ false → codes_ltb t s ≡ true
unfolding codes_ltb codes_eq
codes_ltb_total [] [] h k = absurd (ground arith)
codes_ltb_total [] (b ∷ t) h k = absurd (ground arith)
codes_ltb_total (a ∷ s) [] h k = refl
codes_ltb_total (a ∷ s) (b ∷ t) h k = ground (arith, codes_ltb_total s t)

pub is_before_irrefl : (a : MessageCursor) → is_before a a ≡ false
unfolding is_before
is_before_irrefl a = ground (arith, codes_ltb_irrefl (codes a.id))

pub is_before_trans :
    (a b c : MessageCursor) → is_before a b ≡ true → is_before b c ≡ true → is_before a c ≡ true
unfolding is_before
is_before_trans a b c h k = ground (arith, codes_ltb_trans (codes a.id) (codes b.id) (codes c.id))

pub is_before_total :
    (a b : MessageCursor)
    → is_before a b ≡ false
    → codes_eq (codes a.id) (codes b.id) ≡ false
    → is_before b a ≡ true
unfolding is_before
is_before_total a b h k = ground (arith, codes_ltb_total (codes a.id) (codes b.id))

-- Each message before all that follow it.
abbrev pub Ascends : List Message → Type 0
Ascends [] = Unit
Ascends (m ∷ rows) = All (λ r. is_before (cursor_of m) (cursor_of r) ≡ true) rows × Ascends rows

-- The primary key: no two rows have one id.
abbrev pub Distinct : List Message → Type 0
Distinct [] = Unit
Distinct (m ∷ rows) = All (λ r. codes_eq (codes r.id) (codes m.id) ≡ false) rows × Distinct rows

module _ {κ} (P : Message → Type κ) where
  pub All-insert_ordered :
      (m : Message) (rows : List Message) → P m → All P rows → All P (insert_ordered m rows)
  unfolding insert_ordered
  All-insert_ordered m [] h hs = (h, tt)
  All-insert_ordered m (r ∷ rows) h (k, ks) =
      elim (Bool-cases (is_before (cursor_of r) (cursor_of m))) [
        | inl below ↦ rw below (k, All-insert_ordered m rows h ks)
        | inr above ↦ rw above (h, (k, ks))
      ]

  pub All-order_messages : (rows : List Message) → All P rows → All P (order_messages rows)
  unfolding order_messages
  All-order_messages [] h = tt
  All-order_messages (m ∷ rows) (h, hs) =
      All-insert_ordered m (order_messages rows) h (All-order_messages rows hs)

pub Distinct-select_where :
    (p : Message → Bool) (rows : List Message) → Distinct rows → Distinct (select_where p rows)
unfolding select_where
Distinct-select_where p [] d = tt
Distinct-select_where p (r ∷ rows) (d, ds) = elim (Bool-cases (p r)) [
  | inl hit ↦ rw hit (All-select_where _ p rows d, Distinct-select_where p rows ds)
  | inr miss ↦ rw miss (Distinct-select_where p rows ds)
]

abbrev IsOther : Message → Message → Type 0
IsOther m r = codes_eq (codes r.id) (codes m.id) ≡ false

Ascends-insert_ordered :
    (m : Message) (rows : List Message)
    → All (IsOther m) rows
    → Ascends rows
    → Ascends (insert_ordered m rows)
unfolding insert_ordered
Ascends-insert_ordered m [] h a = (tt, tt)
Ascends-insert_ordered m (r ∷ rows) (h, hs) (a, as') =
    elim (Bool-cases (is_before (cursor_of r) (cursor_of m))) [
      | inl below ↦
          rw below (All-insert_ordered _ m rows below a, Ascends-insert_ordered m rows hs as')
      | inr above ↦
          let first = is_before_total (cursor_of r) (cursor_of m) above h in
          rw above (
            (
              first,
              All-map (λ s. is_before_trans (cursor_of m) (cursor_of r) (cursor_of s) first) rows a,
            ),
            (a, as'),
          )
    ]

-- The batch of a turn is in the order of time, each message once.
pub Ascends-order_messages : (rows : List Message) → Distinct rows → Ascends (order_messages rows)
unfolding order_messages
Ascends-order_messages [] d = tt
Ascends-order_messages (m ∷ rows) (d, ds) =
    Ascends-insert_ordered m (order_messages rows) (All-order_messages (IsOther m) rows d)
      (Ascends-order_messages rows ds)
