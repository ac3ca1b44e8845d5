-- ===== src/Lifecycle/Consent/Stop.antt =====
-- STOP is for good (setMarketingOptOut, captureInChatOptIn, marketingBlock): no later yes brings
-- marketing back, and what was waiting is withdrawn.
use nistula_assistance.Prelude.{
  ℕ, ◌≡◌, ◌≢◌, inl, inr, String, some, none, List, [], ◌∷◌, true, false, arith, All, str_eq, length,
  length-returning, select_where, update_where, Bool-cases, Option-cases,
}
use nistula_assistance.Lifecycle.{Guest, ScheduledRow}
use nistula_assistance.Lifecycle.Writes.{ScheduledTable}
use nistula_assistance.Lifecycle.SendGuards.{Db, is_marketing, find_guest, marketing_block}
use nistula_assistance.Lifecycle.Consent.{
  opt_in_guard, opt_in, capture_in_chat_opt_in, opt_out, guest_guard, set_marketing_opt_out,
  marketing_guard, cancel_pending_marketing_rows, marketing_kinds,
}

-- What a guest may say later: yes to the invitation at a time, or STOP again.
pub data Said : Type 0 where
  yes_to_it : String → ℕ → Said
  stop : String → Said

unfoldable pub hear : Said → List Guest → List Guest
unfolding capture_in_chat_opt_in set_marketing_opt_out
hear (yes_to_it id at) guests = (capture_in_chat_opt_in id at guests).0
hear (stop id) guests = set_marketing_opt_out id guests

unfoldable pub hear_all : List Said → List Guest → List Guest
unfolding hear
hear_all [] guests = guests
hear_all (s ∷ said) guests = hear_all said (hear s guests)

-- The guest of an id is out, and not in.
abbrev pub HasStopped : String → List Guest → Type 0
HasStopped id guests =
    All (λ g. str_eq g.id id ≡ true → (g.opt_out_marketing ≡ true) × (g.marketing_opt_in ≡ false))
      guests

pub opt_out-HasStopped :
    (id : String) (guests : List Guest) → HasStopped id (set_marketing_opt_out id guests)
unfolding set_marketing_opt_out update_where
opt_out-HasStopped id [] = tt
opt_out-HasStopped id (g ∷ guests) = ((λ h. ground arith), opt_out-HasStopped id guests)

yes-HasStopped :
    (id who : String) (at : ℕ) (guests : List Guest)
    → HasStopped id guests
    → HasStopped id (update_where (opt_in_guard who) (opt_in at) guests)
unfolding update_where
yes-HasStopped id who at [] h = tt
yes-HasStopped id who at (g ∷ guests) (h, hs) =
    ((λ k. ground (arith, h)), yes-HasStopped id who at guests hs)

stop-HasStopped :
    (id who : String) (guests : List Guest)
    → HasStopped id guests
    → HasStopped id (update_where (guest_guard who) opt_out guests)
unfolding update_where
stop-HasStopped id who [] h = tt
stop-HasStopped id who (g ∷ guests) (h, hs) =
    ((λ k. ground (arith, h)), stop-HasStopped id who guests hs)

hear_all-HasStopped :
    (id : String) (said : List Said) (guests : List Guest)
    → HasStopped id guests
    → HasStopped id (hear_all said guests)
unfolding hear_all
hear_all-HasStopped id [] guests h = h
hear_all-HasStopped id (yes_to_it who at ∷ said) guests h =
    hear_all-HasStopped id said _ (yes-HasStopped id who at guests h)
hear_all-HasStopped id (stop who ∷ said) guests h =
    hear_all-HasStopped id said _ (stop-HasStopped id who guests h)

find_guest-HasStopped :
    (id : String) (guests : List Guest) (g : Guest)
    → HasStopped id guests
    → find_guest id guests ≡ some g
    → g.opt_out_marketing ≡ true
unfolding select_where
find_guest-HasStopped id [] g h e = absurd (ground arith)
find_guest-HasStopped id (x ∷ guests) g (h, hs) e = elim (Bool-cases (str_eq x.id id)) [
  | inl hit ↦ let (out, _) = h hit in ground (arith, out)
  | inr miss ↦ find_guest-HasStopped id guests g hs (ground arith)
]

-- After a STOP, and whatever that guest or any other says later, no marketing message to the guest
-- passes the marketing gate at any time, whatever else the database holds.
pub stop_is_final :
    (id : String) (said : List Said) (db : Db) (row : ScheduledRow) (now : ℕ)
    → row.guest_id ≡ id
    → is_marketing row.kind ≡ true
    → marketing_block
        (record db { guests = hear_all said (set_marketing_opt_out id db.guests) })
        row
        row.kind
        now
      ≢ none
unfolding marketing_block
stop_is_final id said db row now who kind =
    let guests = hear_all said (set_marketing_opt_out id db.guests) in
    let stopped : HasStopped id guests =
      hear_all-HasStopped id said (set_marketing_opt_out id db.guests)
        (opt_out-HasStopped id db.guests) in
    elim (Option-cases (find_guest row.guest_id guests)) [
      | inl unknown ↦ λ e. absurd (ground arith)
      | inr (g, known) ↦
          let out : g.opt_out_marketing ≡ true =
            find_guest-HasStopped id guests g stopped (ground arith) in
          λ e. absurd (ground arith)
    ]

pub cancel_pending_marketing_rows-All :
    (stamp : ℕ) (guest : String) (rows : ScheduledTable)
    → All
        (λ r. marketing_guard guest marketing_kinds r ≡ false)
        (cancel_pending_marketing_rows stamp guest marketing_kinds rows).0
unfolding cancel_pending_marketing_rows update_where
cancel_pending_marketing_rows-All stamp guest [] = tt
cancel_pending_marketing_rows-All stamp guest (r ∷ rows) =
    (ground arith, cancel_pending_marketing_rows-All stamp guest rows)

-- The withdrawal of a STOP leaves no pending marketing message of the guest, and reports how many
-- there were.
pub cancel_pending_marketing_rows_clears :
    (stamp : ℕ) (guest : String) (rows : ScheduledTable)
    → let (rows', count) = cancel_pending_marketing_rows stamp guest marketing_kinds rows in
      All (λ r. marketing_guard guest marketing_kinds r ≡ false) rows'
      × (count ≡ length (select_where (marketing_guard guest marketing_kinds) rows))
unfolding cancel_pending_marketing_rows
cancel_pending_marketing_rows_clears stamp guest rows = (
  cancel_pending_marketing_rows-All stamp guest rows,
  length-returning (marketing_guard guest marketing_kinds) _ rows,
)
