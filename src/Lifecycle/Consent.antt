-- ===== src/Lifecycle/Consent.antt =====
-- src/db/consent.ts: the writes of marketing consent, and the rows that a STOP withdraws.
pub mod Stop
use nistula_assistance.Prelude.{
  ℕ, String, Option, some, none, List, [], ◌∷◌, ◌++◌, Bool, true, false, not, ◌&&◌, ltb, leb,
  str_eq, any, length, select_where, update_where, returning, if◌then◌else◌,
}
use nistula_assistance.Lifecycle.{
  Guest, in_chat, ScheduledRow, ScheduledStatus, ScheduledKind, lead_followup, winback, opted_out,
  is_pending, is_sent_status, same_kind,
}
use nistula_assistance.Lifecycle.Writes.{ScheduledTable, resolve_row}

abbrev pub opt_in_guard : String → Guest → Bool
opt_in_guard id g = str_eq g.id id && (not g.marketing_opt_in && not g.opt_out_marketing)

abbrev pub opt_in : ℕ → Guest → Guest
opt_in at g = record g {
  marketing_opt_in = true;
  marketing_opt_in_source = some in_chat;
  marketing_opt_in_at = some at;
}

-- the guests after it, and whether it flipped one
unfoldable pub capture_in_chat_opt_in : String → ℕ → List Guest → List Guest × Bool
capture_in_chat_opt_in id at guests = (
  update_where (opt_in_guard id) (opt_in at) guests,
  ltb 0 (length (returning (opt_in_guard id) (opt_in at) guests)),
)

abbrev pub opt_out : Guest → Guest
opt_out g = record g { marketing_opt_in = false; opt_out_marketing = true }

abbrev pub guest_guard : String → Guest → Bool
guest_guard id g = str_eq g.id id

unfoldable pub set_marketing_opt_out : String → List Guest → List Guest
set_marketing_opt_out id = update_where (guest_guard id) opt_out

abbrev pub marketing_guard : String → List ScheduledKind → ScheduledRow → Bool
marketing_guard guest kinds r =
    str_eq r.guest_id guest && (is_pending r.status && any (same_kind r.kind) kinds)

unfoldable pub cancel_pending_marketing_rows :
    ℕ → String → List ScheduledKind → ScheduledTable → ScheduledTable × ℕ
cancel_pending_marketing_rows stamp guest [] rows = (rows, 0)
cancel_pending_marketing_rows stamp guest (k ∷ kinds) rows =
    let change = resolve_row stamp ScheduledStatus.cancelled opted_out in
    (
      update_where (marketing_guard guest (k ∷ kinds)) change rows,
      length (returning (marketing_guard guest (k ∷ kinds)) change rows),
    )

-- MARKETING_KINDS, from the categories of the catalog
abbrev pub marketing_kinds : List ScheduledKind
marketing_kinds = winback ∷ lead_followup ∷ []
