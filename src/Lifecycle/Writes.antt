-- ===== src/Lifecycle/Writes.antt =====
-- The writes to scheduled_messages: defer, resolve and retryAfterFailedSend of
-- src/lifecycle/sendGuards.ts, the claim and the final failure of src/lifecycle/sender.ts, the
-- withdrawals of src/lifecycle/scheduler.ts and src/db/consent.ts. `stamp` is the clock that the
-- statement itself reads, for `updated_at` and for the backoff.
use nistula_assistance.Prelude.{
  ℕ, ◌+◌, ◌*◌, String, Option, some, none, List, [], ◌∷◌, ◌++◌, Bool, ◌&&◌, str_eq, codes_eq, any,
  if◌then◌else◌, update_where, returning,
}
use nistula_assistance.Lifecycle.{
  ScheduledRow, ScheduledStatus, pending, sent, failed, ScheduledKind, lead_followup, Reason,
  converted, is_pending, is_sent_status, same_kind,
}

abbrev pub ScheduledTable : Type 0
ScheduledTable = List ScheduledRow

abbrev pub defer_minutes : ℕ
defer_minutes = 15

abbrev pub backoff : ℕ → ℕ
backoff stamp = stamp + defer_minutes * 60000

abbrev pub pending_guard : String → ScheduledRow → Bool
pending_guard id r = str_eq r.id id && is_pending r.status

abbrev pub sent_guard : String → ScheduledRow → Bool
sent_guard id r = str_eq r.id id && is_sent_status r.status

abbrev pub id_guard : String → ScheduledRow → Bool
id_guard id r = str_eq r.id id

abbrev pub resolve_row : ℕ → ScheduledStatus → Reason → ScheduledRow → ScheduledRow
resolve_row stamp status reason r = record r {
  status = status;
  skip_reason = some reason;
  updated_at = stamp;
}

unfoldable pub resolve : ℕ → String → ScheduledStatus → Reason → ScheduledTable → ScheduledTable
resolve stamp id status reason = update_where (pending_guard id) (resolve_row stamp status reason)

-- Parks the row on its own clock and leaves `send_at` alone.
abbrev pub defer_row : ℕ → Reason → ScheduledRow → ScheduledRow
defer_row stamp reason r = record r {
  deferred_until = some (backoff stamp);
  skip_reason = some reason;
  updated_at = stamp;
}

unfoldable pub defer : ℕ → String → Reason → ScheduledTable → ScheduledTable
defer stamp id reason = update_where (pending_guard id) (defer_row stamp reason)

abbrev pub rearm_row : ℕ → Reason → ScheduledRow → ScheduledRow
rearm_row stamp reason r = record r {
  status = pending;
  sent_message_id = none;
  deferred_until = some (backoff stamp);
  skip_reason = some reason;
  updated_at = stamp;
}

unfoldable pub retry_after_failed_send : ℕ → String → Reason → ScheduledTable → ScheduledTable
retry_after_failed_send stamp id reason = update_where (sent_guard id) (rearm_row stamp reason)

-- The claim: pending to sent, and the rows that it returns.
abbrev pub claim_row : ℕ → ScheduledRow → ScheduledRow
claim_row stamp r = record r { status = sent; updated_at = stamp }

unfoldable pub claim : ℕ → String → ScheduledTable → ScheduledTable × List ScheduledRow
claim stamp id rows = (
  update_where (pending_guard id) (claim_row stamp) rows,
  returning (pending_guard id) (claim_row stamp) rows,
)

abbrev pub attach_row : ℕ → String → ScheduledRow → ScheduledRow
attach_row stamp message r = record r { sent_message_id = some message; updated_at = stamp }

unfoldable pub attach_message : ℕ → String → String → ScheduledTable → ScheduledTable
attach_message stamp id message = update_where (id_guard id) (attach_row stamp message)

-- After a permanent failure, by the id alone.
unfoldable pub fail_send : ℕ → String → Reason → ScheduledTable → ScheduledTable
fail_send stamp id reason = update_where (id_guard id) (resolve_row stamp failed reason)

abbrev pub DedupeKey : Type 0
DedupeKey = ScheduledKind × List ℕ

abbrev pub same_key : DedupeKey → DedupeKey → Bool
same_key (kind, base) (kind', base') = same_kind kind kind' && codes_eq base base'

abbrev pub key_in : List DedupeKey → DedupeKey → Bool
key_in keys key = any (λ k. same_key k key) keys

abbrev pub revoke_guard : List DedupeKey → ScheduledRow → Bool
revoke_guard keys r = key_in keys r.dedupe_key && is_pending r.status

-- revokePending: the table after it, and the rows withdrawn
unfoldable pub revoke_pending :
    ℕ → List DedupeKey → Reason → ScheduledTable → ScheduledTable × List ScheduledRow
revoke_pending stamp keys reason rows =
    let change = resolve_row stamp ScheduledStatus.cancelled reason in
    (update_where (revoke_guard keys) change rows, returning (revoke_guard keys) change rows)

abbrev pub followup_guard : String → ScheduledRow → Bool
followup_guard guest r =
    str_eq r.guest_id guest && (same_kind r.kind lead_followup && is_pending r.status)

unfoldable pub cancel_pending_lead_followups : ℕ → String → ScheduledTable → ScheduledTable
cancel_pending_lead_followups stamp guest =
    update_where (followup_guard guest) (resolve_row stamp ScheduledStatus.cancelled converted)

-- One planned message, and the upsert that never touches a row which is no longer pending.
pub record Upsert : Type 0 where
  pub row_id : String
  pub guest_id : String
  pub booking_id : String
  pub kind : ScheduledKind
  pub villa_type_param : Option (List ℕ)
  pub send_at : ℕ
  pub dedupe_key : DedupeKey

abbrev pub upsert_guard : DedupeKey → ScheduledRow → Bool
upsert_guard key r = same_key r.dedupe_key key && is_pending r.status

abbrev pub upsert_row : ℕ → Upsert → ScheduledRow → ScheduledRow
upsert_row stamp u r = record r {
  guest_id = u.guest_id;
  booking_id = some u.booking_id;
  send_at = u.send_at;
  villa_type_param = u.villa_type_param;
  updated_at = stamp;
}

abbrev pub fresh_row : ℕ → Upsert → ScheduledRow
fresh_row stamp u = record {
  id = u.row_id;
  guest_id = u.guest_id;
  booking_id = some u.booking_id;
  kind = u.kind;
  villa_type_param = u.villa_type_param;
  send_at = u.send_at;
  deferred_until = none;
  status = pending;
  dedupe_key = u.dedupe_key;
  sent_message_id = none;
  skip_reason = none;
  updated_at = stamp;
}

unfoldable pub upsert : ℕ → Upsert → ScheduledTable → ScheduledTable
upsert stamp u rows =
    if any (λ r. same_key r.dedupe_key u.dedupe_key) rows
    then update_where (upsert_guard u.dedupe_key) (upsert_row stamp u) rows
    else rows ++ fresh_row stamp u ∷ []
