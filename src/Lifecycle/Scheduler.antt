-- ===== src/Lifecycle/Scheduler.antt =====
-- src/lifecycle/scheduler.ts: what a booking event does to the booking's messages.
pub mod Kept
pub mod Keeping
pub mod Keys
pub mod Events
pub mod Binding
use nistula_assistance.Lifecycle.Guests.{upsert_guest_from_booking, get_or_create_conversation}
use nistula_assistance.Prelude.{
  ℕ, zero, suc, ltb, String, Option, some, none, List, [], ◌∷◌, ◌++◌, Bool, true, false, not, ◌&&◌,
  ◌||◌, str_eq, codes_eq, any, head?, map, length, select_where, update_where, returning,
  if◌then◌else◌,
}
use nistula_assistance.Lifecycle.{
  BookingMirror, ScheduledRow, ScheduledKind, confirmation, prearrival, welcome, poststay, winback,
  lead_followup, Guest, Conversation, ai_active, Reason, undescribable, booking_is_cancelled,
}
use nistula_assistance.Lifecycle.Gates.{
  SkipReason, GateContext, GateResult, ok, refused, check_gates, has_phone, booking_state,
  BookingState, usable, terminal, transient, revocation_reason,
}
use nistula_assistance.Lifecycle.Writes.{
  ScheduledTable, DedupeKey, key_in, revoke_pending, cancel_pending_lead_followups, Upsert, upsert,
}
use nistula_assistance.Lifecycle.SendGuards.{Db}
use nistula_assistance.Lifecycle.Plan.{
  PlannedSend, Plan, sends, issue, Issue, plan_sends, first_name_from_name,
}
use nistula_assistance.Stays.{
  UndescribableReason, status_not_describable, missing_dates, multi_room, sibling_rows,
  DescribedStay, StayView, described, undescribed, project, reference_base,
}

pub data AlertKind : Type 0 where
  lifecycle_revoked lifecycle_no_phone lifecycle_undescribable : AlertKind

-- Why nothing was scheduled.
pub data Skipped : Type 0 where
  no_mirror_row : Skipped
  revoked : Reason → Skipped
  gated : SkipReason → Skipped
  not_describable : UndescribableReason → Skipped
  planless : Issue → Skipped

pub record SchedulerDeps : Type 0 where
  pub gates : GateContext
  pub from_sweep : Bool
  -- the clock of the statements, and the uuids that the inserts draw
  pub stamp : ℕ
  pub guest_uuid : String
  pub conversation_uuid : String
  pub row_uuid : ScheduledKind → String

pub record Board : Type 0 where
  pub db : Db
  pub alerts : List (AlertKind × List ℕ)

pub record Scheduled : Type 0 where
  pub scheduled : ℕ
  pub skipped : Option Skipped

abbrev pub with_scheduled : Board → ScheduledTable → Board
with_scheduled b rows = record b { db = record (b.db) { scheduled = rows } }

abbrev pub skip_with : Skipped → Scheduled
skip_with reason = record { scheduled = 0; skipped = some reason }

-- `like base-%`
unfoldable pub starts_with : List ℕ → List ℕ → Bool
starts_with [] s = true
starts_with (p ∷ ps) [] = false
starts_with (p ∷ ps) (c ∷ s) = codes_eq (p ∷ []) (c ∷ []) && starts_with ps s

unfoldable pub sibling_rows_of : BookingMirror → List BookingMirror → List BookingMirror
unfolding starts_with reference_base
sibling_rows_of row bookings =
    let base = reference_base row.ezee_reservation_no in
    select_where
      (λ b.
        codes_eq b.ezee_reservation_no base
        || starts_with (base ++ b'-' ∷ []) b.ezee_reservation_no)
      bookings

-- dedupeKeysFor: the keys of the catalog
unfoldable pub dedupe_keys_for : List ℕ → List DedupeKey
unfolding reference_base
dedupe_keys_for reservation_no =
    map (λ kind. (kind, reference_base reservation_no))
      (confirmation ∷ prearrival ∷ welcome ∷ poststay ∷ winback ∷ lead_followup ∷ [])

unfoldable pub has_schedule : List ℕ → ScheduledTable → Bool
has_schedule reservation_no rows =
    any (λ r. key_in (dedupe_keys_for reservation_no) r.dedupe_key) rows

abbrev pub mirror_row : List ℕ → List BookingMirror → Option BookingMirror
mirror_row reservation_no bookings =
    head? (select_where (λ b. codes_eq b.ezee_reservation_no reservation_no) bookings)

abbrev pub or_blank : Option (List ℕ) → List ℕ
or_blank none = []
or_blank (some s) = s

abbrev pub reason_text : UndescribableReason → String
reason_text status_not_describable = "status_not_describable"
reason_text missing_dates = "missing_dates"
reason_text multi_room = "multi_room"
reason_text sibling_rows = "sibling_rows"

pub data BookingEvent : Type 0 where
  created modified cancelled : BookingEvent

module _ (deps : SchedulerDeps) where
  -- revokePending of a booking's rows
  unfoldable pub revoke : List ℕ → Reason → ScheduledTable → ScheduledTable × List ScheduledRow
  unfolding revoke_pending dedupe_keys_for
  revoke reservation_no reason = revoke_pending deps.stamp (dedupe_keys_for reservation_no) reason

  abbrev pub alert : AlertKind → BookingMirror → Board → Board
  alert kind row b = record b { alerts = b.alerts ++ (kind, row.ezee_reservation_no) ∷ [] }

  abbrev pub alert_if : Bool → AlertKind → BookingMirror → Board → Board
  alert_if true kind row b = alert kind row b
  alert_if false kind row b = b

  abbrev pub is_no_phone : Skipped → Bool
  is_no_phone (gated SkipReason.no_phone) = true
  is_no_phone _ = false

  unfoldable pub log_skip : BookingMirror → Skipped → ℕ → Board → Board
  log_skip row reason count b =
      alert_if (is_no_phone reason && not deps.from_sweep) lifecycle_no_phone row
        (alert_if (ltb 0 count) lifecycle_revoked row b)

  unfoldable pub withdraw : BookingMirror → Reason → Board → Board × Scheduled
  unfolding revoke log_skip
  withdraw row reason b =
      let (rows, withdrawn) = revoke row.ezee_reservation_no reason b.db.scheduled in
      (
        log_skip row (revoked reason) (length withdrawn) (with_scheduled b rows),
        skip_with (revoked reason),
      )

  -- an undescribable booking loses its pending rows, unless its state is transient
  abbrev pub withdraw_undescribable :
      BookingState
      → BookingMirror
      → UndescribableReason
      → ScheduledTable
      → ScheduledTable × List ScheduledRow
  withdraw_undescribable transient row reason rows = (rows, [])
  withdraw_undescribable _ row reason rows =
      revoke row.ezee_reservation_no (undescribable (reason_text reason)) rows

  unfoldable pub skip_undescribable :
      BookingMirror → UndescribableReason → Board → Board × Scheduled
  unfolding revoke log_skip
  skip_undescribable row reason b =
      let (rows, withdrawn) =
        withdraw_undescribable (booking_state row) row reason b.db.scheduled in
      (
        alert_if (not deps.from_sweep) lifecycle_undescribable row
            (log_skip row (not_describable reason) (length withdrawn) (with_scheduled b rows)),
        skip_with (not_describable reason),
      )

  abbrev pub upsert_of : BookingMirror → Guest → PlannedSend → Upsert
  upsert_of row guest s = record {
    row_id = deps.row_uuid s.kind;
    guest_id = guest.id;
    booking_id = row.id;
    kind = s.kind;
    villa_type_param = s.villa_type;
    send_at = s.send_at;
    dedupe_key = s.dedupe_key;
  }

  -- the loop over the plan
  unfoldable pub upsert_all :
      BookingMirror → Guest → List PlannedSend → ScheduledTable → ScheduledTable
  unfolding upsert
  upsert_all row guest [] rows = rows
  upsert_all row guest (s ∷ plan) rows =
      upsert_all row guest plan (upsert deps.stamp (upsert_of row guest s) rows)

  unfoldable pub schedule_plan : BookingMirror → List PlannedSend → Board → Board × Scheduled
  unfolding upsert_all upsert_guest_from_booking get_or_create_conversation
      cancel_pending_lead_followups first_name_from_name
  schedule_plan row plan b =
      let (guests, guest) =
        upsert_guest_from_booking deps.guest_uuid (or_blank row.guest_phone)
          (first_name_from_name row.guest_name) b.db.guests in
      let conversations =
        get_or_create_conversation deps.conversation_uuid guest.id b.db.conversations in
      let rows =
        upsert_all row guest plan
          (cancel_pending_lead_followups deps.stamp guest.id b.db.scheduled) in
      (
        record b {
          db = record (b.db) { guests = guests; conversations = conversations; scheduled = rows };
        },
        record { scheduled = length plan; skipped = none },
      )

  abbrev pub after_plan : BookingMirror → Board → Plan → Board × Scheduled
  after_plan row b (issue i) = (log_skip row (planless i) 0 b, skip_with (planless i))
  after_plan row b (sends plan) = schedule_plan row plan b

  abbrev pub after_view : BookingMirror → Board → StayView → Board × Scheduled
  after_view row b (undescribed v) = skip_undescribable row v.reason b
  after_view row b (described stay) = after_plan row b (plan_sends row stay)

  unfoldable pub maintain : BookingMirror → Board → Board × Scheduled
  unfolding skip_undescribable schedule_plan log_skip plan_sends project sibling_rows_of
  maintain row b =
      after_view row b (project row (sibling_rows_of row b.db.bookings) deps.gates.today)

  -- A gate that fails stops only a booking that has no schedule to maintain, or no phone.
  abbrev pub after_gates : BookingMirror → Board → GateResult → Board × Scheduled
  after_gates row b ok = maintain row b
  after_gates row b (refused reason) =
      if not (has_schedule row.ezee_reservation_no b.db.scheduled) || not (has_phone row)
      then (log_skip row (gated reason) 0 b, skip_with (gated reason))
      else maintain row b

  abbrev pub after_contract : BookingMirror → Board → Option Reason → Board × Scheduled
  after_contract row b (some reason) = withdraw row reason b
  after_contract row b none = after_gates row b (check_gates row deps.gates)

  abbrev pub after_lookup : Board → Option BookingMirror → Board × Scheduled
  after_lookup b none = (b, skip_with no_mirror_row)
  after_lookup b (some row) = after_contract row b (revocation_reason row)

  unfoldable pub schedule_for_booking : List ℕ → Board → Board × Scheduled
  unfolding maintain withdraw has_schedule log_skip check_gates revocation_reason has_phone
  schedule_for_booking reservation_no b = after_lookup b (mirror_row reservation_no b.db.bookings)

  unfoldable pub cancel_for_booking : List ℕ → Board → Board × ℕ
  unfolding revoke
  cancel_for_booking reservation_no b =
      let (rows, withdrawn) = revoke reservation_no booking_is_cancelled b.db.scheduled in
      (with_scheduled b rows, length withdrawn)

  unfoldable pub handle_booking_event : BookingEvent → List ℕ → Board → Board
  unfolding schedule_for_booking cancel_for_booking
  handle_booking_event cancelled reservation_no b = (cancel_for_booking reservation_no b).0
  handle_booking_event _ reservation_no b = (schedule_for_booking reservation_no b).0
