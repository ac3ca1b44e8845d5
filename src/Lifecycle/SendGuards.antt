-- ===== src/Lifecycle/SendGuards.antt =====
-- src/lifecycle/sendGuards.ts: what stops a due message, and whether that stop is for ever.
pub mod Claims
pub mod Verbs
pub mod Sendable
use nistula_assistance.Lifecycle.Retired.{is_retired_villa_type}
use nistula_assistance.Prelude.{
  ℕ, ◌+◌, ◌-◌, ◌*◌, String, Option, some, none, List, [], ◌∷◌, Bool, true, false, not, ◌&&◌, ◌||◌,
  ◌==◌, ltb, leb, str_eq, codes, any, length, select_where, head?, if◌then◌else◌,
}
use nistula_assistance.Clock.{Day, is_night_ist}
use nistula_assistance.Clock.DayText.{day_leb}
use nistula_assistance.Lifecycle.{
  BookingMirror, BookingStatus, ScheduledRow, ScheduledKind, confirmation, prearrival, welcome,
  poststay, winback, lead_followup, Guest, Conversation, Reason, booking_missing,
  booking_is_cancelled, booking_is_no_show, booking_is_unknown, stay_over, stale,
  guest_already_arrived, arrival_day_passed, quiet_hours, inventory_retired, guest_missing,
  opted_out, no_marketing_opt_in, winback_cap_reached, lead_followup_cap_reached, is_sent_status,
  same_kind,
}
use nistula_assistance.Lifecycle.Gates.{
  lower, is_space, BookingState, usable, terminal, transient, booking_state, passes_source,
  has_phone,
}
use nistula_assistance.Lifecycle.Writes.{ScheduledTable}

pub record Db : Type 0 where
  pub bookings : List BookingMirror
  pub guests : List Guest
  pub conversations : List Conversation
  pub scheduled : ScheduledTable

pub record SendGates : Type 0 where
  pub sources : List (List ℕ)
  pub today : Day

-- PRE_STAY_KINDS
abbrev pub is_pre_stay : ScheduledKind → Bool
is_pre_stay confirmation = true
is_pre_stay prearrival = true
is_pre_stay welcome = true
is_pre_stay _ = false

abbrev pub hours_ms : ℕ → ℕ
hours_ms hours = hours * 3600000

abbrev pub winback_cap : ℕ
winback_cap = 2

abbrev pub winback_window_days : ℕ
winback_window_days = 365

abbrev pub lead_followup_cap : ℕ
lead_followup_cap = 1

abbrev pub lead_followup_window_days : ℕ
lead_followup_window_days = 30

abbrev pub stale_after_hours : ℕ
stale_after_hours = 36

abbrev pub poststay_grace_hours : ℕ
poststay_grace_hours = 7 * 24

pub record TruthContext : Type 0 where
  pub row : ScheduledRow
  pub now : ℕ
  pub today : Day
  pub check_in : Option Day

-- `null` is `holds`: the claim of the body is still true.
pub data Truth : Type 0 where
  holds : Truth
  skip : Reason → Truth
  not_yet_true : Reason → Truth

-- planAgeHours(c) > hours
abbrev pub stale_by_plan_age : TruthContext → ℕ → Truth
stale_by_plan_age c hours = if ltb (c.row.send_at + hours_ms hours) c.now then skip stale else holds

-- `checkIn < today` on texts
abbrev pub arrived : Day → Day → Bool
arrived check_in today = not (day_leb today check_in)

abbrev pub until_arrival : TruthContext → Option Day → Reason → Truth
until_arrival c none reason = stale_by_plan_age c stale_after_hours
until_arrival c (some check_in) reason =
    if arrived check_in c.today then not_yet_true reason else holds

-- TRUTH
unfoldable pub truth : ScheduledKind → TruthContext → Truth
truth confirmation c = stale_by_plan_age c stale_after_hours
truth prearrival c = until_arrival c c.check_in guest_already_arrived
truth welcome c = until_arrival c c.check_in arrival_day_passed
truth poststay c = stale_by_plan_age c poststay_grace_hours
truth winback c = holds
truth lead_followup c = stale_by_plan_age c stale_after_hours

abbrev pub sent_since : String → ScheduledKind → ℕ → ScheduledRow → Bool
sent_since guest kind since r =
    str_eq r.guest_id guest
    && (same_kind r.kind kind && (is_sent_status r.status && leb since r.updated_at))

unfoldable pub sent_count_since : String → ScheduledKind → ℕ → ℕ → ScheduledTable → ℕ
sent_count_since guest kind days now rows =
    length (select_where (sent_since guest kind (now - days * 24 * 3600000)) rows)

-- The category of a kind's template in LIFECYCLE_TEMPLATES.
abbrev pub is_marketing : ScheduledKind → Bool
is_marketing winback = true
is_marketing lead_followup = true
is_marketing _ = false

abbrev pub cap_block : ScheduledKind → String → ℕ → ScheduledTable → Option Reason
cap_block winback guest now rows =
    if leb winback_cap (sent_count_since guest winback winback_window_days now rows)
    then some winback_cap_reached
    else none
cap_block lead_followup guest now rows =
    if leb lead_followup_cap
      (sent_count_since guest lead_followup lead_followup_window_days now rows)
    then some lead_followup_cap_reached
    else none
cap_block _ guest now rows = none

abbrev pub find_guest : String → List Guest → Option Guest
find_guest id guests = head? (select_where (λ g. str_eq g.id id) guests)

abbrev pub consent_block :
    Option Guest → ScheduledKind → String → ℕ → ScheduledTable → Option Reason
consent_block none kind guest now rows = some guest_missing
consent_block (some g) kind guest now rows =
    if g.opt_out_marketing
    then some opted_out
    else if not g.marketing_opt_in
    then some no_marketing_opt_in
    else cap_block kind guest now rows

unfoldable pub marketing_block : Db → ScheduledRow → ScheduledKind → ℕ → Option Reason
marketing_block db row kind now =
    if not (is_marketing kind)
    then none
    else if is_retired_villa_type row.villa_type_param
    then some inventory_retired
    else consent_block (find_guest row.guest_id db.guests) kind row.guest_id now db.scheduled

pub data Blocked : Type 0 where
  free : Blocked
  skips : Reason → Blocked
  defers : Reason → Blocked

abbrev pub find_booking : String → List BookingMirror → Option BookingMirror
find_booking id bookings = head? (select_where (λ b. str_eq b.id id) bookings)

-- `booking_${booking.status}` of a status that is not usable
abbrev pub status_reason : BookingStatus → Reason
status_reason BookingStatus.cancelled = booking_is_cancelled
status_reason BookingStatus.no_show = booking_is_no_show
status_reason _ = booking_is_unknown

abbrev pub before_today : Option Day → Day → Bool
before_today none today = false
before_today (some day) today = arrived day today

-- GUEST_QUIET_START and GUEST_QUIET_END; both parse, so the test never throws
abbrev pub answer : Option Bool → Bool
answer none = false
answer (some b) = b

unfoldable pub is_quiet : ℕ → Bool
is_quiet now = answer (is_night_ist now (codes "22:00") (codes "08:00"))

abbrev pub is_confirmation : ScheduledKind → Bool
is_confirmation confirmation = true
is_confirmation _ = false

module _ (db : Db) (gates : SendGates) (now : ℕ) (row : ScheduledRow) where
  -- the questions asked of the booking
  unfoldable pub blocked_by_booking : BookingMirror → Blocked
  blocked_by_booking booking = elim (booking_state booking) [
    | terminal ↦ skips (status_reason booking.status)
    | transient ↦ defers (status_reason booking.status)
    | usable ↦
        if not (passes_source booking gates.sources)
        then defers Reason.source_not_allowed
        else if not (has_phone booking)
        then defers Reason.no_phone
        else if is_pre_stay row.kind && before_today booking.check_out gates.today
        then skips stay_over
        else free
  ]

  -- the marketing gate, after quiet hours
  abbrev pub blocked_by_marketing : Blocked
  blocked_by_marketing = elim (marketing_block db row row.kind now) [
    | some reason ↦ skips reason
    | none ↦ free
  ]

  unfoldable pub blocked_by_claim : Option Day → Blocked
  unfolding truth is_quiet
  blocked_by_claim check_in =
      elim (truth row.kind
        (record { row = row; now = now; today = gates.today; check_in = check_in })) [
          | skip reason ↦ skips reason
          | not_yet_true reason ↦ defers reason
          | holds ↦
              if not (is_confirmation row.kind) && is_quiet now
              then defers quiet_hours
              else blocked_by_marketing
        ]

  abbrev pub blocked_after : Blocked → Option Day → Blocked
  blocked_after free check_in = blocked_by_claim check_in
  blocked_after b check_in = b

  abbrev pub blocked_of : Option BookingMirror → Blocked
  blocked_of none = skips booking_missing
  blocked_of (some booking) = blocked_after (blocked_by_booking booking) booking.check_in

  unfoldable pub blocked_by : Blocked
  unfolding blocked_by_claim blocked_by_booking marketing_block
  blocked_by = elim row.booking_id [
    | none ↦ blocked_by_claim none
    | some id ↦ blocked_of (find_booking id db.bookings)
  ]
