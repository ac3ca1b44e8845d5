-- ===== src/Lifecycle/Scheduler/Keeping.antt =====
-- What a booking event may take away (scheduleForBooking): every message keeps its place and its
-- key, what has gone is never touched, and a pending one is withdrawn for a final reason only.
use nistula_assistance.Prelude.{ℕ, ◌≡◌, ◌≢◌, ◌⊎◌, inl, inr, refl, some, none, List, true, arith}
use nistula_assistance.Lifecycle.{BookingMirror, ScheduledRow, Guest, lead_followup}
use nistula_assistance.Lifecycle.Gates.{
  BookingState, usable, terminal, transient, booking_state, revocation_reason,
}
use nistula_assistance.Lifecycle.Writes.{key_in}
use nistula_assistance.Lifecycle.Plan.{PlannedSend, Plan, sends, plan_sends}
use nistula_assistance.Lifecycle.Scheduler.{
  SchedulerDeps, Board, dedupe_keys_for, mirror_row, sibling_rows_of, or_blank,
}
use nistula_assistance.Stays.{
  DescribedStay, StayView, described, undescribed, UndescribableStay, project,
}
use nistula_assistance.Lifecycle.Scheduler.Kept.{Keeps}

-- Why a pending message may be withdrawn when a booking's number is looked at: it has turned from a
-- lead into this booking, or it is a message of this booking's own keys.
pub data MayWithdraw (deps : SchedulerDeps) (number : List ℕ) (b : Board)
    : ScheduledRow → Type 0 where
  converted :
      {r : ScheduledRow} (row : BookingMirror) (stay : DescribedStay) (plan : List PlannedSend)
      (g : Guest)
      → r.kind ≡ lead_followup
      → mirror_row number b.db.bookings ≡ some row
      → plan_sends row stay ≡ sends plan
      → g.phone ≡ or_blank row.guest_phone
      → r.guest_id ≡ g.id
      → MayWithdraw deps number b r
  final :
      {r : ScheduledRow} (row : BookingMirror)
      → mirror_row number b.db.bookings ≡ some row
      → revocation_reason row ≢ none
      → key_in (dedupe_keys_for row.ezee_reservation_no) r.dedupe_key ≡ true
      → MayWithdraw deps number b r
  unspeakable :
      {r : ScheduledRow} (row : BookingMirror) (v : UndescribableStay)
      → mirror_row number b.db.bookings ≡ some row
      → project row (sibling_rows_of row b.db.bookings) deps.gates.today ≡ undescribed v
      → booking_state row ≢ transient
      → key_in (dedupe_keys_for row.ezee_reservation_no) r.dedupe_key ≡ true
      → MayWithdraw deps number b r

BookingState-cases : (s : BookingState) → (s ≡ transient) ⊎ (s ≢ transient)
BookingState-cases usable = inr (λ e. absurd (ground arith))
BookingState-cases terminal = inr (λ e. absurd (ground arith))
BookingState-cases transient = inl refl

StayView-cases :
    (v : StayView) → ((s : _) × (v ≡ described s)) ⊎ ((u : UndescribableStay) × (v ≡ undescribed u))
StayView-cases (described s) = inl (s, refl)
StayView-cases (undescribed u) = inr (u, refl)

module _ (deps : SchedulerDeps) (number : List ℕ) (b : Board) where
  abbrev Allowed : ScheduledRow → Type 0
  Allowed = MayWithdraw deps number b

  abbrev KeepsBoard : Board → Type 0
  KeepsBoard b' = Keeps Allowed b.db.scheduled b'.db.scheduled
