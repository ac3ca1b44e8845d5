-- ===== src/Lifecycle/SendGuards/Verbs.antt =====
-- Skipping is for ever and deferring is not: which facts may do which (blockedBy).
use nistula_assistance.Prelude.{
  ℕ, String, ◌+◌, ◌<◌, ◌≡◌, ◌≢◌, ◌⊎◌, inl, inr, refl, Option, some, none, true, arith, Option-cases,
}
use nistula_assistance.Clock.{Day}
use nistula_assistance.Lifecycle.{
  BookingMirror, ScheduledRow, ScheduledKind, winback, Reason, stay_over, stale,
}
use nistula_assistance.Lifecycle.Gates.{terminal, booking_state}
use nistula_assistance.Lifecycle.SendGuards.{
  Db, SendGates, is_pre_stay, hours_ms, TruthContext, truth, stale_after_hours, marketing_block,
  is_marketing, Blocked, free, skips, defers, find_booking, before_today, blocked_by_booking,
  blocked_by_claim, blocked_of, blocked_after, blocked_by, status_reason,
}
use nistula_assistance.Lifecycle.SendGuards.Claims.{truth-skip, Truth-cases}

pub Blocked-cases :
    (b : Blocked) → (b ≡ free) ⊎ (((r : Reason) × (b ≡ skips r)) ⊎ ((r : Reason) × (b ≡ defers r)))
Blocked-cases free = inl refl
Blocked-cases (skips r) = inr (inl (r, refl))
Blocked-cases (defers r) = inr (inr (r, refl))

marketing_block-is_marketing :
    (db : Db) (row : ScheduledRow) (kind : ScheduledKind) (now : ℕ) (r : Reason)
    → marketing_block db row kind now ≡ some r
    → is_marketing kind ≡ true
unfolding marketing_block
marketing_block-is_marketing db row kind now r h = ground arith

module _ (db : Db) (gates : SendGates) (now : ℕ) (row : ScheduledRow) where
  blocked_by_booking-skips :
      (booking : BookingMirror) (r : Reason)
      → blocked_by_booking db gates now row booking ≡ skips r
      → (booking_state booking ≡ terminal)
        ⊎ ((r ≡ stay_over)
            × (is_pre_stay row.kind ≡ true)
            × (before_today booking.check_out gates.today ≡ true))
  unfolding blocked_by_booking
  blocked_by_booking-skips booking r h = ground arith

  blocked_by_booking-status :
      (booking : BookingMirror) (r r' : Reason)
      → booking_state booking ≡ terminal
      → blocked_by_booking db gates now row booking ≡ skips r'
      → r' ≡ r
      → r ≡ status_reason booking.status
  unfolding blocked_by_booking
  blocked_by_booking-status booking r r' fin h e = ground arith

  -- The booking that the row names, in the database.
  abbrev pub IsBookingOf : BookingMirror → Type 0
  IsBookingOf b =
      (id : String) × (row.booking_id ≡ some id) × (find_booking id db.bookings ≡ some b)

  -- The facts on which a row is resolved for ever.
  pub data MaySkip : Reason → Type 0 where
    no_booking :
        {r : Reason} (id : String)
        → row.booking_id ≡ some id
        → find_booking id db.bookings ≡ none
        → r ≡ Reason.booking_missing
        → MaySkip r
    final :
        {r : Reason} (booking : BookingMirror)
        → IsBookingOf booking
        → booking_state booking ≡ terminal
        → r ≡ status_reason booking.status
        → MaySkip r
    over :
        {r : Reason} (booking : BookingMirror)
        → IsBookingOf booking
        → r ≡ stay_over
        → is_pre_stay row.kind ≡ true
        → before_today booking.check_out gates.today ≡ true
        → MaySkip r
    untrue :
        {r : Reason}
        → r ≡ stale
        → row.kind ≢ winback
        → row.send_at + hours_ms stale_after_hours < now
        → MaySkip r
    marketing :
        {r : Reason}
        → is_marketing row.kind ≡ true
        → marketing_block db row row.kind now ≡ some r
        → MaySkip r

  abbrev pub context : Option Day → TruthContext
  context check_in = record { row = row; now = now; today = gates.today; check_in = check_in }

  blocked_by_claim-skips :
      (check_in : Option Day) (r : Reason)
      → blocked_by_claim db gates now row check_in ≡ skips r
      → MaySkip r
  unfolding blocked_by_claim
  blocked_by_claim-skips check_in r h = elim (Truth-cases (truth row.kind (context check_in))) [
    | inr (inl (r', e)) ↦
        let (is_stale, old, not_winback, _, _) = truth-skip row.kind (context check_in) r' e in
        untrue (ground arith) not_winback old
    | inr (inr (r', e)) ↦ absurd (ground arith)
    | inl e ↦
        let market : marketing_block db row row.kind now ≡ some r = ground arith in
        marketing (marketing_block-is_marketing db row row.kind now r market) market
  ]

  blocked_of-skips :
      (id : String) (booking : Option BookingMirror) (r : Reason)
      → row.booking_id ≡ some id
      → find_booking id db.bookings ≡ booking
      → blocked_of db gates now row booking ≡ skips r
      → MaySkip r
  blocked_of-skips id none r known found h = no_booking id known found (ground arith)
  blocked_of-skips id (some booking) r known found h =
      elim (Blocked-cases (blocked_by_booking db gates now row booking)) [
        | inl e ↦ blocked_by_claim-skips booking.check_in r (rw (e, blocked_after) at h)
        | inr (inr (r', e)) ↦ absurd (ground arith)
        | inr (inl (r', e)) ↦ elim (blocked_by_booking-skips booking r' e) [
          | inl fin ↦
              final booking (id, known, found) fin
                (blocked_by_booking-status booking r r' fin e (ground arith))
          | inr (is_over, pre, gone) ↦ over booking (id, known, found) (ground arith) pre gone
        ]
      ]

-- The guards of a send (blockedBy) answer that a due row is to be resolved for ever only if its
-- booking is gone, cancelled or a no-show; or it is a pre-stay message and the check-out has passed;
-- or its planned moment is more than 36 hours ago; or it is marketing and the marketing gate refuses
-- it. At a source, a phone, an arrival day, an unknown status and quiet hours they only ever defer.
pub blocked_by-skips :
    (db : Db) (gates : SendGates) (now : ℕ) (row : ScheduledRow) (r : Reason)
    → blocked_by db gates now row ≡ skips r
    → MaySkip db gates now row r
unfolding blocked_by
blocked_by-skips db gates now row r h = elim (Option-cases row.booking_id) [
  | inl none_of ↦ blocked_by_claim-skips db gates now row none r (ground arith)
  | inr (id, known) ↦
      blocked_of-skips db gates now row id (find_booking id db.bookings) r known refl (ground arith)
]
