-- ===== src/Lifecycle/SendGuards/Sendable.antt =====
-- What stands behind a message that nothing stops (blockedBy, marketingBlock).
use nistula_assistance.Lifecycle.Retired.{is_retired_villa_type}
use nistula_assistance.Prelude.{
  ℕ, String, ◌≡◌, ◌⊎◌, inl, inr, refl, Option, some, none, true, false, arith, Option-cases,
}
use nistula_assistance.Clock.{Day}
use nistula_assistance.Lifecycle.{BookingMirror, ScheduledRow, ScheduledKind, Guest}
use nistula_assistance.Lifecycle.Gates.{usable, booking_state, passes_source, has_phone}
use nistula_assistance.Lifecycle.Writes.{ScheduledTable}
use nistula_assistance.Lifecycle.SendGuards.{
  consent_block, Db, SendGates, is_pre_stay, holds, truth, marketing_block, is_marketing, free,
  find_booking, find_guest, before_today, is_quiet, is_confirmation, blocked_by_booking,
  blocked_by_claim, blocked_of, blocked_after, blocked_by, cap_block,
}
use nistula_assistance.Lifecycle.SendGuards.Verbs.{Blocked-cases, IsBookingOf, context}

-- What is behind a message that nothing stops.
pub record IsSendable (db : Db) (gates : SendGates) (now : ℕ) (row : ScheduledRow) : Type 0 where
  pub check_in : Option Day
  pub booking :
      (row.booking_id ≡ none)
      ⊎ ((b : BookingMirror) × IsBookingOf db gates now row b
          × (booking_state b ≡ usable)
          × (b.check_in ≡ check_in)
          × (passes_source b gates.sources ≡ true)
          × (has_phone b ≡ true)
          × (is_pre_stay row.kind ≡ true → before_today b.check_out gates.today ≡ false))
  pub true_now : truth row.kind (context db gates now row check_in) ≡ holds
  pub civil_hour : (is_confirmation row.kind ≡ true) ⊎ (is_quiet now ≡ false)
  pub consent :
      is_marketing row.kind ≡ true
      → (is_retired_villa_type row.villa_type_param ≡ false)
        × ((g : Guest) × (find_guest row.guest_id db.guests ≡ some g)
            × (g.opt_out_marketing ≡ false)
            × (g.marketing_opt_in ≡ true)
            × (cap_block row.kind row.guest_id now db.scheduled ≡ none))

consent_block-none :
    (o : Option Guest) (kind : ScheduledKind) (id : String) (now : ℕ) (rows : ScheduledTable)
    → consent_block o kind id now rows ≡ none
    → (g : Guest) × (o ≡ some g)
      × (g.opt_out_marketing ≡ false)
      × (g.marketing_opt_in ≡ true)
      × (cap_block kind id now rows ≡ none)
consent_block-none none kind id now rows h = absurd (ground arith)
consent_block-none (some g) kind id now rows h = (g, refl, ground arith, ground arith, ground arith)

marketing_block-none :
    (db : Db) (row : ScheduledRow) (kind : ScheduledKind) (now : ℕ)
    → marketing_block db row kind now ≡ none
    → is_marketing kind ≡ true
    → (is_retired_villa_type row.villa_type_param ≡ false)
      × (consent_block (find_guest row.guest_id db.guests) kind row.guest_id now db.scheduled
          ≡ none)
unfolding marketing_block
marketing_block-none db row kind now h m = ground arith

module _ (db : Db) (gates : SendGates) (now : ℕ) (row : ScheduledRow) where
  blocked_by_booking-free :
      (b : BookingMirror)
      → blocked_by_booking db gates now row b ≡ free
      → (booking_state b ≡ usable)
        × (passes_source b gates.sources ≡ true)
        × (has_phone b ≡ true)
        × (is_pre_stay row.kind ≡ true → before_today b.check_out gates.today ≡ false)
  unfolding blocked_by_booking
  blocked_by_booking-free b h = ground arith

  blocked_by_claim-free :
      (check_in : Option Day)
      → blocked_by_claim db gates now row check_in ≡ free
      → (truth row.kind (context db gates now row check_in) ≡ holds)
        × ((is_confirmation row.kind ≡ true) ⊎ (is_quiet now ≡ false))
        × (marketing_block db row row.kind now ≡ none)
  unfolding blocked_by_claim
  blocked_by_claim-free check_in h = ground arith

  sendable :
      (check_in : Option Day)
      → (row.booking_id ≡ none)
        ⊎ ((b : BookingMirror) × IsBookingOf db gates now row b
            × (booking_state b ≡ usable)
            × (b.check_in ≡ check_in)
            × (passes_source b gates.sources ≡ true)
            × (has_phone b ≡ true)
            × (is_pre_stay row.kind ≡ true → before_today b.check_out gates.today ≡ false))
      → blocked_by_claim db gates now row check_in ≡ free
      → IsSendable db gates now row
  sendable check_in booking h =
      let (true_now, civil, market) = blocked_by_claim-free check_in h in
      record {
        check_in = check_in;
        booking = booking;
        true_now = true_now;
        civil_hour = civil;
        consent = λ m.
            let (kept, consented) = marketing_block-none db row row.kind now market m in
            (
              kept,
              consent_block-none (find_guest row.guest_id db.guests) row.kind row.guest_id now
                  db.scheduled consented,
            );
      }

  IsSendable-of :
      (id : String) (o : Option BookingMirror)
      → row.booking_id ≡ some id
      → find_booking id db.bookings ≡ o
      → blocked_of db gates now row o ≡ free
      → IsSendable db gates now row
  IsSendable-of id none known found h = absurd (ground arith)
  IsSendable-of id (some b) known found h =
      elim (Blocked-cases (blocked_by_booking db gates now row b)) [
        | inl e ↦
            let (state, source, phone, stay) = blocked_by_booking-free b e in
            sendable b.check_in (inr (b, (id, known, found), state, refl, source, phone, stay))
              (rw (e, blocked_after) at h)
        | inr (inl (r, e)) ↦ absurd (ground arith)
        | inr (inr (r, e)) ↦ absurd (ground arith)
      ]

-- A message that nothing stops is about a usable booking from a sanctioned source with a phone (or
-- about none), is not a pre-stay message of a stay that is over, still says something true, goes out
-- at a civil hour unless it is the confirmation, and if it is marketing goes to a guest who opted in,
-- never opted out and is under the kind's cap, about a villa type that is still let.
pub blocked_by-free :
    (db : Db) (gates : SendGates) (now : ℕ) (row : ScheduledRow)
    → blocked_by db gates now row ≡ free
    → IsSendable db gates now row
unfolding blocked_by
blocked_by-free db gates now row h = elim (Option-cases row.booking_id) [
  | inl none_of ↦ sendable db gates now row none (inl none_of) (ground arith)
  | inr (id, known) ↦
      IsSendable-of db gates now row id (find_booking id db.bookings) known refl (ground arith)
]
