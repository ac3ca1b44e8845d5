-- ===== src/Lifecycle/Plan/Timing.antt =====
-- When the five messages of a booking go out (planSends): the timing matrix, read on the IST clock.
use mathlib.Core.Path.{subst}
use nistula_assistance.Prelude.{
  ℕ, ◌+◌, ◌-◌, ◌*◌, ◌∙◌, ◌≤◌, ◌<◌, ◌≡◌, refl, Option, some, none, List, [], ◌∷◌, arith, map, All,
}
use nistula_assistance.Clock.{
  Day, day_number, days_after, days_before, epoch_day, ist_hour, ist_minute, ist_day_number,
  ist_wall_clock_to_instant,
}
use nistula_assistance.Clock.Calendar.{IsDay, shift_day_exact, ist_wall_clock_roundtrip}
use nistula_assistance.Lifecycle.{
  BookingMirror, confirmation, prearrival, welcome, poststay, winback,
}
use nistula_assistance.Lifecycle.Plan.{
  PlannedSend, sends, Place, matrix, plan_named, plan_typed, plan_sends, first_name_from_name,
  locality, type_without_place,
}
use nistula_assistance.Stays.{DescribedStay, reference_base}

-- A stay of two calendar days in order, with room for three days before it.
pub record IsStay (stay : DescribedStay) : Type 0 where
  pub arrival : IsDay stay.check_in
  pub departure : IsDay stay.check_out
  pub in_order : day_number stay.check_in ≤ day_number stay.check_out
  pub after_epoch : epoch_day + 3 < day_number stay.check_in
  pub this_era : 75 ≤ stay.check_in.year
  pub this_era_out : 75 ≤ stay.check_out.year

-- An instant that reads as a full hour of an IST day.
pub record IsAt (t day hour : ℕ) : Type 0 where
  pub on_day : ist_day_number t ≡ day
  pub at_hour : ist_hour t ≡ hour
  pub at_minute : ist_minute t ≡ 0

-- The timing matrix of a booking's messages.
pub record IsTimed (row : BookingMirror) (stay : DescribedStay) (plan : List PlannedSend)
    : Type 0 where
  pub five_kinds :
      map (λ s. s.kind) plan ≡ confirmation ∷ prearrival ∷ welcome ∷ poststay ∷ winback ∷ []
  pub one_booking : All (λ s. s.dedupe_key ≡ (s.kind, reference_base row.ezee_reservation_no)) plan
  pub before : ℕ
  pub arriving : ℕ
  pub after : ℕ
  pub later : ℕ
  pub moments : map (λ s. s.send_at) plan ≡ row.created_at ∷ before ∷ arriving ∷ after ∷ later ∷ []
  pub three_days_before : IsAt before (day_number stay.check_in - 3) 10
  pub that_morning : IsAt arriving (day_number stay.check_in) 9
  pub day_after : IsAt after (day_number stay.check_out + 1) 11
  pub months_after : IsAt later (day_number stay.check_out + 75) 11
  pub in_order : (before < arriving) × (arriving < after) × (after < later)

on_the_hour :
    (d : Day) (n hour : ℕ)
    → day_number d ≡ n
    → epoch_day < n
    → hour < 24
    → IsAt (ist_wall_clock_to_instant d hour 0) n hour
on_the_hour d n hour e after h =
    let (h', m', n') = ist_wall_clock_roundtrip d hour 0 (omega (arith, e)) h (omega arith) in
    record { on_day = n' ∙ e; at_hour = h'; at_minute = m' }

-- A later day, or hour, is a later instant.
wall_clock-lt :
    (d d' : Day) (hour hour' : ℕ)
    → epoch_day < day_number d
    → hour < 24
    → day_number d * 24 + hour < day_number d' * 24 + hour'
    → ist_wall_clock_to_instant d hour 0 < ist_wall_clock_to_instant d' hour' 0
unfolding ist_wall_clock_to_instant
wall_clock-lt d d' hour hour' after h lt = omega arith

matrix-IsTimed :
    (row : BookingMirror) (stay : DescribedStay) (type_name : List ℕ)
    → IsStay stay
    → IsTimed row stay (matrix row stay type_name)
matrix-IsTimed row stay type_name h =
    let (_, (_, before)) = shift_day_exact stay.check_in 3 h.arrival (omega (arith, h.this_era)) in
    let ((_, next), _) =
      shift_day_exact stay.check_out 1 h.departure (omega (arith, h.this_era_out)) in
    let ((_, far), _) = shift_day_exact stay.check_out 75 h.departure h.this_era_out in
    record {
      five_kinds = refl;
      one_booking = (refl, (refl, (refl, (refl, (refl, tt)))));
      before = ist_wall_clock_to_instant (days_before stay.check_in 3) 10 0;
      arriving = ist_wall_clock_to_instant stay.check_in 9 0;
      after = ist_wall_clock_to_instant (days_after stay.check_out 1) 11 0;
      later = ist_wall_clock_to_instant (days_after stay.check_out 75) 11 0;
      moments = refl;
      three_days_before =
          on_the_hour (days_before stay.check_in 3) _ 10 (omega (arith, before))
            (omega (arith, h.after_epoch)) (omega arith);
      that_morning =
          on_the_hour stay.check_in _ 9 refl (omega (arith, h.after_epoch)) (omega arith);
      day_after =
          on_the_hour (days_after stay.check_out 1) _ 11 next
            (omega (arith, h.after_epoch, h.in_order)) (omega arith);
      months_after =
          on_the_hour (days_after stay.check_out 75) _ 11 far
            (omega (arith, h.after_epoch, h.in_order)) (omega arith);
      in_order = (
        wall_clock-lt (days_before stay.check_in 3) stay.check_in 10 9
            (omega (arith, before, h.after_epoch)) (omega arith) (omega (arith, before)),
        wall_clock-lt stay.check_in (days_after stay.check_out 1) 9 11
            (omega (arith, h.after_epoch)) (omega arith) (omega (arith, next, h.in_order)),
        wall_clock-lt (days_after stay.check_out 1) (days_after stay.check_out 75) 11 11
            (omega (arith, next, h.after_epoch, h.in_order)) (omega arith)
            (omega (arith, next, far)),
      );
    }

plan_named-sends :
    (row : BookingMirror) (stay : DescribedStay) (villa_type : List ℕ) (name : Option (List ℕ))
    (place : Option Place) (plan : List PlannedSend)
    → plan_named row stay villa_type name place ≡ sends plan
    → (type_name : List ℕ) × (matrix row stay type_name ≡ plan)
plan_named-sends row stay v none place plan h = absurd (ground arith)
plan_named-sends row stay v (some n) none plan h = absurd (ground arith)
plan_named-sends row stay v (some n) (some p) plan h = (type_without_place v p, ground arith)

pub plan_typed-sends :
    (row : BookingMirror) (stay : DescribedStay) (villa : Option (List ℕ)) (plan : List PlannedSend)
    → plan_typed row stay villa ≡ sends plan
    → (type_name : List ℕ) × (matrix row stay type_name ≡ plan)
plan_typed-sends row stay none plan h = absurd (ground arith)
plan_typed-sends row stay (some v) plan h =
    plan_named-sends row stay v (first_name_from_name row.guest_name) (locality v) plan h

-- A plan that is made of a stay whose two dates are days of the calendar after the start of 1970, the
-- departure no earlier than the arrival, has the five messages of the booking under one dedupe key each: the
-- confirmation at the moment the booking was mirrored, the others at 10:00 IST three days before
-- the arrival, 9:00 on the day, 11:00 the day after the departure and 75 days after it, in that
-- order in time, across months, leap days and year ends.
pub plan_sends-IsTimed :
    (row : BookingMirror) (stay : DescribedStay) (plan : List PlannedSend)
    → IsStay stay
    → plan_sends row stay ≡ sends plan
    → IsTimed row stay plan
unfolding plan_sends
plan_sends-IsTimed row stay plan s h =
    let (type_name, e) = plan_typed-sends row stay stay.villa plan (ground arith) in
    subst (IsTimed row stay) e (matrix-IsTimed row stay type_name s)
