-- ===== src/Lifecycle/PlanTests.antt =====
-- A booking of New Year 2026 planned and scheduled: three days before it is still 2025.
use mathlib.Core.List.{Memᴰ}
use nistula_assistance.Prelude.{
  ◌≡◌, refl, some, none, true, false, [], ◌∷◌, codes, codes_eq, arith, map, length, select_where,
  update_where, returning, All,
}
use nistula_assistance.Clock.{Day, day_number, days_in_month, is_leap}
use nistula_assistance.Clock.DayText.{day_text, text_leb}
use nistula_assistance.Lifecycle.{
  BookingMirror, Guest, BookingStatus, confirmed, ScheduledRow, ScheduledStatus, pending, welcome,
  confirmation,
}
use nistula_assistance.Lifecycle.Gates.{is_space}
use nistula_assistance.Lifecycle.Plan.{sends, plan_sends, matrix, spaces_home}
use nistula_assistance.Lifecycle.Plan.Timing.{IsStay, IsTimed, plan_sends-IsTimed}
use nistula_assistance.Lifecycle.Scheduler.{
  SchedulerDeps, Board, schedule_plan, schedule_for_booking,
}
use nistula_assistance.Lifecycle.Scheduler.Binding.{IsBound, schedule_plan-IsBound}
use nistula_assistance.Stays.{DescribedStay}

abbrev new_year : Day
new_year = record { year = 2026; month = 1; day = 2 }

abbrev departure : Day
departure = record { year = 2026; month = 1; day = 5 }

abbrev booking : BookingMirror
booking = record {
  id = "b-1";
  ezee_reservation_no = codes "900-1";
  guest_name = some (codes "MIRA SHAH");
  guest_phone = some (codes "+919800000001");
  room_type_name = some (codes "Nistula Apartment");
  check_in = some new_year;
  check_out = some departure;
  status = confirmed;
  source = some (codes "nistula web");
  rooms = 1;
  created_at = 1766000000000;
  physical_room_label = none;
  adults = some 2;
  children = none;
}

abbrev stay : DescribedStay
stay = record {
  booking_id = "b-1";
  reservation_no = codes "900-1";
  villa = some (codes "Nistula Apartment");
  is_unit = false;
  check_in = new_year;
  check_out = departure;
  adults = some 2;
  children = none;
  status = confirmed;
  live = true;
}

new_year_number : day_number new_year ≡ 739983
unfolding day_number
new_year_number = refl

departure_number : day_number departure ≡ 739986
unfolding day_number
departure_number = refl

stay-IsStay : IsStay stay
unfolding days_in_month is_leap
stay-IsStay = record {
  arrival = ground arith;
  departure = ground arith;
  in_order = rw (new_year_number, departure_number) (omega arith);
  after_epoch = rw new_year_number (omega arith);
  this_era = omega arith;
  this_era_out = omega arith;
}

planned : plan_sends booking stay ≡ sends (matrix booking stay (codes "Nistula Apartment"))
unfolding plan_sends codes_eq spaces_home is_space
planned = refl

plan_sends-IsTimed_example : IsTimed booking stay (matrix booking stay (codes "Nistula Apartment"))
plan_sends-IsTimed_example =
    plan_sends-IsTimed booking stay (matrix booking stay (codes "Nistula Apartment")) stay-IsStay
      planned

-- The welcome is waiting, the confirmation has gone.
abbrev waiting : ScheduledRow
waiting = record {
  id = "s-1";
  guest_id = "g-0";
  booking_id = some "b-1";
  kind = welcome;
  villa_type_param = some (codes "Nistula Apartment");
  send_at = 1767324600000;
  deferred_until = none;
  status = pending;
  dedupe_key = (welcome, codes "900");
  sent_message_id = none;
  skip_reason = none;
  updated_at = 0;
}

abbrev gone : ScheduledRow
gone = record waiting {
  id = "s-2";
  kind = confirmation;
  dedupe_key = (confirmation, codes "900");
  status = ScheduledStatus.sent;
}

abbrev board : BookingStatus → Board
board status = record {
  db = record {
    bookings = record booking { status = status } ∷ [];
    guests = [];
    conversations = [];
    scheduled = waiting ∷ gone ∷ [];
  };
  alerts = [];
}

abbrev deps : SchedulerDeps
deps = record {
  gates = record {
    epoch = some 1000;
    today = record { year = 2025; month = 12; day = 20 };
    sources = codes "nistula web" ∷ [];
  };
  from_sweep = false;
  stamp = 1766100000000;
  guest_uuid = "g-1";
  conversation_uuid = "c-1";
  row_uuid = λ kind. "s-9";
}

-- A cancelled booking withdraws the welcome and leaves the confirmation.
withdrawn :
    map
      (λ r. r.status)
      (schedule_for_booking deps (codes "900-1") (board BookingStatus.cancelled)).0.db.scheduled
    ≡ ScheduledStatus.cancelled ∷ ScheduledStatus.sent ∷ []
unfolding schedule_for_booking codes_eq select_where update_where returning
withdrawn = refl

-- A confirmed one gets its four missing messages.
completed : length (schedule_for_booking deps (codes "900-1") (board confirmed)).0.db.scheduled ≡ 5
unfolding schedule_for_booking codes_eq select_where update_where returning spaces_home is_space
    day_text text_leb
completed = refl

schedule_plan-IsBound_example :
    let b' =
      (schedule_plan deps booking
        (matrix booking stay (codes "Nistula Apartment"))
        (board confirmed)).0 in
    (g : Guest) × Memᴰ g b'.db.guests
    × (g.phone ≡ codes "+919800000001")
    × All
        (λ s. IsBound g.id s.dedupe_key b'.db.scheduled)
        (matrix booking stay (codes "Nistula Apartment"))
schedule_plan-IsBound_example =
    schedule_plan-IsBound deps booking (matrix booking stay (codes "Nistula Apartment"))
      (board confirmed)
