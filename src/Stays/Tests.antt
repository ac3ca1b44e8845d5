-- ===== src/Stays/Tests.antt =====
-- The stays of one guest on a January day: one departed, one to come, one cancelled.
use nistula_assistance.Prelude.{
  ◌≡◌, refl, true, false, some, none, List, [], ◌∷◌, codes, codes_eq, head?,
}
use nistula_assistance.Clock.{Day}
use nistula_assistance.Clock.DayText.{day_text, text_leb}
use nistula_assistance.Lifecycle.{BookingMirror, BookingStatus, confirmed}
use nistula_assistance.Stays.{
  DescribedStay, project, project_all, derive_stage, prearrival, select_stays, reference_base,
}
use nistula_assistance.Stays.Stages.{
  IsSpeakable, project-IsSpeakable, stage_of_first, derive_stage-select_stays,
}

abbrev today : Day
today = record { year = 2026; month = 1; day = 9 }

abbrev coming : BookingMirror
coming = record {
  id = "b-1";
  ezee_reservation_no = codes "900-1";
  guest_name = some (codes "Mira");
  guest_phone = some (codes "+919800000001");
  room_type_name = some (codes "Nistula Apartment");
  check_in = some (record { year = 2026; month = 1; day = 10 });
  check_out = some (record { year = 2026; month = 1; day = 13 });
  status = confirmed;
  source = some (codes "nistula web");
  rooms = 1;
  created_at = 5000;
  physical_room_label = some (codes "Apartment 06");
  adults = some 2;
  children = none;
}

abbrev departed : BookingMirror
departed = record coming {
  id = "b-2";
  ezee_reservation_no = codes "800";
  check_in = some (record { year = 2025; month = 3; day = 1 });
  check_out = some (record { year = 2025; month = 3; day = 4 });
}

abbrev called_off : BookingMirror
called_off = record coming {
  id = "b-3";
  ezee_reservation_no = codes "901";
  status = BookingStatus.cancelled;
}

abbrev linked : List BookingMirror
linked = departed ∷ called_off ∷ coming ∷ []

-- A suffix of one room is cut off, and only that.
base : reference_base (codes "900-1") ≡ codes "900"
unfolding reference_base
base = refl

abbrev words : DescribedStay
words = record {
  booking_id = "b-1";
  reservation_no = codes "900-1";
  villa = some (codes "Nistula Apartment");
  is_unit = false;
  check_in = record { year = 2026; month = 1; day = 10 };
  check_out = record { year = 2026; month = 1; day = 13 };
  adults = some 2;
  children = none;
  status = confirmed;
  live = true;
}

project-IsSpeakable_example : IsSpeakable coming linked today words
unfolding project codes_eq day_text text_leb
project-IsSpeakable_example = project-IsSpeakable coming linked today words refl

stage : derive_stage (project_all linked today) today ≡ prearrival
unfolding derive_stage project_all codes_eq day_text text_leb
stage = refl

derive_stage-select_stays_example :
    derive_stage (project_all linked today) today
    ≡ stage_of_first (head? (select_stays (project_all linked today) today)) today
derive_stage-select_stays_example = derive_stage-select_stays (project_all linked today) today
