-- ===== src/Mirror/Tests.antt =====
-- One booking that the poller delivers, in full and then without its room.
use nistula_assistance.Prelude.{
  ℕ, String, Option, ◌||◌, if◌then◌else◌, true, false, ◌≡◌, refl, some, none, [], ◌∷◌, codes,
  str_eq, map, select_where, codes_eq, update_where,
}
use nistula_assistance.Lifecycle.{BookingStatus}
use nistula_assistance.Mirror.{
  amounts_differ, MirrorRowInput, MirrorRow, MirrorTable, unchanged, coalesce_mirror_input,
  is_blocked, write_row, get_mirror_by_reservation_no, upsert_mirror_row, event_kind_for_upsert,
}
use nistula_assistance.Mirror.Cancelling.{strip_suffix, mark_booking_cancelled}
use nistula_assistance.Mirror.Redelivery.{upsert_mirror_row_again}

abbrev pub booking : MirrorRowInput
booking = record {
  reservation_no = codes "877";
  tran_id = some "1";
  guest_name = some "Asha";
  guest_phone = none;
  guest_email = none;
  room_type_id = some "5220";
  room_type_name = some "Kadamba";
  physical_room_label = some "06";
  rateplan_id = none;
  check_in = some "2026-07-13";
  check_out = some "2026-07-15";
  adults = some 2;
  children = some 0;
  status = BookingStatus.confirmed;
  source = none;
  amount = some "976.00";
  currency = some "INR";
  trans = 1;
}

abbrev polled : MirrorRowInput
polled = record booking { physical_room_label = none; room_type_id = some "5221" }

abbrev stored_rows : MirrorTable
stored_rows = record { id = "a"; stored = booking; synced_at = 1 } ∷ []

-- Number, at the amounts of these payloads: hundredths.
abbrev read : String → Option ℕ
read amount =
    if str_eq amount "976.00" || str_eq amount "976.0000"
    then some 97600
    else if str_eq amount "0"
    then some 0
    else none

-- Another scale is no modification, and NaN differs from itself.
other_scale : amounts_differ read (some "976.00") (some "976.0000") ≡ false
other_scale = refl

nan_differs : amounts_differ read (some "NaN") (some "NaN") ≡ true
nan_differs = refl

-- A poll keeps the label, and reports the field it changes.
keeps_label :
    (upsert_mirror_row read "b" 2 polled stored_rows).0
    ≡ record { id = "a"; synced_at = 2; stored = record booking { room_type_id = some "5221" } }
      ∷ []
unfolding upsert_mirror_row get_mirror_by_reservation_no select_where update_where
    coalesce_mirror_input codes_eq
keeps_label = refl

-- A live payload after a cancel leaves the booking cancelled.
stays_cancelled :
    let rows = (mark_booking_cancelled 2 (codes "877") stored_rows).0 in
    map (λ (r : MirrorRow). r.stored.status) ((upsert_mirror_row read "b" 3 polled rows).0)
    ≡ BookingStatus.cancelled ∷ []
unfolding upsert_mirror_row mark_booking_cancelled get_mirror_by_reservation_no select_where
    update_where coalesce_mirror_input codes_eq
stays_cancelled = refl

stripped : strip_suffix (codes "877-12") ≡ codes "877"
unfolding strip_suffix
stripped = refl

upsert_mirror_row_again_example :
    let before = (upsert_mirror_row read "b" 2 polled stored_rows).0 in
    let outcome = (upsert_mirror_row read "c" 3 polled before).1 in
    (r : MirrorRow) × (get_mirror_by_reservation_no polled.reservation_no before ≡ some r)
    × (outcome ≡ unchanged (write_row 3 r.stored r) (is_blocked r.stored polled))
    × (event_kind_for_upsert outcome (some (codes "Modify")) ≡ none)
upsert_mirror_row_again_example =
    upsert_mirror_row_again read "b" "c" 2 3 polled stored_rows (some (codes "Modify"))
      (97600, refl)
