-- ===== src/Mirror/PollTests.antt =====
-- A cancel of two rooms whose booking was never seen, the booking that arrives after it, and cycles
-- that fail.
use nistula_assistance.Prelude.{
  arith, Option, ℕ, ◌≡◌, refl, String, some, none, List, [], ◌∷◌, false, codes, codes_eq,
  select_where, suc, zero,
}
use nistula_assistance.Phone.{all_digits}
use nistula_assistance.Lifecycle.{BookingStatus}
use nistula_assistance.Mirror.{MirrorRowInput, get_mirror_by_reservation_no, booking_cancelled}
use nistula_assistance.Mirror.Cancelling.{
  strip_suffix, find_cancel_target, stub, insert_cancel_stub,
}
use nistula_assistance.Mirror.Poller.{PollWorld, CancelItem, put_stubs, process_cancel_group}
use nistula_assistance.Mirror.Guard.{
  IsCancelledAt, Delivery, run_deliveries, process_cancel_group-IsCancelledAt,
}
use nistula_assistance.Mirror.Ladder.{
  Cycle, fetch_unreachable, fetch_error, processed, thrown, unreachable, run_polls, cleared,
}
use nistula_assistance.Mirror.Ladder.Streak.{poll_alerts, auth_alerts, run_polls-alerts}

abbrev late_booking : MirrorRowInput
late_booking = record {
  reservation_no = codes "877";
  tran_id = none;
  guest_name = some "Asha";
  guest_phone = none;
  guest_email = none;
  room_type_id = none;
  room_type_name = none;
  physical_room_label = none;
  rateplan_id = none;
  check_in = some "2026-07-13";
  check_out = some "2026-07-15";
  adults = some 2;
  children = none;
  status = BookingStatus.confirmed;
  source = none;
  amount = none;
  currency = none;
  trans = 2;
}

abbrev room : List ℕ → CancelItem
room id = record { unique_id = id; entry_trans = 0; ack_status = some (codes "Cancel") }

abbrev no_rows : PollWorld
no_rows = record { rows = []; queued = []; alerts = [] }

abbrev name_of : ℕ → String
name_of zero = "a"
name_of (suc zero) = "b"
name_of (suc (suc n)) = "c"

abbrev group : List CancelItem
group = room (codes "877-1") ∷ room (codes "877-2") ∷ []

-- Number, which these payloads give nothing to read.
abbrev no_amounts : String → Option ℕ
no_amounts amount = none

abbrev arrives : Delivery
arrives = record { row_id = "d"; now = 9; payload = late_booking; ack_status = some (codes "New") }

-- Three stubs and three events: the two rooms and the base.
abbrev tombstoned : PollWorld
tombstoned = record {
  rows =
      stub "a" 8 0 (codes "877-1") ∷ stub "b" 8 0 (codes "877-2") ∷ stub "c" 8 0 (codes "877") ∷ [];
  queued =
      record { kind = booking_cancelled; number = codes "877" }
      ∷ record { kind = booking_cancelled; number = codes "877-2" }
      ∷ record { kind = booking_cancelled; number = codes "877-1" }
      ∷ [];
  alerts = [];
}

group_is_kept : process_cancel_group name_of 8 group no_rows ≡ some tombstoned
unfolding process_cancel_group put_stubs insert_cancel_stub strip_suffix find_cancel_target
    get_mirror_by_reservation_no select_where codes_eq all_digits
group_is_kept = refl

is_suffixed : codes_eq (strip_suffix (codes "877-1")) (codes "877-1") ≡ false
unfolding strip_suffix codes_eq all_digits
is_suffixed = refl

is_lost : find_cancel_target (codes "877-1") [] ≡ none
unfolding find_cancel_target get_mirror_by_reservation_no strip_suffix select_where codes_eq
    all_digits
is_lost = refl

base_number : codes "877" ≡ strip_suffix (codes "877-1")
unfolding strip_suffix all_digits
base_number = refl

process_cancel_group-IsCancelledAt_example :
    let u = run_deliveries no_amounts (arrives ∷ []) tombstoned in
    IsCancelledAt (strip_suffix (codes "877-1")) u.rows × (u.queued ≡ tombstoned.queued)
process_cancel_group-IsCancelledAt_example =
    process_cancel_group-IsCancelledAt no_amounts name_of 8 (room (codes "877-1"))
      (room (codes "877-2") ∷ []) no_rows tombstoned (arrives ∷ []) is_suffixed is_lost
      group_is_kept ((base_number, λ e. absurd (ground arith), λ e. absurd (ground arith)), tt)

-- Four failures, an error of the credentials between them, and a fifth failure.
abbrev streak : List Cycle
streak =
    fetch_unreachable
    ∷ fetch_unreachable
    ∷ fetch_error (codes "301")
    ∷ thrown
    ∷ processed 0 (some unreachable)
    ∷ processed 1 none
    ∷ []

run_polls-alerts_example :
    let alerts = (run_polls streak cleared).1 in (poll_alerts alerts ≡ 1) × (auth_alerts alerts ≡ 1)
unfolding codes_eq
run_polls-alerts_example =
    run_polls-alerts streak (refl, (refl, (refl, (refl, (refl, (refl, tt))))))
