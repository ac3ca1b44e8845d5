-- ===== src/Mirror/Cancelling.antt =====
-- src/db/bookings.ts: the cancellation of a mirrored booking, and of one that was never seen.
use nistula_assistance.Prelude.{
  ℕ, String, Option, some, none, List, [], ◌∷◌, ◌++◌, ◌&&◌, ◌==◌, leb, codes_eq, any, length,
  update_where, if◌then◌else◌,
}
use nistula_assistance.Lifecycle.{BookingStatus}
use nistula_assistance.Phone.{all_digits}
use nistula_assistance.Mirror.{
  MirrorRow, MirrorTable, is_cancelled, is_row, has_no, get_mirror_by_reservation_no,
}

pub data CancelOutcome : Type 0 where
  flipped : MirrorRow → MirrorRow → CancelOutcome
  already : MirrorRow → CancelOutcome
  missing : CancelOutcome

abbrev pub flip : ℕ → MirrorRow → MirrorRow
flip now r = record r {
  stored = record (r.stored) { status = BookingStatus.cancelled };
  synced_at = now;
}

abbrev pub cancel_over : ℕ → Option MirrorRow → MirrorTable → MirrorTable × CancelOutcome
cancel_over now none rows = (rows, missing)
cancel_over now (some prev) rows =
    if is_cancelled prev.stored.status
    then (rows, already prev)
    else (update_where (is_row prev.id) (flip now) rows, flipped (flip now prev) prev)

unfoldable pub mark_booking_cancelled : ℕ → List ℕ → MirrorTable → MirrorTable × CancelOutcome
unfolding get_mirror_by_reservation_no
mark_booking_cancelled now number rows =
    cancel_over now (get_mirror_by_reservation_no number rows) rows

-- The row of a cancel whose booking was never seen.
abbrev pub stub : String → ℕ → ℕ → List ℕ → MirrorRow
stub row_id now trans number = record {
  id = row_id;
  synced_at = now;
  stored = record {
    reservation_no = number;
    tran_id = none;
    guest_name = none;
    guest_phone = none;
    guest_email = none;
    room_type_id = none;
    room_type_name = none;
    physical_room_label = none;
    rateplan_id = none;
    check_in = none;
    check_out = none;
    adults = none;
    children = none;
    status = BookingStatus.cancelled;
    source = none;
    amount = none;
    currency = none;
    trans = trans;
  };
}

-- `none` is the violation of the unique reservation number.
unfoldable pub insert_cancel_stub : String → ℕ → ℕ → List ℕ → MirrorTable → Option MirrorTable
insert_cancel_stub row_id now trans number rows =
    if any (has_no number) rows then none else some (rows ++ stub row_id now trans number ∷ [])

-- `uniqueId.replace(/-\d+$/, '')`
unfoldable pub strip_suffix : List ℕ → List ℕ
unfolding all_digits
strip_suffix [] = []
strip_suffix (c ∷ s) =
    let rest = strip_suffix s in
    if c == b'-' && (leb 1 (length s) && all_digits s) then [] else c ∷ rest

pub data CancelTarget : Type 0 where
  exact base : MirrorRow → CancelTarget

abbrev pub base_target : Option MirrorRow → Option CancelTarget
base_target none = none
base_target (some r) = some (base r)

abbrev pub target_or : Option MirrorRow → Option CancelTarget → Option CancelTarget
target_or none other = other
target_or (some r) other = some (exact r)

unfoldable pub find_cancel_target : List ℕ → MirrorTable → Option CancelTarget
unfolding get_mirror_by_reservation_no strip_suffix
find_cancel_target unique_id rows = target_or (get_mirror_by_reservation_no unique_id rows) (
    if codes_eq (strip_suffix unique_id) unique_id
    then none
    else base_target (get_mirror_by_reservation_no (strip_suffix unique_id) rows))
