-- ===== src/Mirror.antt =====
-- src/db/bookings.ts: the mirror of eZee's bookings, with its diff and its guard against the return
-- of a cancelled booking.

pub mod Redelivery
pub mod Cancelling
pub mod Normalise
pub mod Ladder
pub mod Guard
pub mod Poller
mod Tests
mod PollTests
use nistula_assistance.Prelude.{
  ℕ, String, Option, some, none, List, [], ◌∷◌, ◌++◌, Bool, true, false, not, ◌&&◌, ◌||◌, ◌==◌, leb,
  str_eq, codes, codes_eq, any, map, head?, length, select_where, update_where, if◌then◌else◌,
}
use nistula_assistance.Lifecycle.{BookingStatus}
use nistula_assistance.Lifecycle.Gates.{lower}
use nistula_assistance.Phone.{all_digits}

-- A normalised row; of the raw payload, the number of its rooms.
pub record MirrorRowInput : Type 0 where
  pub reservation_no : List ℕ
  pub tran_id : Option String
  pub guest_name : Option String
  pub guest_phone : Option String
  pub guest_email : Option String
  pub room_type_id : Option String
  pub room_type_name : Option String
  pub physical_room_label : Option String
  pub rateplan_id : Option String
  pub check_in : Option String
  pub check_out : Option String
  pub adults : Option ℕ
  pub children : Option ℕ
  pub status : BookingStatus
  pub source : Option String
  pub amount : Option String
  pub currency : Option String
  pub trans : ℕ

pub record MirrorRow : Type 0 where
  pub id : String
  pub stored : MirrorRowInput
  pub synced_at : ℕ

abbrev pub MirrorTable : Type 0
MirrorTable = List MirrorRow

-- MIRROR_DIFF_FIELDS
pub data MirrorDiffField : Type 0 where
  status check_in check_out room_type_id room_type_name physical_room_label rateplan_id adults :
      MirrorDiffField
  children amount currency guest_name guest_phone guest_email source : MirrorDiffField

abbrev pub is_cancelled : BookingStatus → Bool
is_cancelled BookingStatus.cancelled = true
is_cancelled _ = false

-- the rank of a status, by which two are compared
abbrev pub status_code : BookingStatus → ℕ
status_code BookingStatus.confirmed = 0
status_code BookingStatus.modified = 1
status_code BookingStatus.cancelled = 2
status_code BookingStatus.no_show = 3
status_code BookingStatus.checked_in = 4
status_code BookingStatus.checked_out = 5
status_code BookingStatus.unknown = 6

abbrev pub texts_differ : Option String → Option String → Bool
texts_differ none none = false
texts_differ none (some b) = true
texts_differ (some a) none = true
texts_differ (some a) (some b) = not (str_eq a b)

abbrev pub counts_differ : Option ℕ → Option ℕ → Bool
counts_differ none none = false
counts_differ none (some b) = true
counts_differ (some a) none = true
counts_differ (some a) (some b) = not (a == b)

-- A poll that carries no room label says nothing of the room.
abbrev pub label_changed : Option String → Option String → Bool
label_changed a none = false
label_changed a (some b) = texts_differ a (some b)

-- Number(x): the code of its double, none for NaN, which differs from every number and from itself.
abbrev pub numbers_differ : Option ℕ → Option ℕ → Bool
numbers_differ none b = true
numbers_differ (some a) none = true
numbers_differ (some a) (some b) = not (a == b)

-- `Number(a) !== Number(b)`; the first argument is Number.
abbrev pub amounts_differ : (String → Option ℕ) → Option String → Option String → Bool
amounts_differ number none none = false
amounts_differ number none (some b) = true
amounts_differ number (some a) none = true
amounts_differ number (some a) (some b) = numbers_differ (number a) (number b)

abbrev pub field_if : Bool → MirrorDiffField → List MirrorDiffField → List MirrorDiffField
field_if true f fields = f ∷ fields
field_if false f fields = fields

unfoldable pub diff_mirror_fields :
    (String → Option ℕ) → MirrorRowInput → MirrorRowInput → List MirrorDiffField
diff_mirror_fields number prev next =
    field_if (not (status_code prev.status == status_code next.status)) status (
      field_if (texts_differ prev.check_in next.check_in) check_in (
        field_if (texts_differ prev.check_out next.check_out) check_out (
          field_if (texts_differ prev.room_type_id next.room_type_id) room_type_id (
            field_if (texts_differ prev.room_type_name next.room_type_name) room_type_name (
              field_if (label_changed prev.physical_room_label next.physical_room_label)
                physical_room_label
                (field_if (texts_differ prev.rateplan_id next.rateplan_id) rateplan_id (
                  field_if (counts_differ prev.adults next.adults) adults (
                    field_if (counts_differ prev.children next.children) children (
                      field_if (amounts_differ number prev.amount next.amount) amount (
                        field_if (texts_differ prev.currency next.currency) currency (
                          field_if (texts_differ prev.guest_name next.guest_name) guest_name (
                            field_if (texts_differ prev.guest_phone next.guest_phone) guest_phone (
                              field_if (texts_differ prev.guest_email next.guest_email) guest_email
                                (field_if (texts_differ prev.source next.source) source
                                  []))))))))))))))

abbrev pub label_or : Option String → Option String → Option String
label_or none old = old
label_or (some label) old = some label

unfoldable pub coalesce_mirror_input : MirrorRowInput → MirrorRowInput → MirrorRowInput
coalesce_mirror_input prev next = record next {
  physical_room_label = label_or next.physical_room_label prev.physical_room_label;
}

pub data UpsertMirrorOutcome : Type 0 where
  created : MirrorRow → UpsertMirrorOutcome
  row_modified row_cancelled :
      MirrorRow → MirrorRow → List MirrorDiffField → Bool → UpsertMirrorOutcome
  unchanged : MirrorRow → Bool → UpsertMirrorOutcome

-- REVIVING_STATUSES
abbrev pub is_reviving : BookingStatus → Bool
is_reviving BookingStatus.checked_in = true
is_reviving BookingStatus.checked_out = true
is_reviving _ = false

abbrev pub is_blocked : MirrorRowInput → MirrorRowInput → Bool
is_blocked prev next = is_cancelled prev.status && not (is_reviving next.status)

abbrev pub kept_status : Bool → BookingStatus → BookingStatus
kept_status true s = BookingStatus.cancelled
kept_status false s = s

-- what an update writes over the stored row
abbrev pub effective : MirrorRowInput → MirrorRowInput → MirrorRowInput
effective prev next =
    coalesce_mirror_input prev
      (record next { status = kept_status (is_blocked prev next) next.status })

abbrev pub is_row : String → MirrorRow → Bool
is_row id r = str_eq r.id id

abbrev pub has_no : List ℕ → MirrorRow → Bool
has_no number r = codes_eq r.stored.reservation_no number

unfoldable pub get_mirror_by_reservation_no : List ℕ → MirrorTable → Option MirrorRow
get_mirror_by_reservation_no number rows = head? (select_where (has_no number) rows)

abbrev pub write_row : ℕ → MirrorRowInput → MirrorRow → MirrorRow
write_row now next r = record r { stored = next; synced_at = now }

abbrev pub classify_update :
    List MirrorDiffField → MirrorRow → MirrorRow → Bool → UpsertMirrorOutcome
classify_update [] before after blocked = unchanged after blocked
classify_update (f ∷ fields) before after blocked =
    if is_cancelled after.stored.status && not (is_cancelled before.stored.status)
    then row_cancelled after before (f ∷ fields) blocked
    else row_modified after before (f ∷ fields) blocked

abbrev pub upsert_over :
    (String → Option ℕ)
    → String
    → ℕ
    → MirrorRowInput
    → Option MirrorRow
    → MirrorTable
    → MirrorTable × UpsertMirrorOutcome
upsert_over number row_id now input none rows =
    let row : MirrorRow = record { id = row_id; stored = input; synced_at = now } in
    (rows ++ row ∷ [], created row)
upsert_over number row_id now input (some prev) rows =
    let next = effective prev.stored input in
    (
      update_where (is_row prev.id) (write_row now next) rows,
      classify_update (diff_mirror_fields number prev.stored next) prev (write_row now next prev)
          (is_blocked prev.stored input),
    )

-- The rows and the outcome; the id of a new row and the clock are drawn outside.
unfoldable pub upsert_mirror_row :
    (String → Option ℕ)
    → String
    → ℕ
    → MirrorRowInput
    → MirrorTable
    → MirrorTable × UpsertMirrorOutcome
unfolding get_mirror_by_reservation_no diff_mirror_fields coalesce_mirror_input
upsert_mirror_row number row_id now input rows =
    upsert_over number row_id now input (get_mirror_by_reservation_no input.reservation_no rows)
      rows

pub data BookingEventKind : Type 0 where
  booking_created booking_modified booking_cancelled : BookingEventKind

abbrev pub kind_of_created : Bool → Bool → BookingEventKind
kind_of_created true modify = booking_cancelled
kind_of_created false true = booking_modified
kind_of_created false false = booking_created

abbrev pub is_modify : Option (List ℕ) → Bool
is_modify none = false
is_modify (some ack_status) = codes_eq (map lower ack_status) (codes "modify")

unfoldable pub event_kind_for_upsert :
    UpsertMirrorOutcome → Option (List ℕ) → Option BookingEventKind
event_kind_for_upsert (created r) ack_status =
    some (kind_of_created (is_cancelled r.stored.status) (is_modify ack_status))
event_kind_for_upsert (row_modified r before changed blocked) ack_status = some booking_modified
event_kind_for_upsert (row_cancelled r before changed blocked) ack_status = some booking_cancelled
event_kind_for_upsert (unchanged r blocked) ack_status = none
