-- ===== src/Mirror/Poller.antt =====
-- src/ezee/poller.ts: one reservation, one group of cancels and the ladder of failures.
use nistula_assistance.Prelude.{
  ℕ, String, Option, some, none, List, [], ◌∷◌, Bool, false, ltb, codes_eq, any, length,
  if◌then◌else◌,
}
use nistula_assistance.Mirror.{
  MirrorRowInput, MirrorRow, MirrorTable, UpsertMirrorOutcome, created, row_modified, row_cancelled,
  unchanged, BookingEventKind, booking_cancelled, event_kind_for_upsert, upsert_mirror_row,
}
use nistula_assistance.Mirror.Cancelling.{
  CancelOutcome, flipped, already, missing, mark_booking_cancelled, insert_cancel_stub,
  strip_suffix, CancelTarget, exact, base, find_cancel_target,
}

-- What a poll sends to the ops numbers.
pub data EzeeAlert : Type 0 where
  poll_failing auth_failed cancel_conflict partial_cancel_suspect : EzeeAlert

-- The booking.* event of a reservation number, as it is queued in the transaction.
pub record BookingMessage : Type 0 where
  pub kind : BookingEventKind
  pub number : List ℕ

-- The rows with the events that their transaction queues, and the alerts, which it does not undo.
pub record PollWorld : Type 0 where
  pub rows : MirrorTable
  pub queued : List BookingMessage
  pub alerts : List EzeeAlert

pub record CancelItem : Type 0 where
  pub unique_id : List ℕ
  pub entry_trans : ℕ
  pub ack_status : Option (List ℕ)

abbrev pub queue : BookingEventKind → List ℕ → PollWorld → PollWorld
queue kind number w = record w { queued = record { kind = kind; number = number } ∷ w.queued }

abbrev pub alert : EzeeAlert → PollWorld → PollWorld
alert a w = record w { alerts = a ∷ w.alerts }

abbrev pub with_rows : MirrorTable → PollWorld → PollWorld
with_rows rows w = record w { rows = rows }

abbrev pub resurrection_blocked : UpsertMirrorOutcome → Bool
resurrection_blocked (created r) = false
resurrection_blocked (row_modified r before changed blocked) = blocked
resurrection_blocked (row_cancelled r before changed blocked) = blocked
resurrection_blocked (unchanged r blocked) = blocked

abbrev pub queue_kind : Option BookingEventKind → List ℕ → PollWorld → PollWorld
queue_kind none number w = w
queue_kind (some kind) number w = queue kind number w

abbrev pub settle_outcome :
    List ℕ → Option (List ℕ) → MirrorTable × UpsertMirrorOutcome → PollWorld → PollWorld
settle_outcome number ack_status (rows, outcome) w =
    let written = with_rows rows w in
    if resurrection_blocked outcome
    then alert cancel_conflict written
    else queue_kind (event_kind_for_upsert outcome ack_status) number written

-- processReservation of a normalised row whose transaction commits.
unfoldable pub process_reservation :
    (String → Option ℕ) → String → ℕ → MirrorRowInput → Option (List ℕ) → PollWorld → PollWorld
unfolding event_kind_for_upsert upsert_mirror_row
process_reservation read row_id now row ack_status w =
    settle_outcome row.reservation_no ack_status (upsert_mirror_row read row_id now row w.rows) w

abbrev pub queue_stub : List ℕ → Option MirrorTable → PollWorld → Option PollWorld
queue_stub number none w = none
queue_stub number (some rows) w = some (queue booking_cancelled number (with_rows rows w))

abbrev pub put_stub : (ℕ → String) → ℕ → ℕ → List ℕ → PollWorld → Option PollWorld
put_stub fresh now trans number w =
    queue_stub number (insert_cancel_stub (fresh (length w.rows)) now trans number w.rows) w

-- The rest of a transaction after a write, none of it after a violation.
infixl 1 ◌>>=◌
abbrev pub ◌>>=◌ : Option PollWorld → (PollWorld → Option PollWorld) → Option PollWorld
none >>= k = none
some w >>= k = k w

-- One stub for each entry; `none` is a violation, which rolls the transaction back.
unfoldable pub put_stubs : (ℕ → String) → ℕ → List CancelItem → PollWorld → Option PollWorld
unfolding insert_cancel_stub
put_stubs fresh now [] w = some w
put_stubs fresh now (i ∷ items) w = do
  next ← put_stub fresh now i.entry_trans i.unique_id w
  put_stubs fresh now items next

-- The stub under the base number, where that differs from the entry's.
abbrev pub guard_base : (ℕ → String) → ℕ → CancelItem → PollWorld → Option PollWorld
guard_base fresh now first w =
    if codes_eq (strip_suffix first.unique_id) first.unique_id
    then some w
    else put_stub fresh now first.entry_trans (strip_suffix first.unique_id) w

abbrev pub tombstones :
    (ℕ → String) → ℕ → CancelItem → List CancelItem → PollWorld → Option PollWorld
tombstones fresh now first items w = do
  next ← put_stubs fresh now items w
  guard_base fresh now first next

unfoldable pub distinct_ids : List CancelItem → List (List ℕ)
distinct_ids [] = []
distinct_ids (i ∷ items) =
    let ids = distinct_ids items in
    if any (codes_eq i.unique_id) ids then ids else i.unique_id ∷ ids

abbrev pub queue_flipped : CancelOutcome → List ℕ → PollWorld → PollWorld
queue_flipped (flipped r before) number w = queue booking_cancelled number w
queue_flipped (already r) number w = w
queue_flipped missing number w = w

abbrev pub settle_cancel : List ℕ → MirrorTable × CancelOutcome → PollWorld → PollWorld
settle_cancel number (rows, outcome) w = queue_flipped outcome number (with_rows rows w)

abbrev pub flip_row : ℕ → MirrorRow → PollWorld → PollWorld
flip_row now r w =
    settle_cancel r.stored.reservation_no
      (mark_booking_cancelled now r.stored.reservation_no w.rows) w

abbrev pub apply_cancel :
    (ℕ → String)
    → ℕ
    → CancelItem
    → List CancelItem
    → Option CancelTarget
    → PollWorld
    → Option PollWorld
apply_cancel fresh now first items none w = tombstones fresh now first items w
apply_cancel fresh now first items (some (exact r)) w = some (flip_row now r w)
apply_cancel fresh now first items (some (base r)) w =
    if ltb (length (distinct_ids items)) r.stored.trans
    then some (alert partial_cancel_suspect w)
    else some (flip_row now r w)

-- The group's effect, `none` where the transaction rolls back and nothing is acknowledged.
unfoldable pub process_cancel_group :
    (ℕ → String) → ℕ → List CancelItem → PollWorld → Option PollWorld
unfolding put_stubs insert_cancel_stub strip_suffix mark_booking_cancelled find_cancel_target
    distinct_ids
process_cancel_group fresh now [] w = some w
process_cancel_group fresh now (first ∷ items) w =
    apply_cancel fresh now first (first ∷ items) (find_cancel_target first.unique_id w.rows) w
