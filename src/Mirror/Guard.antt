-- ===== src/Mirror/Guard.antt =====
-- The stub under a base number makes the guard of upsertMirrorRow fire for a booking that arrives
-- after its cancellation (processCancelGroup, processReservation).
use mathlib.Core.Path.{subst}
use nistula_assistance.Lifecycle.{BookingStatus}
use nistula_assistance.Prelude.{
  ◌≢◌, ℕ, ◌≡◌, inl, inr, refl, sym, ◌∙◌, String, Option, some, none, List, [], ◌∷◌, ◌++◌, Bool,
  true, false, not, ◌&&◌, arith, eq_iff, codes_eq, codes_eq_refl, any, length, select_where, All,
  Bool-cases,
}
use nistula_assistance.Mirror.{
  booking_cancelled, MirrorRowInput, MirrorRow, UpsertMirrorOutcome, MirrorTable, MirrorDiffField,
  is_cancelled, diff_mirror_fields, coalesce_mirror_input, is_reviving, is_blocked, effective,
  is_row, has_no, get_mirror_by_reservation_no, write_row, classify_update, upsert_over,
  upsert_mirror_row,
}
use nistula_assistance.Mirror.Cancelling.{
  stub, insert_cancel_stub, strip_suffix, find_cancel_target,
}
use nistula_assistance.Mirror.Redelivery.{head-update_where, head-append}
use nistula_assistance.Mirror.Poller.{
  cancel_conflict, alert, with_rows, queue, ◌>>=◌, PollWorld, CancelItem, resurrection_blocked,
  settle_outcome, process_reservation, put_stub, put_stubs, guard_base, process_cancel_group,
}

-- The booking has a cancelled row.
pub record IsCancelledAt (number : List ℕ) (rows : MirrorTable) : Type 0 where
  pub row : MirrorRow
  pub found : get_mirror_by_reservation_no number rows ≡ some row
  pub cancelled : is_cancelled row.stored.status ≡ true

-- One reservation of a poll, with the draw of an id and the clock of its transaction.
pub record Delivery : Type 0 where
  pub row_id : String
  pub now : ℕ
  pub payload : MirrorRowInput
  pub ack_status : Option (List ℕ)

abbrev pub IsStale : List ℕ → Delivery → Type 0
IsStale number d =
    (d.payload.reservation_no ≡ number)
    × (d.payload.status ≢ BookingStatus.checked_in)
    × (d.payload.status ≢ BookingStatus.checked_out)

not_reviving :
    (s : BookingStatus)
    → s ≢ BookingStatus.checked_in
    → s ≢ BookingStatus.checked_out
    → is_reviving s ≡ false
not_reviving BookingStatus.confirmed h k = refl
not_reviving BookingStatus.modified h k = refl
not_reviving BookingStatus.cancelled h k = refl
not_reviving BookingStatus.no_show h k = refl
not_reviving BookingStatus.checked_in h k = absurd (h refl)
not_reviving BookingStatus.checked_out h k = absurd (k refl)
not_reviving BookingStatus.unknown h k = refl

unfoldable pub run_deliveries : (String → Option ℕ) → List Delivery → PollWorld → PollWorld
run_deliveries read [] w = w
run_deliveries read (d ∷ ds) w =
    run_deliveries read ds (process_reservation read d.row_id d.now d.payload d.ack_status w)

blocked_outcome :
    (fields : List MirrorDiffField) (before after : MirrorRow) (blocked : Bool)
    → resurrection_blocked (classify_update fields before after blocked) ≡ blocked
blocked_outcome [] before after blocked = refl
blocked_outcome (f ∷ fields) before after blocked =
    elim (Bool-cases
      (is_cancelled after.stored.status && not (is_cancelled before.stored.status))) [
        | inl t ↦ rw t refl
        | inr f ↦ rw f refl
      ]

effective-cancelled :
    (prev x : MirrorRowInput)
    → is_blocked prev x ≡ true
    → is_cancelled (effective prev x).status ≡ true
unfolding coalesce_mirror_input
effective-cancelled prev x h = rw h refl

upsert_over-IsCancelledAt :
    (read : String → Option ℕ) (row_id : String) (now : ℕ) (x : MirrorRowInput) (rows : MirrorTable)
    (prev : MirrorRow)
    → get_mirror_by_reservation_no x.reservation_no rows ≡ some prev
    → is_blocked prev.stored x ≡ true
    → let result = upsert_over read row_id now x (some prev) rows in
      IsCancelledAt x.reservation_no (result.0) × (resurrection_blocked (result.1) ≡ true)
unfolding get_mirror_by_reservation_no coalesce_mirror_input
upsert_over-IsCancelledAt read row_id now x rows prev h blocked =
    let next = effective prev.stored x in
    let fields = diff_mirror_fields read prev.stored next in
    let (r, e) =
      head-update_where (has_no x.reservation_no) (is_row prev.id) (write_row now next) rows prev
        (λ r. codes_eq_refl x.reservation_no) ((eq_iff prev.id prev.id).1 refl) h in
    (
      record {
        row = write_row now next r;
        found = e;
        cancelled = effective-cancelled prev.stored x blocked;
      },
      blocked_outcome fields prev (write_row now next prev) (is_blocked prev.stored x) ∙ blocked,
    )

settle_outcome-blocked :
    (number : List ℕ) (ack_status : Option (List ℕ)) (result : MirrorTable × UpsertMirrorOutcome)
    (w : PollWorld)
    → resurrection_blocked (result.1) ≡ true
    → settle_outcome number ack_status result w ≡ alert cancel_conflict (with_rows (result.0) w)
settle_outcome-blocked number ack_status (rows, outcome) w h = rw h refl

process_reservation-own :
    (read : String → Option ℕ) (d : Delivery) (w : PollWorld)
    → is_reviving d.payload.status ≡ false
    → IsCancelledAt d.payload.reservation_no w.rows
    → let v = process_reservation read d.row_id d.now d.payload d.ack_status w in
      IsCancelledAt d.payload.reservation_no v.rows × (v.queued ≡ w.queued)
unfolding process_reservation upsert_mirror_row
process_reservation-own read d w live c =
    let x = d.payload in
    let blocked : is_blocked c.row.stored x ≡ true = rw (c.cancelled, live) refl in
    let (kept, conflict) =
      upsert_over-IsCancelledAt read d.row_id d.now x w.rows c.row c.found blocked in
    let result = upsert_over read d.row_id d.now x (some c.row) w.rows in
    rw (c.found, settle_outcome-blocked x.reservation_no d.ack_status result w conflict)
      (kept, refl)

process_reservation-IsCancelledAt :
    (read : String → Option ℕ) (d : Delivery) (number : List ℕ) (w : PollWorld)
    → IsStale number d
    → IsCancelledAt number w.rows
    → let v = process_reservation read d.row_id d.now d.payload d.ack_status w in
      IsCancelledAt number v.rows × (v.queued ≡ w.queued)
process_reservation-IsCancelledAt read d number w (e, waits, stays) =
    let live = not_reviving d.payload.status waits stays in
    let v = process_reservation read d.row_id d.now d.payload d.ack_status w in
    subst (λ n. IsCancelledAt n w.rows → IsCancelledAt n v.rows × (v.queued ≡ w.queued)) e
      (process_reservation-own read d w live)

run_deliveries-IsCancelledAt :
    (read : String → Option ℕ) (number : List ℕ) (ds : List Delivery) (w : PollWorld)
    → All (IsStale number) ds
    → IsCancelledAt number w.rows
    → let v = run_deliveries read ds w in IsCancelledAt number v.rows × (v.queued ≡ w.queued)
unfolding run_deliveries
run_deliveries-IsCancelledAt read number [] w hs c = (c, refl)
run_deliveries-IsCancelledAt read number (d ∷ ds) w (h, hs) c =
    let v = process_reservation read d.row_id d.now d.payload d.ack_status w in
    let (kept, quiet) = process_reservation-IsCancelledAt read d number w h c in
    let (last, silent) = run_deliveries-IsCancelledAt read number ds v hs kept in
    (last, silent ∙ quiet)

get_mirror-absent :
    (number : List ℕ) (rows : MirrorTable)
    → any (has_no number) rows ≡ false
    → get_mirror_by_reservation_no number rows ≡ none
unfolding get_mirror_by_reservation_no select_where
get_mirror-absent number [] h = refl
get_mirror-absent number (r ∷ rows) h = elim (Bool-cases (has_no number r)) [
  | inl hit ↦ absurd (ground arith)
  | inr other ↦ rw other (get_mirror-absent number rows (ground arith))
]

put_stub-IsCancelledAt :
    (fresh : ℕ → String) (now trans : ℕ) (number : List ℕ) (w v : PollWorld)
    → put_stub fresh now trans number w ≡ some v
    → IsCancelledAt number v.rows
unfolding insert_cancel_stub get_mirror_by_reservation_no
put_stub-IsCancelledAt fresh now trans number w v h =
    elim (Bool-cases (any (has_no number) w.rows)) [
      | inl taken ↦ let rolled : none ≡ some v = sym (rw taken refl) ∙ h in absurd (ground arith)
      | inr open_number ↦
          let row = stub (fresh (length w.rows)) now trans number in
          let written = queue booking_cancelled number (with_rows (w.rows ++ row ∷ []) w) in
          let done : some written ≡ some v = sym (rw open_number refl) ∙ h in
          let e : written ≡ v = ground arith in
          subst (λ u. IsCancelledAt number u.rows) e
            (record {
              row = row;
              found =
                  head-append (has_no number) w.rows row (codes_eq_refl number)
                    (get_mirror-absent number w.rows open_number);
              cancelled = refl;
            })
    ]

tombstones-IsCancelledAt :
    (fresh : ℕ → String) (now : ℕ) (first : CancelItem) (stubs : Option PollWorld) (v : PollWorld)
    → codes_eq (strip_suffix first.unique_id) first.unique_id ≡ false
    → (stubs >>= guard_base fresh now first) ≡ some v
    → IsCancelledAt (strip_suffix first.unique_id) v.rows
tombstones-IsCancelledAt fresh now first none v suffixed h = absurd (ground arith)
tombstones-IsCancelledAt fresh now first (some w) v suffixed h =
    put_stub-IsCancelledAt fresh now first.entry_trans (strip_suffix first.unique_id) w v
      (sym (rw suffixed refl) ∙ h)

-- A group of cancels whose first number has a room's suffix and finds no booking, where its
-- transaction commits: however many payloads of the base booking arrive afterwards, at any times
-- and with any acknowledged status, as long as none says checked in or checked out, the base
-- booking has a cancelled row and no booking event is queued by them.
pub process_cancel_group-IsCancelledAt :
    (read : String → Option ℕ) (fresh : ℕ → String) (now : ℕ) (first : CancelItem)
    (items : List CancelItem) (w v : PollWorld) (ds : List Delivery)
    → codes_eq (strip_suffix first.unique_id) first.unique_id ≡ false
    → find_cancel_target first.unique_id w.rows ≡ none
    → process_cancel_group fresh now (first ∷ items) w ≡ some v
    → All (IsStale (strip_suffix first.unique_id)) ds
    → let u = run_deliveries read ds v in
      IsCancelledAt (strip_suffix first.unique_id) u.rows × (u.queued ≡ v.queued)
unfolding process_cancel_group
process_cancel_group-IsCancelledAt read fresh now first items w v ds suffixed lost h hs =
    let stubs = put_stubs fresh now (first ∷ items) w in
    let guarded : (stubs >>= guard_base fresh now first) ≡ some v = sym (rw lost refl) ∙ h in
    run_deliveries-IsCancelledAt read (strip_suffix first.unique_id) ds v hs
      (tombstones-IsCancelledAt fresh now first stubs v suffixed guarded)
