-- ===== src/Mirror/Redelivery.antt =====
-- A booking that eZee delivers again changes nothing and earns no event (upsertMirrorRow,
-- eventKindForUpsert): what makes a lost acknowledgement harmless. An amount that Number does not
-- read differs from itself, as NaN does.
use mathlib.Core.Path.{subst, ap₂}
use nistula_assistance.Prelude.{
  ℕ, ◌≡◌, inl, inr, refl, String, Option, some, none, List, [], ◌∷◌, ◌++◌, Bool, true, false, not,
  ◌&&◌, arith, ==_refl, eq_iff, codes_eq_refl, head?, select_where, update_where, Bool-cases,
}
use nistula_assistance.Lifecycle.{BookingStatus}
use nistula_assistance.Mirror.{
  MirrorRowInput, MirrorRow, MirrorTable, is_cancelled, status_code, texts_differ, counts_differ,
  label_changed, amounts_differ, diff_mirror_fields, label_or, coalesce_mirror_input, unchanged,
  is_reviving, is_blocked, kept_status, effective, is_row, has_no, get_mirror_by_reservation_no,
  write_row, upsert_over, upsert_mirror_row, event_kind_for_upsert,
}

texts_differ_refl : (o : Option String) → texts_differ o o ≡ false
texts_differ_refl none = refl
texts_differ_refl (some s) = rw ((eq_iff s s).1 refl) refl

counts_differ_refl : (o : Option ℕ) → counts_differ o o ≡ false
counts_differ_refl none = refl
counts_differ_refl (some n) = rw (==_refl n) refl

label_changed_refl : (o : Option String) → label_changed o o ≡ false
label_changed_refl none = refl
label_changed_refl (some s) = texts_differ_refl (some s)

-- The amount is missing, or text that Number reads.
abbrev pub IsNumeric : (String → Option ℕ) → Option String → Type 0
IsNumeric read none = Unit
IsNumeric read (some a) = (n : ℕ) × (read a ≡ some n)

amounts_differ_refl :
    (read : String → Option ℕ) (o : Option String)
    → IsNumeric read o
    → amounts_differ read o o ≡ false
amounts_differ_refl read none h = refl
amounts_differ_refl read (some a) (n, h) = rw (h, ==_refl n) refl

-- Nothing differs from itself, if its amount is not NaN.
diff_mirror_fields_refl :
    (read : String → Option ℕ) (x : MirrorRowInput)
    → IsNumeric read x.amount
    → diff_mirror_fields read x x ≡ []
unfolding diff_mirror_fields
diff_mirror_fields_refl read x h =
    rw
      (
        ==_refl (status_code x.status),
        texts_differ_refl x.check_in,
        texts_differ_refl x.check_out,
        texts_differ_refl x.room_type_id,
        texts_differ_refl x.room_type_name,
        label_changed_refl x.physical_room_label,
        texts_differ_refl x.rateplan_id,
        counts_differ_refl x.adults,
        counts_differ_refl x.children,
        amounts_differ_refl read x.amount h,
        texts_differ_refl x.currency,
        texts_differ_refl x.guest_name,
        texts_differ_refl x.guest_phone,
        texts_differ_refl x.guest_email,
        texts_differ_refl x.source,
      )
      refl

kept_status_again :
    (p x : BookingStatus)
    → let s = kept_status (is_cancelled p && not (is_reviving x)) x in
      kept_status (is_cancelled s && not (is_reviving x)) x ≡ s
kept_status_again p x = ground arith

label_or_again : (a b : Option String) → label_or a (label_or a b) ≡ label_or a b
label_or_again none b = refl
label_or_again (some a) b = refl

-- Writing one payload over what it has written leaves that.
effective_again : (prev x : MirrorRowInput) → effective (effective prev x) x ≡ effective prev x
unfolding coalesce_mirror_input
effective_again prev x =
    ap₂
      (λ (s : BookingStatus) (l : Option String). record x { status = s; physical_room_label = l })
      (kept_status_again prev.status x.status)
      (label_or_again x.physical_room_label prev.physical_room_label)

-- An update that makes its rows satisfy `p`, and reaches the first that did, gives the new first.
pub head-update_where :
    {A : Type 0} (p q : A → Bool) (f : A → A) (rows : List A) (prev : A)
    → ((r : A) → p (f r) ≡ true)
    → q prev ≡ true
    → head? (select_where p rows) ≡ some prev
    → (r : A) × (head? (select_where p (update_where q f rows)) ≡ some (f r))
unfolding select_where update_where
head-update_where p q f [] prev hp hq h = absurd (ground arith)
head-update_where p q f (r ∷ rows) prev hp hq h = elim (Bool-cases (q r)) [
  | inl t ↦ (r, rw (t, hp r) refl)
  | inr miss ↦ elim (Bool-cases (p r)) [
    | inl hit ↦ absurd (ground arith)
    | inr other ↦
        let (first, e) = head-update_where p q f rows prev hp hq (ground arith) in
        (first, rw (miss, other) e)
  ]
]

pub head-append :
    {A : Type 0} (p : A → Bool) (rows : List A) (r : A)
    → p r ≡ true
    → head? (select_where p rows) ≡ none
    → head? (select_where p (rows ++ r ∷ [])) ≡ some r
unfolding select_where
head-append p [] r hr h = rw hr refl
head-append p (x ∷ rows) r hr h = elim (Bool-cases (p x)) [
  | inl hit ↦ absurd (ground arith)
  | inr other ↦ rw other (head-append p rows r hr (ground arith))
]

kept_status_self : (x : BookingStatus) → kept_status (is_cancelled x && not (is_reviving x)) x ≡ x
kept_status_self x = ground arith

label_or_self : (a : Option String) → label_or a a ≡ a
label_or_self none = refl
label_or_self (some a) = refl

effective_self : (x : MirrorRowInput) → effective x x ≡ x
unfolding coalesce_mirror_input
effective_self x =
    ap₂
      (λ (s : BookingStatus) (l : Option String). record x { status = s; physical_room_label = l })
      (kept_status_self x.status) (label_or_self x.physical_room_label)

-- What is found after an upsert is a row that the same payload leaves as it is.
get_mirror-upsert_over :
    (read : String → Option ℕ) (row_id : String) (now : ℕ) (x : MirrorRowInput) (rows : MirrorTable)
    (found : Option MirrorRow)
    → get_mirror_by_reservation_no x.reservation_no rows ≡ found
    → (r : MirrorRow) × (get_mirror_by_reservation_no x.reservation_no
          (upsert_over read row_id now x found rows).0
        ≡ some r)
      × (effective r.stored x ≡ r.stored)
unfolding get_mirror_by_reservation_no coalesce_mirror_input
get_mirror-upsert_over read row_id now x rows none h =
    let row : MirrorRow = record { id = row_id; stored = x; synced_at = now } in
    (
      row,
      head-append (has_no x.reservation_no) rows row (codes_eq_refl x.reservation_no) h,
      effective_self x,
    )
get_mirror-upsert_over read row_id now x rows (some prev) h =
    let next = effective prev.stored x in
    let (r, e) =
      head-update_where (has_no x.reservation_no) (is_row prev.id) (write_row now next) rows prev
        (λ (r : MirrorRow). codes_eq_refl x.reservation_no) ((eq_iff prev.id prev.id).1 refl) h in
    (write_row now next r, e, effective_again prev.stored x)

upsert_over-unchanged :
    (read : String → Option ℕ) (row_id : String) (now : ℕ) (x : MirrorRowInput) (rows : MirrorTable)
    (r : MirrorRow)
    → IsNumeric read x.amount
    → effective r.stored x ≡ r.stored
    → let outcome = (upsert_over read row_id now x (some r) rows).1 in
      outcome ≡ unchanged (write_row now r.stored r) (is_blocked r.stored x)
unfolding coalesce_mirror_input
upsert_over-unchanged read row_id now x rows r hs e =
    let numeric : IsNumeric read r.stored.amount =
      subst (λ (y : MirrorRowInput). IsNumeric read y.amount) e hs in
    rw (e, diff_mirror_fields_refl read r.stored numeric) refl

-- A payload that the poller delivers twice, at any two times, and whose amount is missing or a
-- number, leaves the second upsert `unchanged` over a row it finds, whose columns it writes back as
-- they were, and no event goes out for it, whatever the acknowledged status says.
pub upsert_mirror_row_again :
    (read : String → Option ℕ) (id1 id2 : String) (now1 now2 : ℕ) (x : MirrorRowInput)
    (rows : MirrorTable) (ack_status : Option (List ℕ))
    → IsNumeric read x.amount
    → let before = (upsert_mirror_row read id1 now1 x rows).0 in
      let outcome = (upsert_mirror_row read id2 now2 x before).1 in
      (r : MirrorRow) × (get_mirror_by_reservation_no x.reservation_no before ≡ some r)
      × (outcome ≡ unchanged (write_row now2 r.stored r) (is_blocked r.stored x))
      × (event_kind_for_upsert outcome ack_status ≡ none)
unfolding upsert_mirror_row event_kind_for_upsert
upsert_mirror_row_again read id1 id2 now1 now2 x rows ack_status hs =
    let found = get_mirror_by_reservation_no x.reservation_no rows in
    let before = (upsert_over read id1 now1 x found rows).0 in
    let (r, e, again) = get_mirror-upsert_over read id1 now1 x rows found refl in
    let same_outcome = upsert_over-unchanged read id2 now2 x before r hs again in
    (r, e, rw e same_outcome, rw (e, same_outcome) refl)
