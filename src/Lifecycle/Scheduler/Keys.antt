-- ===== src/Lifecycle/Scheduler/Keys.antt =====
-- One row for each dedupe key: what the unique index of scheduled_messages promises is what
-- scheduling keeps by itself.
use mathlib.Core.Path.{subst}
use nistula_assistance.Prelude.{
  All, All-map, All-append, update_where-All, select_where, codes_eq, codes_eq_refl, ◌⊎◌, some, ℕ,
  suc, ◌+◌, ◌≤◌, ◌≡◌, inl, inr, refl, sym, ◌∙◌, ap, String, List, [], ◌∷◌, ◌++◌, Bool, true, false,
  arith, any, update_where, Bool-cases, codes_eq→eq, if◌then◌else◌,
}
use nistula_assistance.Lifecycle.{
  BookingMirror, ScheduledRow, ScheduledStatus, ScheduledKind, Reason, Guest, same_kind,
}
use nistula_assistance.Lifecycle.Writes.{
  ScheduledTable, DedupeKey, same_key, revoke_pending, resolve_row, followup_guard,
  cancel_pending_lead_followups, Upsert, upsert, upsert_guard, upsert_row, fresh_row,
}
use nistula_assistance.Lifecycle.Plan.{PlannedSend, sends, matrix, plan_sends}
use nistula_assistance.Lifecycle.Plan.Timing.{plan_typed-sends}
use nistula_assistance.Stays.{DescribedStay, reference_base}
use nistula_assistance.Lifecycle.Scheduler.{
  SchedulerDeps, mirror_row, revoke, upsert_of, upsert_all,
}

-- How many rows carry a key.
unfoldable pub keyed : DedupeKey → ScheduledTable → ℕ
keyed key [] = 0
keyed key (r ∷ rows) =
    let rest = keyed key rows in if same_key r.dedupe_key key then suc rest else rest

abbrev pub HasUniqueKeys : ScheduledTable → Type 0
HasUniqueKeys rows = (key : DedupeKey) → keyed key rows ≤ 1

keyed-update_where :
    (key : DedupeKey) (p : ScheduledRow → Bool) (f : ScheduledRow → ScheduledRow)
    (rows : ScheduledTable)
    → ((r : ScheduledRow) → (f r).dedupe_key ≡ r.dedupe_key)
    → keyed key (update_where p f rows) ≡ keyed key rows
unfolding keyed update_where
keyed-update_where key p f [] h = refl
keyed-update_where key p f (r ∷ rows) h = elim (Bool-cases (p r)) [
  | inl hit ↦ rw (hit, h r, keyed-update_where key p f rows h) refl
  | inr miss ↦ rw (miss, keyed-update_where key p f rows h) refl
]

keyed-append :
    (key : DedupeKey) (r : ScheduledRow) (rows : ScheduledTable)
    → keyed key (rows ++ r ∷ []) ≡ keyed key rows + (if same_key r.dedupe_key key then 1 else 0)
unfolding keyed
keyed-append key r [] = ground arith
keyed-append key r (x ∷ rows) = ground (arith, keyed-append key r rows)

keyed_free :
    (key : DedupeKey) (rows : ScheduledTable)
    → any (λ r. same_key r.dedupe_key key) rows ≡ false
    → keyed key rows ≡ 0
unfolding keyed
keyed_free key [] h = refl
keyed_free key (r ∷ rows) h = ground (arith, keyed_free key rows)

same_kind→eq : (k l : ScheduledKind) → same_kind k l ≡ true → k ≡ l
same_kind→eq k l h = ground arith

pub same_key→eq : (key key' : DedupeKey) → same_key key key' ≡ true → key ≡ key'
same_key→eq (k, s) (l, t) h =
    let same : k ≡ l = same_kind→eq k l (ground arith) in
    let base : s ≡ t = codes_eq→eq s t (ground arith) in cc (same, base)

HasUniqueKeys-update_where :
    (p : ScheduledRow → Bool) (f : ScheduledRow → ScheduledRow) (rows : ScheduledTable)
    → ((r : ScheduledRow) → (f r).dedupe_key ≡ r.dedupe_key)
    → HasUniqueKeys rows
    → HasUniqueKeys (update_where p f rows)
HasUniqueKeys-update_where p f rows h u = λ key. rw (keyed-update_where key p f rows h) (u key)

pub HasUniqueKeys-append :
    (r : ScheduledRow) (rows : ScheduledTable)
    → any (λ x. same_key x.dedupe_key r.dedupe_key) rows ≡ false
    → HasUniqueKeys rows
    → HasUniqueKeys (rows ++ r ∷ [])
HasUniqueKeys-append r rows h u = λ key. elim (Bool-cases (same_key r.dedupe_key key)) [
  | inr other ↦ rw (keyed-append key r rows, other) (omega (arith, u key))
  | inl same ↦
      let none_yet : keyed key rows ≡ 0 =
        ap (λ k. keyed k rows) (sym (same_key→eq r.dedupe_key key same))
        ∙ keyed_free r.dedupe_key rows h in
      rw (keyed-append key r rows, same) (omega (arith, none_yet))
]

module _ (deps : SchedulerDeps) where
  pub revoke-HasUniqueKeys :
      (number : List ℕ) (reason : Reason) (rows : ScheduledTable)
      → HasUniqueKeys rows
      → HasUniqueKeys (revoke deps number reason rows).0
  unfolding revoke revoke_pending
  revoke-HasUniqueKeys number reason rows u =
      HasUniqueKeys-update_where _ (resolve_row deps.stamp ScheduledStatus.cancelled reason) rows
        (λ r. refl) u

  upsert-HasUniqueKeys :
      (u : Upsert) (rows : ScheduledTable)
      → HasUniqueKeys rows
      → HasUniqueKeys (upsert deps.stamp u rows)
  unfolding upsert
  upsert-HasUniqueKeys u rows h =
      elim (Bool-cases (any (λ r. same_key r.dedupe_key u.dedupe_key) rows)) [
        | inl taken ↦ rw taken (
            HasUniqueKeys-update_where (upsert_guard u.dedupe_key) (upsert_row deps.stamp u) rows
              (λ r. refl) h)
        | inr fresh ↦ rw fresh (HasUniqueKeys-append (fresh_row deps.stamp u) rows fresh h)
      ]

  pub upsert_all-HasUniqueKeys :
      (row : BookingMirror) (guest : Guest) (plan : List PlannedSend) (rows : ScheduledTable)
      → HasUniqueKeys rows
      → HasUniqueKeys (upsert_all deps row guest plan rows)
  unfolding upsert_all
  upsert_all-HasUniqueKeys row guest [] rows h = h
  upsert_all-HasUniqueKeys row guest (s ∷ plan) rows h =
      upsert_all-HasUniqueKeys row guest plan _
        (upsert-HasUniqueKeys (upsert_of deps row guest s) rows h)

  pub cancel-HasUniqueKeys :
      (guest : String) (rows : ScheduledTable)
      → HasUniqueKeys rows
      → HasUniqueKeys (cancel_pending_lead_followups deps.stamp guest rows)
  unfolding cancel_pending_lead_followups
  cancel-HasUniqueKeys guest rows h =
      HasUniqueKeys-update_where (followup_guard guest)
        (resolve_row deps.stamp ScheduledStatus.cancelled Reason.converted) rows (λ r. refl) h

-- A planned message stands under one of a booking's own keys: a kind, and the reservation number
-- without the suffix of a room.
abbrev pub is_own_key : List ℕ → DedupeKey → Bool
is_own_key number (kind, base) = codes_eq base (reference_base number)

abbrev pub IsOwnKey : List ℕ → PlannedSend → Type 0
IsOwnKey number s = is_own_key number s.dedupe_key ≡ true

-- The key of a row had a row before, or is one of the booking's.
abbrev pub IsKnown : ScheduledTable → List ℕ → ScheduledRow → Type 0
IsKnown before number r =
    (any (λ o. same_key o.dedupe_key r.dedupe_key) before ≡ true)
    ⊎ (is_own_key number r.dedupe_key ≡ true)

matrix-IsOwnKey :
    (row : BookingMirror) (stay : DescribedStay) (type_name : List ℕ)
    → All (IsOwnKey row.ezee_reservation_no) (matrix row stay type_name)
matrix-IsOwnKey row stay type_name =
    let own = codes_eq_refl (reference_base row.ezee_reservation_no) in
    (own, (own, (own, (own, (own, tt)))))

pub plan_sends-IsOwnKey :
    (row : BookingMirror) (stay : DescribedStay) (plan : List PlannedSend)
    → plan_sends row stay ≡ sends plan
    → All (IsOwnKey row.ezee_reservation_no) plan
unfolding plan_sends
plan_sends-IsOwnKey row stay plan h =
    let (type_name, e) = plan_typed-sends row stay stay.villa plan (ground arith) in
    subst (All (IsOwnKey row.ezee_reservation_no)) e (matrix-IsOwnKey row stay type_name)

pub mirror_row-number :
    (number : List ℕ) (bookings : List BookingMirror) (row : BookingMirror)
    → mirror_row number bookings ≡ some row
    → row.ezee_reservation_no ≡ number
unfolding select_where
mirror_row-number number [] row h = absurd (ground arith)
mirror_row-number number (x ∷ bookings) row h =
    elim (Bool-cases (codes_eq x.ezee_reservation_no number)) [
      | inl hit ↦
          let e : x ≡ row = ground arith in
          ap (λ (y : BookingMirror). y.ezee_reservation_no) (sym e) ∙ codes_eq→eq _ _ hit
      | inr miss ↦ mirror_row-number number bookings row (ground arith)
    ]

same_key_refl : (key : DedupeKey) → same_key key key ≡ true
same_key_refl (kind, base) = ground (arith, codes_eq_refl base)

any-later :
    (p : ScheduledRow → Bool) (xs : List ScheduledRow) (x : ScheduledRow)
    → any p xs ≡ true
    → any p (x ∷ xs) ≡ true
any-later p xs x h = ground arith

IsKnown-later :
    (number : List ℕ) (before : ScheduledTable) (x r : ScheduledRow)
    → IsKnown before number r
    → IsKnown (x ∷ before) number r
IsKnown-later number before x r (inl h) = inl (any-later _ before x h)
IsKnown-later number before x r (inr h) = inr h

pub All-IsKnown : (number : List ℕ) (rows : ScheduledTable) → All (IsKnown rows number) rows
All-IsKnown number [] = tt
All-IsKnown number (r ∷ rows) = (
  inl (rw (same_key_refl r.dedupe_key) refl),
  All-map (IsKnown-later number rows r) rows (All-IsKnown number rows),
)

module _ (deps : SchedulerDeps) (before : ScheduledTable) (number : List ℕ) where
  pub revoke-IsKnown :
      (n : List ℕ) (reason : Reason) (rows : ScheduledTable)
      → All (IsKnown before number) rows
      → All (IsKnown before number) (revoke deps n reason rows).0
  unfolding revoke revoke_pending
  revoke-IsKnown n reason rows h =
      update_where-All (IsKnown before number) _
        (resolve_row deps.stamp ScheduledStatus.cancelled reason) rows (λ r p k. k) h

  pub cancel-IsKnown :
      (guest : String) (rows : ScheduledTable)
      → All (IsKnown before number) rows
      → All (IsKnown before number) (cancel_pending_lead_followups deps.stamp guest rows)
  unfolding cancel_pending_lead_followups
  cancel-IsKnown guest rows h =
      update_where-All (IsKnown before number) (followup_guard guest)
        (resolve_row deps.stamp ScheduledStatus.cancelled Reason.converted) rows (λ r p k. k) h

  upsert-IsKnown :
      (u : Upsert) (rows : ScheduledTable)
      → is_own_key number u.dedupe_key ≡ true
      → All (IsKnown before number) rows
      → All (IsKnown before number) (upsert deps.stamp u rows)
  unfolding upsert
  upsert-IsKnown u rows own h =
      elim (Bool-cases (any (λ r. same_key r.dedupe_key u.dedupe_key) rows)) [
        | inl taken ↦ rw taken (
            update_where-All (IsKnown before number) (upsert_guard u.dedupe_key)
              (upsert_row deps.stamp u) rows (λ r p k. k) h)
        | inr fresh ↦
            rw fresh (
              All-append (IsKnown before number) rows (fresh_row deps.stamp u ∷ []) h (inr own, tt))
      ]

  pub upsert_all-IsKnown :
      (row : BookingMirror) (guest : Guest) (plan : List PlannedSend) (rows : ScheduledTable)
      → All (IsOwnKey number) plan
      → All (IsKnown before number) rows
      → All (IsKnown before number) (upsert_all deps row guest plan rows)
  unfolding upsert_all
  upsert_all-IsKnown row guest [] rows owns h = h
  upsert_all-IsKnown row guest (s ∷ plan) rows (own, owns) h =
      upsert_all-IsKnown row guest plan _ owns
        (upsert-IsKnown (upsert_of deps row guest s) rows own h)
