-- ===== src/Lifecycle/Scheduler/Kept.antt =====
-- What a row of scheduled_messages may become: the relation that the writes of the scheduler keep.
use nistula_assistance.Prelude.{
  ℕ, ◌≡◌, ◌⊎◌, inl, inr, refl, ◌∙◌, ap, String, some, List, [], ◌∷◌, Bool, true, false, arith,
  eq_iff, get_elem?, get_elem?-update_where, get_elem?-append, update_where, any, Bool-cases,
  if◌then◌else◌,
}
use nistula_assistance.Lifecycle.{
  BookingMirror, ScheduledRow, ScheduledStatus, ScheduledKind, lead_followup, Reason, is_pending,
  same_kind, Guest,
}
use nistula_assistance.Lifecycle.Writes.{
  ScheduledTable, key_in, revoke_pending, resolve_row, followup_guard,
  cancel_pending_lead_followups, Upsert, same_key, upsert, upsert_guard, upsert_row, fresh_row,
}
use nistula_assistance.Lifecycle.Plan.{PlannedSend}
use nistula_assistance.Lifecycle.Scheduler.{
  SchedulerDeps, dedupe_keys_for, revoke, upsert_of, upsert_all,
}

module _ (Allowed : ScheduledRow → Type 0) where
  -- What a row becomes: the same one, rescheduled while pending, or withdrawn where that is allowed.
  pub record IsKept (r r' : ScheduledRow) : Type 0 where
    pub same_id : r'.id ≡ r.id
    pub same_kind : r'.kind ≡ r.kind
    pub same_key : r'.dedupe_key ≡ r.dedupe_key
    pub frozen : is_pending r.status ≡ false → r' ≡ r
    pub still_or_withdrawn :
        (r'.status ≡ r.status) ⊎ ((r'.status ≡ ScheduledStatus.cancelled) × Allowed r)

  abbrev pub Keeps : ScheduledTable → ScheduledTable → Type 0
  Keeps rows rows' =
      (i : ℕ) (r : ScheduledRow)
      → get_elem? rows i ≡ some r
      → (r' : ScheduledRow) × (get_elem? rows' i ≡ some r') × IsKept r r'

  pub IsKept-refl : (r : ScheduledRow) → IsKept r r
  IsKept-refl r = record {
    same_id = refl;
    same_kind = refl;
    same_key = refl;
    frozen = λ _. refl;
    still_or_withdrawn = inl refl;
  }

  pub Keeps-refl : (rows : ScheduledTable) → Keeps rows rows
  Keeps-refl rows = λ i r h. (r, h, IsKept-refl r)

  Keeps-update_where :
      (p : ScheduledRow → Bool) (f : ScheduledRow → ScheduledRow) (rows : ScheduledTable)
      → ((r : ScheduledRow) → p r ≡ true → IsKept r (f r))
      → Keeps rows (update_where p f rows)
  Keeps-update_where p f rows h = λ i r e. (
    (if p r then f r else r),
    get_elem?-update_where p f rows i r e,
    elim (Bool-cases (p r)) [ inl hit ↦ rw hit (h r hit) | inr miss ↦ rw miss (IsKept-refl r) ],
  )

  module _ (deps : SchedulerDeps) where
    pub revoke-Keeps :
        (number : List ℕ) (reason : Reason) (rows : ScheduledTable)
        → ((r : ScheduledRow) → key_in (dedupe_keys_for number) r.dedupe_key ≡ true → Allowed r)
        → Keeps rows (revoke deps number reason rows).0
    unfolding revoke revoke_pending
    revoke-Keeps number reason rows a =
        Keeps-update_where _ (resolve_row deps.stamp ScheduledStatus.cancelled reason) rows (λ r h.
          record {
            same_id = refl;
            same_kind = refl;
            same_key = refl;
            frozen = λ gone. absurd (ground arith);
            still_or_withdrawn = inr (refl, a r (ground arith));
          })

    same_kind-eq : (k : ScheduledKind) → same_kind k lead_followup ≡ true → k ≡ lead_followup
    same_kind-eq k h = ground arith

    pub cancel-Keeps :
        (guest : String) (rows : ScheduledTable)
        → ((r : ScheduledRow) → r.kind ≡ lead_followup → r.guest_id ≡ guest → Allowed r)
        → Keeps rows (cancel_pending_lead_followups deps.stamp guest rows)
    unfolding cancel_pending_lead_followups
    cancel-Keeps guest rows a =
        Keeps-update_where (followup_guard guest)
          (resolve_row deps.stamp ScheduledStatus.cancelled Reason.converted) rows
          (λ r h. record {
            same_id = refl;
            same_kind = refl;
            same_key = refl;
            frozen = λ gone. absurd (ground arith);
            still_or_withdrawn = inr (
              refl,
              a r (same_kind-eq r.kind (ground arith)) ((eq_iff r.guest_id guest).0 (ground arith)),
            );
          })

-- What an upsert never does is withdraw a row.
abbrev Never : ScheduledRow → Type 0
Never r = false ≡ true

IsKept-then :
    (Allowed : ScheduledRow → Type 0) (r r' r'' : ScheduledRow)
    → IsKept Allowed r r'
    → IsKept Never r' r''
    → IsKept Allowed r r''
IsKept-then Allowed r r' r'' h k = record {
  same_id = k.same_id ∙ h.same_id;
  same_kind = k.same_kind ∙ h.same_kind;
  same_key = k.same_key ∙ h.same_key;
  frozen = λ gone.
      let same = h.frozen gone in k.frozen (ap (λ x. is_pending x.status) same ∙ gone) ∙ same;
  still_or_withdrawn = elim k.still_or_withdrawn [
    | inl same ↦ elim h.still_or_withdrawn [
      | inl e ↦ inl (same ∙ e)
      | inr (e, a) ↦ inr (same ∙ e, a)
    ]
    | inr (e, never) ↦ absurd (ground arith)
  ];
}

pub Keeps-then :
    (Allowed : ScheduledRow → Type 0) (rows rows' rows'' : ScheduledTable)
    → Keeps Allowed rows rows'
    → Keeps Never rows' rows''
    → Keeps Allowed rows rows''
Keeps-then Allowed rows rows' rows'' h k = λ i r e.
    let (r', e', kept) = h i r e in
    let (r'', e'', kept') = k i r' e' in (r'', e'', IsKept-then Allowed r r' r'' kept kept')

module _ (deps : SchedulerDeps) where
  upsert-Keeps : (u : Upsert) (rows : ScheduledTable) → Keeps Never rows (upsert deps.stamp u rows)
  unfolding upsert
  upsert-Keeps u rows = elim (Bool-cases (any (λ r. same_key r.dedupe_key u.dedupe_key) rows)) [
    | inl taken ↦ rw taken (
        Keeps-update_where Never (upsert_guard u.dedupe_key) (upsert_row deps.stamp u) rows (λ r h.
          record {
            same_id = refl;
            same_kind = refl;
            same_key = refl;
            frozen = λ gone. absurd (ground arith);
            still_or_withdrawn = inl refl;
          }))
    | inr fresh ↦ rw fresh (λ i r e.
        (r, get_elem?-append rows (fresh_row deps.stamp u ∷ []) i r e, IsKept-refl Never r))
  ]

  pub upsert_all-Keeps :
      (row : BookingMirror) (guest : Guest) (plan : List PlannedSend) (rows : ScheduledTable)
      → Keeps Never rows (upsert_all deps row guest plan rows)
  unfolding upsert_all
  upsert_all-Keeps row guest [] rows = Keeps-refl Never rows
  upsert_all-Keeps row guest (s ∷ plan) rows =
      let rows' = upsert deps.stamp (upsert_of deps row guest s) rows in
      Keeps-then Never rows rows' (upsert_all deps row guest plan rows')
        (upsert-Keeps (upsert_of deps row guest s) rows) (upsert_all-Keeps row guest plan rows')
