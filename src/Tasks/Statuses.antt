-- ===== src/Tasks/Statuses.antt =====
-- The status diagram of a task, and what a history may change of a row.
use nistula_assistance.Prelude.{
  ℕ, ◌≡◌, ◌⊎◌, refl, none, some, List, [], ◌∷◌, true, arith, ◌∙◌, inl, inr, Bool-cases, get_elem?,
}
use nistula_assistance.Tasks.{
  Task, TaskTable, TaskStatus, opened, nudged, done, cancelled, notify_failed,
}
use nistula_assistance.Tasks.History.{
  Write, cancel_by_key, take_over, re_anchor, append, close_by, rung, undelivered, morning,
  stays_open, chased, guard_of, change_of, Event, write, insert, erasure, run_event, run_events,
}
use nistula_assistance.Tasks.Frozen.{get_elem?-run_write, get_elem?-insert, get_elem?-erasure}
use nistula_assistance.Tasks.Writes.{erase_guard, erase}

infix 40 ◌⟶◌ ◌⟶*◌
pub data ◌⟶◌ : TaskStatus → TaskStatus → Type 0 where
  wait : opened ⟶ opened
  chase : opened ⟶ nudged
  lose_card : opened ⟶ notify_failed
  finish : opened ⟶ done
  call_off : opened ⟶ cancelled
  keep_chased : nudged ⟶ nudged
  finish_late : nudged ⟶ done
  call_off_late : nudged ⟶ cancelled

pub data ◌⟶*◌ : TaskStatus → TaskStatus → Type 0 where
  here : {s : TaskStatus} → s ⟶* s
  next : {s t u : TaskStatus} → s ⟶ t → t ⟶* u → s ⟶* u

ruleset edges = (wait, chase, lose_card, finish, call_off, keep_chased, finish_late, call_off_late)

change_of-⟶ : (w : Write) (t : Task) → guard_of w t ≡ true → t.status ⟶ (change_of w t).status
change_of-⟶ (cancel_by_key key) t h = grind (arith, edges)
change_of-⟶ (take_over conversation) t h = grind (arith, edges)
change_of-⟶ (re_anchor id deadline) t h = grind (arith, edges)
change_of-⟶ (append id extra) t h = grind (arith, edges)
change_of-⟶ (close_by short_id by now) t h = grind (arith, edges)
change_of-⟶ (rung id expected stays_open) t h = grind (arith, edges)
change_of-⟶ (rung id expected chased) t h = grind (arith, edges)
change_of-⟶ (undelivered id) t h = grind (arith, edges)
change_of-⟶ (morning phone deadline) t h = grind (arith, edges)

-- Who a task is about and what it says of them.
pub record IsSameMatter (t u : Task) : Type 0 where
  pub same_conversation : u.conversation_id ≡ t.conversation_id
  pub same_guest : u.guest_id ≡ t.guest_id
  pub same_booking : u.booking_id ≡ t.booking_id
  pub same_summary : u.summary ≡ t.summary

-- A task whose guest was erased says nothing of anybody.
pub record IsErased (u : Task) : Type 0 where
  pub no_conversation : u.conversation_id ≡ none
  pub no_guest : u.guest_id ≡ none
  pub no_booking : u.booking_id ≡ none
  pub no_summary : u.summary ≡ "[erased]"

-- What stays of a row: its ids, when it was opened, who raised it, and who it is about.
pub record IsSameTask (t u : Task) : Type 0 where
  pub same_id : u.id ≡ t.id
  pub same_short_id : u.short_id ≡ t.short_id
  pub same_request : u.request_key ≡ t.request_key
  pub same_origin : u.origin ≡ t.origin
  pub same_opening : u.opened_at ≡ t.opened_at
  pub matter : IsSameMatter t u ⊎ IsErased u

IsSameMatter-refl : (t : Task) → IsSameMatter t t
IsSameMatter-refl t = ground arith

pub IsSameTask-refl : (t : Task) → IsSameTask t t
IsSameTask-refl t = record {
  same_id = refl;
  same_short_id = refl;
  same_request = refl;
  same_origin = refl;
  same_opening = refl;
  matter = inl (IsSameMatter-refl t);
}

matter_trans :
    {t u v : Task}
    → IsSameMatter t u ⊎ IsErased u
    → IsSameMatter u v ⊎ IsErased v
    → IsSameMatter t v ⊎ IsErased v
matter_trans h (inr k) = inr k
matter_trans (inl h) (inl k) = inl (ground arith)
matter_trans (inr h) (inl k) = inr (ground arith)

IsSameTask-trans : {t u v : Task} → IsSameTask t u → IsSameTask u v → IsSameTask t v
IsSameTask-trans h k = record {
  same_id = k.same_id ∙ h.same_id;
  same_short_id = k.same_short_id ∙ h.same_short_id;
  same_request = k.same_request ∙ h.same_request;
  same_origin = k.same_origin ∙ h.same_origin;
  same_opening = k.same_opening ∙ h.same_opening;
  matter = matter_trans h.matter k.matter;
}

erase-IsSameTask : (t : Task) → IsSameTask t (erase t)
erase-IsSameTask t = record {
  same_id = refl;
  same_short_id = refl;
  same_request = refl;
  same_origin = refl;
  same_opening = refl;
  matter = inr (ground arith);
}

change_of-IsSameMatter : (w : Write) (t : Task) → IsSameMatter t (change_of w t)
change_of-IsSameMatter (cancel_by_key key) t = ground arith
change_of-IsSameMatter (take_over conversation) t = ground arith
change_of-IsSameMatter (re_anchor id deadline) t = ground arith
change_of-IsSameMatter (append id extra) t = ground arith
change_of-IsSameMatter (close_by short_id by now) t = ground arith
change_of-IsSameMatter (rung id expected st) t = ground arith
change_of-IsSameMatter (undelivered id) t = ground arith
change_of-IsSameMatter (morning phone deadline) t = ground arith

abbrev IsSameRow : Task → Task → Type 0
IsSameRow t u =
    (u.id ≡ t.id)
    × (u.short_id ≡ t.short_id)
    × (u.request_key ≡ t.request_key)
    × (u.origin ≡ t.origin)
    × (u.opened_at ≡ t.opened_at)

change_of-IsSameRow : (w : Write) (t : Task) → IsSameRow t (change_of w t)
change_of-IsSameRow (cancel_by_key key) t = ground arith
change_of-IsSameRow (take_over conversation) t = ground arith
change_of-IsSameRow (re_anchor id deadline) t = ground arith
change_of-IsSameRow (append id extra) t = ground arith
change_of-IsSameRow (close_by short_id by now) t = ground arith
change_of-IsSameRow (rung id expected st) t = ground arith
change_of-IsSameRow (undelivered id) t = ground arith
change_of-IsSameRow (morning phone deadline) t = ground arith

pub change_of-IsSameTask : (w : Write) (t : Task) → IsSameTask t (change_of w t)
change_of-IsSameTask w t =
    let (id, short_id, request, origin, opening) = change_of-IsSameRow w t in
    record {
      same_id = id;
      same_short_id = short_id;
      same_request = request;
      same_origin = origin;
      same_opening = opening;
      matter = inl (change_of-IsSameMatter w t);
    }

abbrev pub Continues : TaskTable → ℕ → Task → Type 0
Continues rows i t =
    (u : Task) × (get_elem? rows i ≡ some u) × (t.status ⟶* u.status) × IsSameTask t u

run_event-Continues :
    (e : Event) (rows : TaskTable) (i : ℕ) (t : Task)
    → get_elem? rows i ≡ some t
    → Continues (run_event e rows) i t
unfolding run_event
run_event-Continues (write w) rows i t h = elim (Bool-cases (guard_of w t)) [
  | inl taken ↦ (
    change_of w t,
    rw taken at (get_elem?-run_write w rows i t h),
    next (change_of-⟶ w t taken) here,
    change_of-IsSameTask w t,
  )
  | inr left ↦ (t, rw left at (get_elem?-run_write w rows i t h), here, IsSameTask-refl t)
]
run_event-Continues (insert draw row_id input) rows i t h =
    (t, get_elem?-insert draw row_id input rows i t h, here, IsSameTask-refl t)
run_event-Continues (erasure guest conversation) rows i t h =
    elim (Bool-cases (erase_guard guest conversation t)) [
      | inl taken ↦ (
        erase t,
        rw taken at (get_elem?-erasure guest conversation rows i t h),
        here,
        erase-IsSameTask t,
      )
      | inr left ↦
          (t, rw left at (get_elem?-erasure guest conversation rows i t h), here, IsSameTask-refl t)
    ]

⟶*-append : {s t u : TaskStatus} → s ⟶* t → t ⟶* u → s ⟶* u
⟶*-append here k = k
⟶*-append (next e h) k = next e (⟶*-append h k)

-- Whatever sequence of writes, inserts and erasures of guests runs, a task keeps its place in the
-- table, its id, short id, request key, origin and opening time; it stays about the same guest,
-- conversation, booking and summary unless an erasure has blanked all four; and its status moves
-- along the diagram: never back to open from nudged, and never to notify_failed once nudged.
pub run_events-Continues :
    (es : List Event) (rows : TaskTable) (i : ℕ) (t : Task)
    → get_elem? rows i ≡ some t
    → Continues (run_events es rows) i t
unfolding run_events
run_events-Continues [] rows i t h = (t, h, here, IsSameTask-refl t)
run_events-Continues (e ∷ es) rows i t h =
    let (u, hu, path, same) = run_event-Continues e rows i t h in
    let (v, hv, path', same') = run_events-Continues es (run_event e rows) i u hu in
    (v, hv, ⟶*-append path path', IsSameTask-trans same same')
