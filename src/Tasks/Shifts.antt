-- ===== src/Tasks/Shifts.antt =====
-- A human takes a thread over; the night's queue wakes in the morning (src/db/tasks.ts).
use nistula_assistance.Prelude.{
  ℕ, ◌≡◌, refl, String, Option, [], ◌∷◌, Bool, false, arith, All, length, select_where,
  length-returning, update_where, returning-update_where, returning-All,
}
use nistula_assistance.Tasks.{Task, TaskTable, opened, cancelled, escalation}
use nistula_assistance.Tasks.Writes.{
  cancel, handover_guard, cancel_live_escalations_for_conversation, night_guard, wake,
  convert_night_queue_tasks,
}

-- No row that the guard selects is left by a change that falsifies the guard.
update_where-cleared :
    (p : Task → Bool) (f : Task → Task) (rows : TaskTable)
    → ((t : Task) → p (f t) ≡ false)
    → All (λ t. p t ≡ false) (update_where p f rows)
unfolding update_where
update_where-cleared p f [] h = tt
update_where-cleared p f (t ∷ rows) h = (ground (arith, h t), update_where-cleared p f rows h)

abbrev pub SameOutside : (Task → Bool) → TaskTable → TaskTable → Type 0
SameOutside p [] [] = Unit
SameOutside p (t ∷ ts) (u ∷ us) = (p t ≡ false → u ≡ t) × SameOutside p ts us
SameOutside p _ _ = ⊥

update_where-SameOutside :
    (p : Task → Bool) (f : Task → Task) (rows : TaskTable)
    → SameOutside p rows (update_where p f rows)
unfolding update_where
update_where-SameOutside p f [] = tt
update_where-SameOutside p f (t ∷ rows) = ((λ h. ground arith), update_where-SameOutside p f rows)

-- A takeover leaves no live escalation or night-queue task of that conversation, changes no other
-- row, returns one cancelled row for each that it changed, and returns none when it is applied
-- again.
pub takeover_clears :
    (conversation : String) (rows : TaskTable)
    → let (after, returned) = cancel_live_escalations_for_conversation conversation rows in
      All (λ t. handover_guard conversation t ≡ false) after
      × SameOutside (handover_guard conversation) rows after
      × All (λ t. t.status ≡ cancelled) returned
      × (length returned ≡ length (select_where (handover_guard conversation) rows))
      × ((cancel_live_escalations_for_conversation conversation after).1 ≡ [])
unfolding cancel_live_escalations_for_conversation
takeover_clears conversation rows =
    let p = handover_guard conversation in
    let gone : (t : Task) → p (cancel t) ≡ false = λ t. ground arith in
    (
      update_where-cleared p cancel rows gone,
      update_where-SameOutside p cancel rows,
      returning-All (λ t. t.status ≡ cancelled) p cancel rows (λ t h. refl),
      length-returning p cancel rows,
      returning-update_where p cancel cancel rows gone,
    )

-- What a task of the night is after the morning's conversion.
pub record IsAwake (phone : Option String) (deadline : ℕ) (t : Task) : Type 0 where
  pub kind : t.kind ≡ escalation
  pub status : t.status ≡ opened
  pub assigned : t.assigned_phone ≡ phone
  pub clock : t.sla_deadline ≡ deadline
  pub minutes : t.sla_minutes ≡ 10
  pub rung : t.nudge_count ≡ 0

-- The morning's conversion leaves no open night-queue task, changes no other row, returns each
-- converted row as an open escalation of the given person with a fresh clock on its first rung, and
-- converts nothing when it runs again.
pub morning_wakes :
    (phone phone' : Option String) (deadline deadline' : ℕ) (rows : TaskTable)
    → let (after, returned) = convert_night_queue_tasks phone deadline rows in
      All (λ t. night_guard t ≡ false) after
      × SameOutside night_guard rows after
      × All (IsAwake phone deadline) returned
      × ((convert_night_queue_tasks phone' deadline' after).1 ≡ [])
unfolding convert_night_queue_tasks
morning_wakes phone phone' deadline deadline' rows =
    let f = wake phone deadline in
    let gone : (t : Task) → night_guard (f t) ≡ false = λ t. refl in
    (
      update_where-cleared night_guard f rows gone,
      update_where-SameOutside night_guard f rows,
      returning-All (IsAwake phone deadline) night_guard f rows (λ t h. ground arith),
      returning-update_where night_guard f (wake phone' deadline') rows gone,
    )
