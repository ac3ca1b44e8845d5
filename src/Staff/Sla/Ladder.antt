-- ===== src/Staff/Sla/Ladder.antt =====
-- The escalation ladder: which rung fires when, and what a tick leaves alone (runSlaNudger).
use nistula_assistance.Prelude.{
  any, String, Bool, str_eq, ℕ, ◌+◌, ◌≤◌, ◌<◌, ◌≡◌, ◌≢◌, refl, ◌∙◌, ◌⊎◌, inl, inr, some, List, [],
  ◌∷◌, true, false, arith, get_elem?, Option-cases, returning, select_where,
  update_where_of_returning_nil,
}
use nistula_assistance.Tasks.{Task, opened, nudged, escalation}
use nistula_assistance.Tasks.Writes.{rung_guard, fire_rung, mark_rung_fired}
use nistula_assistance.Tasks.Reads.{find_overdue_tasks}
use nistula_assistance.Tasks.History.{run_events}
use nistula_assistance.Staff.Roster.{StaffMember, frontdesk_lead}
use nistula_assistance.Staff.Sla.{
  Rung, rungs, sent, World, SlaDeps, recipients, send_all, next_status, settle, nudge_task,
  run_sla_nudger,
}

module _ (deps : SlaDeps) where
  -- What a nudge that was counted did: its rung was due, the sends succeeded, and the guarded
  -- update found the task still open on that rung after whatever others did meanwhile.
  pub record IsCounted (task : Task) (w : World) : Type 0 where
    pub rung : Rung
    pub turn : get_elem? (rungs task.kind) task.nudge_count ≡ some rung
    pub due : task.sla_deadline + rung.after_ms ≤ deps.now
    pub answered : send_all deps task (recipients deps task rung) false ≡ sent
    pub won :
        returning
          (rung_guard task.id task.nudge_count)
          (fire_rung task.nudge_count (next_status task.nudge_count task.kind))
          (run_events (deps.meanwhile task.id) w.tasks)
        ≢ []

  settle-won :
      (task : Task) (w : World) (returned : List Task)
      → (settle deps task w returned).1 ≡ true
      → returned ≢ []
  settle-won task w [] h = absurd (ground arith)
  settle-won task w (_ ∷ _) h = λ e. absurd (ground arith)

  nudge_task-won :
      (task : Task) (rung : Rung) (w : World)
      → get_elem? (rungs task.kind) task.nudge_count ≡ some rung
      → (nudge_task deps task w).1 ≡ true
      → (task.sla_deadline + rung.after_ms ≤ deps.now)
        × (send_all deps task (recipients deps task rung) false ≡ sent)
        × (returning
              (rung_guard task.id task.nudge_count)
              (fire_rung task.nudge_count (next_status task.nudge_count task.kind))
              (run_events (deps.meanwhile task.id) w.tasks)
            ≢ [])
  unfolding nudge_task mark_rung_fired
  nudge_task-won task rung w turn h = ground (arith, settle-won task)

  pub nudge_task-IsCounted :
      (task : Task) (w : World) → (nudge_task deps task w).1 ≡ true → IsCounted task w
  unfolding nudge_task
  nudge_task-IsCounted task w h =
      elim (Option-cases (get_elem? (rungs task.kind) task.nudge_count)) [
        | inl spent ↦ absurd (ground arith)
        | inr (rung, turn) ↦
            let (due, answered, won) = nudge_task-won task rung w turn h in
            record { rung = rung; turn = turn; due = due; answered = answered; won = won }
      ]

  -- A nudge that is not counted writes no evidence, and leaves the table to the other workers.
  pub nudge_task_uncounted :
      (task : Task) (w : World)
      → (nudge_task deps task w).1 ≡ false
      → ((nudge_task deps task w).0.evidence ≡ w.evidence)
        × (((nudge_task deps task w).0.tasks ≡ w.tasks)
            ⊎ ((nudge_task deps task w).0.tasks ≡ run_events (deps.meanwhile task.id) w.tasks))
  unfolding nudge_task mark_rung_fired
  nudge_task_uncounted task w h = ground (
    arith,
    update_where_of_returning_nil (rung_guard task.id task.nudge_count)
        (fire_rung task.nudge_count (next_status task.nudge_count task.kind))
        (run_events (deps.meanwhile task.id) w.tasks),
  )

-- What makes a rung of a single open task fire in a tick.
pub record IsFiring (deps : SlaDeps) (task : Task) (rung : Rung) : Type 0 where
  pub turn : get_elem? (rungs task.kind) task.nudge_count ≡ some rung
  pub is_opened : task.status ≡ opened
  pub due : task.sla_deadline + rung.after_ms ≤ deps.now
  pub answered : send_all deps task (recipients deps task rung) false ≡ sent
  pub quiet : deps.meanwhile task.id ≡ []
  pub works : deps.update_throws task.id ≡ false

run_sla_nudger-batch :
    (deps : SlaDeps) (w : World) (task : Task)
    → find_overdue_tasks deps.now 20 w.tasks ≡ task ∷ []
    → (run_sla_nudger deps w).0 ≡ (nudge_task deps task w).0
unfolding run_sla_nudger
run_sla_nudger-batch deps w task h = rw h refl

-- The rows of an escalation after each of its two rungs.
abbrev pub once_chased : Task → Task
once_chased task = fire_rung 0 opened task

abbrev pub twice_chased : Task → Task
twice_chased task = fire_rung 1 nudged (once_chased task)

run_sla_nudger_nothing :
    (deps : SlaDeps) (w : World)
    → find_overdue_tasks deps.now 20 w.tasks ≡ []
    → (run_sla_nudger deps w).0 ≡ w
unfolding run_sla_nudger
run_sla_nudger_nothing deps w h = rw h refl

-- Who a card is sent to.
abbrev pub is_in : String → List String → Bool
is_in phone phones = any (λ p. str_eq p phone) phones

-- A number that belongs to the task's assignee or to a member at the front desk.
abbrev pub IsOwn : SlaDeps → Task → String → Type 0
IsOwn deps task p =
    (task.assigned_phone ≡ some p)
    ⊎ ((m : StaffMember) × (frontdesk_lead deps.roster ≡ some m) × (m.phone ≡ p))

find_overdue_tasks-cases :
    (now : ℕ) (task : Task)
    → (find_overdue_tasks now 20 (task ∷ []) ≡ [])
      ⊎ (find_overdue_tasks now 20 (task ∷ []) ≡ task ∷ [])
unfolding find_overdue_tasks select_where
find_overdue_tasks-cases now task = ground arith

nudge_task_early :
    (deps : SlaDeps) (w : World) (task : Task)
    → task.kind ≡ escalation
    → deps.now < task.sla_deadline + 600000
    → (nudge_task deps (once_chased task) w).0 ≡ w
unfolding nudge_task
nudge_task_early deps w task kind early = ground arith

-- Before its ten minutes have passed, a tick leaves an escalation that was chased once as it is.
pub escalation_waits :
    (deps : SlaDeps) (w : World) (task : Task)
    → w.tasks ≡ once_chased task ∷ []
    → task.kind ≡ escalation
    → deps.now < task.sla_deadline + 600000
    → (run_sla_nudger deps w).0 ≡ w
escalation_waits deps w task one kind early =
    elim (find_overdue_tasks-cases deps.now (once_chased task)) [
      | inl idle ↦ run_sla_nudger_nothing deps w (rw one idle)
      | inr batch ↦
          run_sla_nudger-batch deps w (once_chased task) (rw one batch)
          ∙ nudge_task_early deps w task kind early
    ]
