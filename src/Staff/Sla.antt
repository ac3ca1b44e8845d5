-- ===== src/Staff/Sla.antt =====
-- src/staff/sla.ts: the nudger of overdue tasks. Its tick is a loop over a batch of rows that were
-- read at its start; between the sends of one task and the update that records them other workers
-- may write, and a send or a write may throw, which the loop catches.
pub mod Honesty
pub mod Ladder
use nistula_assistance.Prelude.{
  ℕ, zero, suc, ◌+◌, ◌*◌, String, Option, some, none, List, [], ◌∷◌, ◌++◌, Bool, true, false, ◌&&◌,
  str_eq, any, ltb, leb, if◌then◌else◌, get_elem?, length,
}
use nistula_assistance.Tasks.{
  Task, TaskTable, TaskKind, housekeeping, maintenance, frontdesk, escalation, night_queue, opened,
  nudged, is_guest_origin, TaskStatus,
}
use nistula_assistance.Tasks.Writes.{mark_rung_fired}
use nistula_assistance.Tasks.Reads.{find_overdue_tasks}
use nistula_assistance.Tasks.History.{Event, run_events}
use nistula_assistance.Staff.Roster.{Roster, StaffMember, frontdesk_lead}

pub record Rung : Type 0 where
  pub after_ms : ℕ
  pub cc_ops : Bool

-- RUNGS
abbrev pub rungs : TaskKind → List Rung
rungs housekeeping = record { after_ms = 0; cc_ops = false } ∷ []
rungs maintenance = record { after_ms = 0; cc_ops = false } ∷ []
rungs frontdesk = record { after_ms = 0; cc_ops = false } ∷ []
rungs escalation =
    record { after_ms = 0; cc_ops = false } ∷ record { after_ms = 10 * 60000; cc_ops = true } ∷ []
rungs night_queue = []

-- How the client answers a send: `ok`, not `ok`, or by throwing.
pub data Sending : Type 0 where
  sent refused threw : Sending

-- The card of a nudge and the values that its text interpolates; the sanitising of the text is not
-- modelled.
pub data Card : Type 0 where
  escalation_card :
      (short_id : List ℕ) (minutes : ℕ) (summary : String) (detail : Option String) → Card
  task_card : (short_id : List ℕ) (villa : String) (minutes : ℕ) (summary : String) → Card

pub data AlertKind : Type 0 where
  sla_nudge_undelivered task_sla_breached : AlertKind

pub record Alert : Type 0 where
  pub kind : AlertKind
  pub task_id : String
  pub cc_ops : Bool

-- The `sender: 'system'` row that licenses "I have nudged them" on a guest's thread.
pub record Evidence : Type 0 where
  pub conversation_id : String
  pub short_id : List ℕ

pub record World : Type 0 where
  pub tasks : TaskTable
  pub evidence : List Evidence
  pub alerts : List Alert

pub record SlaDeps : Type 0 where
  pub roster : Roster
  pub ops_numbers : List String
  pub now : ℕ
  -- what the messaging client does with a card for a task and a number
  pub send : String → String → Card → Sending
  -- whether the database rejects the update, or the evidence row, for a task
  pub update_throws : String → Bool
  pub evidence_throws : String → Bool
  -- what other workers commit while the sends of a task are under way
  pub meanwhile : String → List Event

-- Set.prototype.add, which keeps the order of the first insertions
abbrev pub add_to_set : List String → String → List String
add_to_set set phone = if any (λ p. str_eq p phone) set then set else set ++ phone ∷ []

abbrev pub add_all : List String → List String → List String
add_all set [] = set
add_all set (p ∷ ps) = add_all (add_to_set set p) ps

abbrev pub assignee : Option String → List String
assignee none = []
assignee (some phone) = phone ∷ []

abbrev pub lead_phone : Option StaffMember → List String
lead_phone none = []
lead_phone (some m) = m.phone ∷ []

module _ (deps : SlaDeps) where
  unfoldable pub recipients : Task → Rung → List String
  unfolding frontdesk_lead
  recipients task rung =
      let people =
        add_all (assignee task.assigned_phone) (lead_phone (frontdesk_lead deps.roster)) in
      if rung.cc_ops then add_all people deps.ops_numbers else people

abbrev villa_or : Option String → String
villa_or none = "villa not confirmed"
villa_or (some villa) = villa

abbrev card_for : TaskKind → Task → Card
card_for escalation t = escalation_card t.short_id t.sla_minutes t.summary t.detail
card_for _ t = task_card t.short_id (villa_or t.villa_label) t.sla_minutes t.summary

abbrev pub card_of : Task → Card
card_of t = card_for t.kind t

-- The final rung leaves the task chased, an earlier one leaves it open.
abbrev pub next_status : ℕ → TaskKind → TaskStatus
next_status k kind = if leb (length (rungs kind)) (k + 1) then nudged else opened

abbrev pub count_if : Bool → ℕ → ℕ
count_if true n = suc n
count_if false n = n

pub record NudgeRun : Type 0 where
  pub considered : ℕ
  pub nudged : ℕ

module _ (deps : SlaDeps) where
  -- The loop over the recipients: `sent` if any send was accepted.
  unfoldable pub send_all : Task → List String → Bool → Sending
  send_all task [] delivered = if delivered then sent else refused
  send_all task (phone ∷ phones) delivered = elim (deps.send task.id phone (card_of task)) [
    | sent ↦ send_all task phones true
    | refused ↦ send_all task phones delivered
    | threw ↦ threw
  ]

  -- nudgeOne, with what others did meanwhile; `threw` leaves by the loop's catch
  unfoldable pub nudge_one : Task → Rung → World → World × Sending
  unfolding send_all recipients run_events
  nudge_one task rung w =
      let w' = record w { tasks = run_events (deps.meanwhile task.id) w.tasks } in
      elim (send_all task (recipients deps task rung) false) [
        | sent ↦ (
          record w' {
            alerts =
                w.alerts
                ++ record { kind = task_sla_breached; task_id = task.id; cc_ops = rung.cc_ops }
                  ∷ [];
          },
          sent,
        )
        | refused ↦ (
          record w' {
            alerts =
                w.alerts
                ++ record { kind = sla_nudge_undelivered; task_id = task.id; cc_ops = rung.cc_ops }
                  ∷ [];
          },
          refused,
        )
        | threw ↦ (w', threw)
      ]

  -- writeNudgeEvidence: its own catch makes a rejected insert telemetry only
  unfoldable pub write_nudge_evidence : Task → World → World
  write_nudge_evidence task w = elim task.conversation_id [
    | none ↦ w
    | some conversation ↦
        if is_guest_origin task.origin
        then if deps.evidence_throws task.id then w else record w {
          evidence =
              w.evidence
              ++ record { conversation_id = conversation; short_id = task.short_id } ∷ [];
        }
        else w
  ]

  -- a row came back, or another worker was first
  abbrev pub settle : Task → World → List Task → World × Bool
  settle task w [] = (w, false)
  settle task w (_ ∷ _) = (write_nudge_evidence task w, true)

  -- the advance of the rung, by the row that the update returns
  unfoldable pub claim : Task → World → World × Bool
  unfolding write_nudge_evidence mark_rung_fired
  claim task w =
      if deps.update_throws task.id
      then (w, false)
      else let (rows, returned) =
          mark_rung_fired task.id task.nudge_count (next_status task.nudge_count task.kind)
            w.tasks in
        settle task (record w { tasks = rows }) returned

  abbrev pub claim_if_sent : Task → World × Sending → World × Bool
  claim_if_sent task (w, sent) = claim task w
  claim_if_sent task (w, _) = (w, false)

  -- the body of the loop
  unfoldable pub nudge_task : Task → World → World × Bool
  unfolding nudge_one claim
  nudge_task task w = elim (get_elem? (rungs task.kind) task.nudge_count) [
    | none ↦ (w, false)
    | some rung ↦
        if ltb deps.now (task.sla_deadline + rung.after_ms)
        then (w, false)
        else claim_if_sent task (nudge_one task rung w)
  ]

  unfoldable pub nudge_all : List Task → World → ℕ → World × ℕ
  unfolding nudge_task
  nudge_all [] w nudges = (w, nudges)
  nudge_all (task ∷ batch) w nudges =
      let (w', did) = nudge_task task w in nudge_all batch w' (count_if did nudges)

  unfoldable pub run_sla_nudger : World → World × NudgeRun
  unfolding nudge_all find_overdue_tasks
  run_sla_nudger w =
      let overdue = find_overdue_tasks deps.now 20 w.tasks in
      let (w', nudges) = nudge_all overdue w 0 in
      (w', record { considered = length overdue; nudged = nudges })
