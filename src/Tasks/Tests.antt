-- ===== src/Tasks/Tests.antt =====
-- The task table at concrete inputs: a towel request, an escalation and a night-queue task.
use nistula_assistance.Prelude.{
  ℕ, zero, suc, codes_eq, update_where, returning, ◌≤◌, ◌≡◌, refl, some, none, List, [], ◌∷◌, codes,
  arith, get_elem?,
}
use nistula_assistance.Tasks.{
  Task, TaskTable, housekeeping, escalation, night_queue, opened, done, guest,
}
use nistula_assistance.Tasks.Writes.{upper_code}
use nistula_assistance.Tasks.Insert.{NewTask, ok, insert_task}
use nistula_assistance.Tasks.Reads.{find_task_by_request_key}
use nistula_assistance.Tasks.History.{
  Event, write, append, close_by, rung, chased, morning, run_events, table_of,
}
use nistula_assistance.Tasks.Frozen.{run_events-closed}
use nistula_assistance.Tasks.Statuses.{Continues, run_events-Continues}
use nistula_assistance.Tasks.Requests.{IsOk, insert_task-IsOk, request_is_one_task}
use nistula_assistance.Tasks.Closing.{bearers, closed_bearers, total_wins, total_wins_le_one}

abbrev towels : Task
towels = record {
  id = "t-1";
  conversation_id = some "c-1";
  guest_id = some "g-1";
  booking_id = none;
  villa_label = some "Villa Noa";
  kind = housekeeping;
  short_id = codes "7F3K2M";
  request_key = some "c-1:m-1:housekeeping";
  summary = "two towels";
  detail = none;
  status = opened;
  origin = guest;
  assigned_phone = some "+91900";
  sla_minutes = 30;
  sla_deadline = 1800000;
  nudge_count = 0;
  opened_at = 0;
  closed_at = none;
  closed_by = none;
}

abbrev finished : Task
finished = record towels {
  id = "t-2";
  short_id = codes "AAAAAA";
  status = done;
  request_key = none;
}

abbrev night : Task
night = record towels {
  id = "t-3";
  short_id = codes "BBBBBB";
  kind = night_queue;
  request_key = none;
  assigned_phone = none;
  sla_deadline = 30000000;
}

abbrev board : TaskTable
board = towels ∷ finished ∷ night ∷ []

-- DONE from two phones, in two cases, with the morning and a nudge in between.
abbrev busy_day : List Event
busy_day =
    write (morning (some "+91901") 30600000)
    ∷ write (close_by (codes "7f3k2m") "Asha" 900000)
    ∷ write (rung "t-1" 0 chased)
    ∷ write (close_by (codes "7F3K2M") "Ravi" 901000)
    ∷ write (append "t-2" "and soap")
    ∷ []

one_bearer : bearers (codes "7F3K2M") board ≡ 1
unfolding bearers codes_eq
one_bearer = refl

-- The first DONE acts, so the bound below is reached.
one_win : total_wins (codes "7F3K2M") busy_day board ≡ 1
unfolding total_wins run_events upper_code codes_eq returning update_where
one_win = refl

total_wins_le_one_example :
    (total_wins (codes "7F3K2M") busy_day board ≤ 1)
    × (closed_bearers (codes "7F3K2M") board ≡ 1 → total_wins (codes "7F3K2M") busy_day board ≡ 0)
total_wins_le_one_example =
    total_wins_le_one (codes "7F3K2M") busy_day board (rw one_bearer (omega arith))

run_events-closed_example : get_elem? (run_events busy_day board) 1 ≡ some finished
run_events-closed_example = run_events-closed busy_day board 1 finished refl refl

run_events-Continues_example : Continues (run_events busy_day board) 0 towels
run_events-Continues_example = run_events-Continues busy_day board 0 towels refl

abbrev request : NewTask
request = record {
  conversation_id = some "c-9";
  guest_id = some "g-9";
  booking_id = none;
  villa_label = none;
  kind = escalation;
  summary = "lost key";
  detail = none;
  assigned_phone = none;
  request_key = some "c-9:m-4:escalation";
  origin = none;
  sla_deadline = none;
  now = 1000;
}

-- The first draw collides with the towels, the second is free.
abbrev unlucky : ℕ → List ℕ
unlucky zero = codes "7F3K2M"
unlucky (suc _) = codes "CCCCCC"

insert_task-IsOk_example : IsOk (insert_task unlucky "t-4" request board)
unfolding codes_eq
insert_task-IsOk_example = insert_task-IsOk unlucky "t-4" request board 1 (omega arith) refl refl

abbrev inserted : Task
inserted = record {
  id = "t-4";
  conversation_id = some "c-9";
  guest_id = some "g-9";
  booking_id = none;
  villa_label = none;
  kind = escalation;
  short_id = codes "CCCCCC";
  request_key = some "c-9:m-4:escalation";
  summary = "lost key";
  detail = none;
  status = opened;
  origin = guest;
  assigned_phone = none;
  sla_minutes = 10;
  sla_deadline = 601000;
  nudge_count = 0;
  opened_at = 1000;
  closed_at = none;
  closed_by = none;
}

abbrev board_after : TaskTable
board_after = towels ∷ finished ∷ night ∷ inserted ∷ []

insert_on_second_draw : insert_task unlucky "t-4" request board ≡ ok board_after inserted
unfolding insert_task codes_eq
insert_on_second_draw = refl

request_is_one_task_example :
    ((t : Task) × (find_task_by_request_key "c-9:m-4:escalation" board_after ≡ some t)
      × (t.request_key ≡ some "c-9:m-4:escalation"))
    × (table_of (insert_task (λ i. codes "DDDDDD") "t-5" request board_after) board_after
        ≡ board_after)
request_is_one_task_example =
    request_is_one_task unlucky (λ i. codes "DDDDDD") "t-4" "t-5" "c-9:m-4:escalation" request
      request board board_after inserted insert_on_second_draw refl refl
