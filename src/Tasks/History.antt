-- ===== src/Tasks/History.antt =====
-- The writes of src/db/tasks.ts, and the erasure of a guest, in any order: each is one atomic statement of the database, so a
-- history of concurrent workers is a sequence of them.
use nistula_assistance.Prelude.{ℕ, String, Option, List, [], ◌∷◌, Bool}
use nistula_assistance.Tasks.{Task, TaskTable, TaskStatus, opened, nudged}
use nistula_assistance.Tasks.Writes.{
  key_guard, cancel, handover_guard, open_guard, move_deadline, live_guard, append_detail,
  close_guard, close, rung_guard, fire_rung, fail_notify, night_guard, wake, guarded,
  cancel_live_task_by_request_key, cancel_live_escalations_for_conversation,
  update_open_task_deadline, append_to_task, close_task_by_short_id, mark_rung_fired,
  mark_notify_failed, convert_night_queue_tasks, erase_guest_tasks,
}
use nistula_assistance.Tasks.Insert.{NewTask, Inserted, ok, err, insert_task}

-- RungStatus: what a rung may land a task on
pub data RungStatus : Type 0 where
  stays_open chased : RungStatus

abbrev pub rung_status : RungStatus → TaskStatus
rung_status stays_open = opened
rung_status chased = nudged

pub data Write : Type 0 where
  cancel_by_key : String → Write
  take_over : String → Write
  re_anchor : String → ℕ → Write
  append : String → String → Write
  close_by : List ℕ → String → ℕ → Write
  rung : String → ℕ → RungStatus → Write
  undelivered : String → Write
  morning : Option String → ℕ → Write

unfoldable pub run_write : Write → TaskTable → TaskTable × List Task
unfolding cancel_live_task_by_request_key cancel_live_escalations_for_conversation
    update_open_task_deadline append_to_task close_task_by_short_id mark_rung_fired
    mark_notify_failed convert_night_queue_tasks guarded
run_write (cancel_by_key key) = cancel_live_task_by_request_key key
run_write (take_over conversation) = cancel_live_escalations_for_conversation conversation
run_write (re_anchor id deadline) = update_open_task_deadline id deadline
run_write (append id extra) = append_to_task id extra
run_write (close_by short_id by now) = close_task_by_short_id short_id by now
run_write (rung id expected st) = mark_rung_fired id expected (rung_status st)
run_write (undelivered id) = mark_notify_failed id
run_write (morning phone deadline) = convert_night_queue_tasks phone deadline

-- Each write is the guarded update of these two.
abbrev pub guard_of : Write → Task → Bool
guard_of (cancel_by_key key) = key_guard key
guard_of (take_over conversation) = handover_guard conversation
guard_of (re_anchor id deadline) = open_guard id
guard_of (append id extra) = live_guard id
guard_of (close_by short_id by now) = close_guard short_id
guard_of (rung id expected st) = rung_guard id expected
guard_of (undelivered id) = open_guard id
guard_of (morning phone deadline) = night_guard

abbrev pub change_of : Write → Task → Task
change_of (cancel_by_key key) = cancel
change_of (take_over conversation) = cancel
change_of (re_anchor id deadline) = move_deadline deadline
change_of (append id extra) = append_detail extra
change_of (close_by short_id by now) = close by now
change_of (rung id expected st) = fire_rung expected (rung_status st)
change_of (undelivered id) = fail_notify
change_of (morning phone deadline) = wake phone deadline

-- A step of a history: a write, an insert with the ids that it draws, or the erasure of a guest.
pub data Event : Type 0 where
  write : Write → Event
  insert : (ℕ → List ℕ) → String → NewTask → Event
  erasure : String → Option String → Event

abbrev pub table_of : Inserted → TaskTable → TaskTable
table_of (ok rows row) old = rows
table_of (err e) old = old

unfoldable pub run_event : Event → TaskTable → TaskTable
unfolding run_write insert_task erase_guest_tasks
run_event (write w) rows = (run_write w rows).0
run_event (insert draw row_id input) rows = table_of (insert_task draw row_id input rows) rows
run_event (erasure guest conversation) rows = erase_guest_tasks guest conversation rows

unfoldable pub run_events : List Event → TaskTable → TaskTable
unfolding run_event
run_events [] rows = rows
run_events (e ∷ es) rows = run_events es (run_event e rows)
