-- ===== src/Tasks/Writes.antt =====
-- The guarded UPDATEs of src/db/tasks.ts. Each has its WHERE as a guard and its SET as a change;
-- the operation returns the table after it and the rows of RETURNING.
use Prim.Native.String
use nistula_assistance.Prelude.{
  ℕ, ◌+◌, ◌-◌, String, Option, some, none, List, Bool, ◌&&◌, ◌||◌, ◌==◌, leb, map, codes_eq, str_eq,
  if◌then◌else◌, update_where, returning,
}
use nistula_assistance.Tasks.{
  Task, TaskTable, TaskStatus, done, cancelled, notify_failed, escalation, sla_minutes_of, is_live,
  is_open, is_night_queue, is_handover, column_is,
}

-- A guarded update: the table after it, and the rows that it changed.
unfoldable pub guarded : (Task → Bool) → (Task → Task) → TaskTable → TaskTable × List Task
guarded guard change rows = (update_where guard change rows, returning guard change rows)

-- toUpperCase, on the letters and digits that the id of a command is made of
unfoldable pub upper_code : ℕ → ℕ
upper_code c = if leb b'a' c && leb c b'z' then c + b'A' - b'a' else c

abbrev pub to_upper : List ℕ → List ℕ
to_upper s = map upper_code s

abbrev pub key_guard : String → Task → Bool
key_guard key t = column_is t.request_key key && is_live t.status

abbrev pub cancel : Task → Task
cancel t = record t { status = cancelled }

unfoldable pub cancel_live_task_by_request_key : String → TaskTable → TaskTable × List Task
unfolding guarded
cancel_live_task_by_request_key key = guarded (key_guard key) cancel

abbrev pub handover_guard : String → Task → Bool
handover_guard conversation t =
    column_is t.conversation_id conversation && (is_handover t.kind && is_live t.status)

unfoldable pub cancel_live_escalations_for_conversation : String → TaskTable → TaskTable × List Task
unfolding guarded
cancel_live_escalations_for_conversation conversation = guarded (handover_guard conversation) cancel

abbrev pub open_guard : String → Task → Bool
open_guard id t = str_eq t.id id && is_open t.status

abbrev pub move_deadline : ℕ → Task → Task
move_deadline deadline t = record t { sla_deadline = deadline }

unfoldable pub update_open_task_deadline : String → ℕ → TaskTable → TaskTable × List Task
unfolding guarded
update_open_task_deadline id deadline = guarded (open_guard id) (move_deadline deadline)

-- concat_ws(chr(10), detail, extra), which leaves a NULL out
abbrev pub concat_lines : Option String → String → String
concat_lines none extra = extra
concat_lines (some detail) extra = String.◌++◌ detail (String.◌++◌ "\n" extra)

abbrev pub live_guard : String → Task → Bool
live_guard id t = str_eq t.id id && is_live t.status

abbrev pub append_detail : String → Task → Task
append_detail extra t = record t { detail = some (concat_lines t.detail extra) }

unfoldable pub append_to_task : String → String → TaskTable → TaskTable × List Task
unfolding guarded
append_to_task id extra = guarded (live_guard id) (append_detail extra)

abbrev pub close_guard : List ℕ → Task → Bool
close_guard short_id t = codes_eq t.short_id (to_upper short_id) && is_live t.status

abbrev pub close : String → ℕ → Task → Task
close closed_by now t = record t { status = done; closed_at = some now; closed_by = some closed_by }

unfoldable pub close_task_by_short_id : List ℕ → String → ℕ → TaskTable → TaskTable × List Task
unfolding guarded
close_task_by_short_id short_id closed_by now = guarded (close_guard short_id) (close closed_by now)

abbrev pub rung_guard : String → ℕ → Task → Bool
rung_guard id expected t = str_eq t.id id && (is_open t.status && t.nudge_count == expected)

abbrev pub fire_rung : ℕ → TaskStatus → Task → Task
fire_rung expected new_status t = record t { status = new_status; nudge_count = expected + 1 }

unfoldable pub mark_rung_fired : String → ℕ → TaskStatus → TaskTable → TaskTable × List Task
unfolding guarded
mark_rung_fired id expected new_status =
    guarded (rung_guard id expected) (fire_rung expected new_status)

abbrev pub fail_notify : Task → Task
fail_notify t = record t { status = notify_failed }

unfoldable pub mark_notify_failed : String → TaskTable → TaskTable × List Task
unfolding guarded
mark_notify_failed id = guarded (open_guard id) fail_notify

abbrev pub night_guard : Task → Bool
night_guard t = is_night_queue t.kind && is_open t.status

abbrev pub wake : Option String → ℕ → Task → Task
wake phone deadline t = record t {
  kind = escalation;
  assigned_phone = phone;
  sla_minutes = sla_minutes_of escalation;
  sla_deadline = deadline;
  nudge_count = 0;
}

unfoldable pub convert_night_queue_tasks : Option String → ℕ → TaskTable → TaskTable × List Task
unfolding guarded
convert_night_queue_tasks phone deadline = guarded night_guard (wake phone deadline)

-- The tasks of a guest that src/db/erasure.ts erases, by the guest or by the guest's conversation.
abbrev pub erase_guard : String → Option String → Task → Bool
erase_guard guest none t = column_is t.guest_id guest
erase_guard guest (some conversation) t =
    column_is t.guest_id guest || column_is t.conversation_id conversation

abbrev pub erase : Task → Task
erase t = record t {
  guest_id = none;
  conversation_id = none;
  booking_id = none;
  summary = "[erased]";
  detail = none;
}

-- The UPDATE of the tasks in eraseGuestByPhone, over tasks in any status.
unfoldable pub erase_guest_tasks : String → Option String → TaskTable → TaskTable
erase_guest_tasks guest conversation = update_where (erase_guard guest conversation) erase
