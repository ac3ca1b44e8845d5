-- ===== src/Tasks/Insert.antt =====
-- insertTask of src/db/tasks.ts: an open task with a fresh short id, drawn again on a collision.
use Prim.Native.String
use nistula_assistance.Prelude.{
  ℕ, zero, suc, ◌+◌, ◌*◌, String, Option, some, none, List, [], ◌∷◌, ◌++◌, Bool, true, false, ◌==◌,
  codes_eq, if◌then◌else◌, any,
}
use nistula_assistance.Tasks.{
  Task, TaskTable, TaskKind, TaskOrigin, opened, guest, housekeeping, maintenance, frontdesk,
  escalation, night_queue, sla_minutes_of, column_is,
}

pub record NewTask : Type 0 where
  pub conversation_id : Option String
  pub guest_id : Option String
  pub booking_id : Option String
  pub villa_label : Option String
  pub kind : TaskKind
  pub summary : String
  pub detail : Option String
  pub assigned_phone : Option String
  pub request_key : Option String
  pub origin : Option TaskOrigin
  pub sla_deadline : Option ℕ
  pub now : ℕ

-- The errors of the database that the code tells apart: which unique index was violated.
pub data InsertError : Type 0 where
  short_id_taken request_key_taken unreachable : InsertError

pub data Inserted : Type 0 where
  ok : TaskTable → Task → Inserted
  err : InsertError → Inserted

abbrev pub or_else {ℓ} : {A : Type ℓ} → Option A → A → A
or_else none d = d
or_else (some a) d = a

-- The row of the VALUES clause; `row_id` is the uuid that the column's default draws.
unfoldable pub new_row : String → List ℕ → NewTask → Task
new_row row_id short_id input = record {
  id = row_id;
  conversation_id = input.conversation_id;
  guest_id = input.guest_id;
  booking_id = input.booking_id;
  villa_label = input.villa_label;
  kind = input.kind;
  short_id = short_id;
  request_key = input.request_key;
  summary = input.summary;
  detail = input.detail;
  status = opened;
  origin = or_else input.origin guest;
  assigned_phone = input.assigned_phone;
  sla_minutes = sla_minutes_of input.kind;
  sla_deadline = or_else input.sla_deadline (input.now + sla_minutes_of input.kind * 60000);
  nudge_count = 0;
  opened_at = input.now;
  closed_at = none;
  closed_by = none;
}

abbrev pub has_short_id : List ℕ → Task → Bool
has_short_id short_id t = codes_eq t.short_id short_id

-- A NULL request key is equal to no other, so a unique index admits many.
abbrev pub same_key : Option String → Task → Bool
same_key none t = false
same_key (some key) t = column_is t.request_key key

-- INSERT under the two unique indexes of the table
unfoldable pub insert_row : Task → TaskTable → Inserted
insert_row row rows =
    if any (has_short_id row.short_id) rows
    then err short_id_taken
    else if any (same_key row.request_key) rows
    then err request_key_taken
    else ok (rows ++ row ∷ []) row

-- `attempt === 4 || !isShortIdCollision(error)` in the handler
abbrev pub gives_up : ℕ → InsertError → Bool
gives_up attempt short_id_taken = attempt == 4
gives_up attempt _ = true

module _ (draw : ℕ → List ℕ) (row_id : String) (input : NewTask) (rows : TaskTable) where
  -- The loop over the attempts; `draw` is the short id that each attempt generates.
  unfoldable pub insert_attempts : ℕ → ℕ → Inserted
  unfolding insert_row new_row
  insert_attempts zero attempt = err unreachable
  insert_attempts (suc left) attempt =
      let again = insert_attempts left (attempt + 1) in
      elim (insert_row (new_row row_id (draw attempt) input) rows) [
        | ok rows' row ↦ ok rows' row
        | err e ↦ if gives_up attempt e then err e else again
      ]

  unfoldable pub insert_task : Inserted
  unfolding insert_attempts
  insert_task = insert_attempts 5 0

abbrev kind_text : TaskKind → String
kind_text housekeeping = "housekeeping"
kind_text maintenance = "maintenance"
kind_text frontdesk = "frontdesk"
kind_text escalation = "escalation"
kind_text night_queue = "night_queue"

-- The retry key of a request: conversation, oldest guest message and kind.
unfoldable pub task_request_key : String → String → TaskKind → String
task_request_key conversation cursor kind =
    String.◌++◌ conversation
      (String.◌++◌ ":" (String.◌++◌ cursor (String.◌++◌ ":" (kind_text kind))))
