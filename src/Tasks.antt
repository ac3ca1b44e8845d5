-- ===== src/Tasks.antt =====
-- The tasks table (src/db/schema.ts, src/db/tasks.ts): the kinds, statuses and rows of staff work.
-- A uuid is the text that the driver returns, an instant is the milliseconds since 1970.
pub mod Writes
pub mod ShortId
pub mod Insert
pub mod Reads
pub mod History
pub mod Frozen
pub mod Statuses
pub mod Closing
pub mod Requests
pub mod Shifts
mod Tests
use nistula_assistance.Prelude.{ℕ, String, Option, some, none, List, Bool, true, false, str_eq}

pub data TaskKind : Type 0 where
  housekeeping maintenance frontdesk escalation night_queue : TaskKind

pub data TaskOrigin : Type 0 where
  guest system : TaskOrigin

pub data TaskStatus : Type 0 where
  opened nudged done cancelled notify_failed : TaskStatus

pub record Task : Type 0 where
  pub id : String
  pub conversation_id : Option String
  pub guest_id : Option String
  pub booking_id : Option String
  pub villa_label : Option String
  pub kind : TaskKind
  pub short_id : List ℕ
  pub request_key : Option String
  pub summary : String
  pub detail : Option String
  pub status : TaskStatus
  pub origin : TaskOrigin
  pub assigned_phone : Option String
  pub sla_minutes : ℕ
  pub sla_deadline : ℕ
  pub nudge_count : ℕ
  pub opened_at : ℕ
  pub closed_at : Option ℕ
  pub closed_by : Option String

abbrev pub TaskTable : Type 0
TaskTable = List Task

-- SLA_MINUTES
abbrev pub sla_minutes_of : TaskKind → ℕ
sla_minutes_of housekeeping = 30
sla_minutes_of frontdesk = 10
sla_minutes_of maintenance = 120
sla_minutes_of escalation = 10
sla_minutes_of night_queue = 10

-- LIVE_TASK_STATUSES
abbrev pub is_live : TaskStatus → Bool
is_live opened = true
is_live nudged = true
is_live _ = false

abbrev pub is_open : TaskStatus → Bool
is_open opened = true
is_open _ = false

abbrev pub is_night_queue : TaskKind → Bool
is_night_queue night_queue = true
is_night_queue _ = false

-- the kinds that a takeover resolves
abbrev pub is_handover : TaskKind → Bool
is_handover escalation = true
is_handover night_queue = true
is_handover _ = false

abbrev pub is_guest_origin : TaskOrigin → Bool
is_guest_origin guest = true
is_guest_origin system = false

-- SQL `column = value`, which is not true of a NULL.
abbrev pub column_is : Option String → String → Bool
column_is none v = false
column_is (some u) v = str_eq u v
