-- ===== src/Staff/Commands.antt =====
-- src/staff/commands.ts, handleDraftDecision of src/staff/draftCommands.ts, applyHumanTakeover of
-- src/staff/humanTakeover.ts, and the writes of a takeover in src/db/repos.ts.
pub mod Approvals
pub mod Held
pub mod Repeated
use nistula_assistance.Prelude.{
  ℕ, ◌+◌, ◌*◌, String, Option, some, none, List, [], ◌∷◌, ◌++◌, Bool, true, false, ◌&&◌, ◌||◌,
  codes, codes_eq, str_eq, length, head?, take, select_where, update_where, if◌then◌else◌,
}
use nistula_assistance.Lifecycle.{ConversationStatus, Guest}
use nistula_assistance.Tasks.{Task, TaskKind, TaskOrigin, TaskTable}
use nistula_assistance.Tasks.Writes.{
  close_task_by_short_id, cancel_live_escalations_for_conversation,
}
use nistula_assistance.Tasks.Reads.{find_task_by_short_id, get_live_tasks_for_phone}
use nistula_assistance.Drafts.{DraftTable, DraftStatus}
use nistula_assistance.Messages.{
  Message, MessageTable, MessageDirection, MessageSender, MessageType, MessageStatus,
  insert_message,
}
use nistula_assistance.Turn.Cursor.{Thread, ThreadTable}
use nistula_assistance.Turn.Policy.{is_human_active}
use nistula_assistance.Turn.Worker.{
  TurnContext, find_thread, find_guest, get_conversation_turn_context,
}
use nistula_assistance.Staff.Roster.{Roster, is_ops_number}
use nistula_assistance.Staff.Parsing.{
  StaffCommand, done, tasks, ai_on, ai_off, unknown, DraftCommand, parse_staff_command,
}

-- What a staff phone is answered; the texts are left out.
pub data Answer : Type 0 where
  task_list : List Task → Answer
  closed already_closed no_such_task no_guest : List ℕ → Answer
  ambiguous : ℕ → Answer
  paused resumed : Answer
  dropped no_thread human_has_it sent_to_guest not_sent : List ℕ → Answer
  no_such_draft : List ℕ → Answer
  already_decided : List ℕ → DraftStatus → Answer

-- A send that the commands ask of the messaging client, in order.
pub data Sent : Type 0 where
  to_staff : String → Answer → Option String → Sent
  close_line : List ℕ → TaskKind → String → Sent
  reply : List ℕ → String → String → Sent
  alert_no_conversation alert_not_sent : List ℕ → Sent
  cancel_pending : String → Sent

pub record Desk : Type 0 where
  pub tasks : TaskTable
  pub threads : ThreadTable
  pub guests : List Guest
  pub messages : MessageTable
  pub drafts : DraftTable
  pub sent : List Sent

-- The wiring, and what is drawn outside: the id and the clock of a row, the text of some codes, and
-- whether the messaging client takes a reply to a guest.
pub record StaffCommandDeps : Type 0 where
  pub now : ℕ
  pub roster : Roster
  pub row_id : String
  pub stamp : ℕ
  pub text_of : List ℕ → String
  pub accepts : List ℕ → String → Bool

abbrev pub say : Sent → Desk → Desk
say s desk = record desk { sent = desk.sent ++ s ∷ [] }

abbrev pub is_guest_origin : TaskOrigin → Bool
is_guest_origin TaskOrigin.guest = true
is_guest_origin TaskOrigin.system = false

abbrev pub is_guest_task : Task → Bool
is_guest_task t = is_guest_origin t.origin

abbrev pub evidence_row : StaffCommandDeps → String → List ℕ → Message
evidence_row deps conversation short_id = record {
  id = deps.row_id;
  conversation_id = some conversation;
  guest_id = none;
  wa_message_id = none;
  direction = MessageDirection.outward;
  sender = MessageSender.system;
  message_type = MessageType.text;
  body = some (deps.text_of (codes "task closed: " ++ short_id));
  media_id = none;
  template_name = none;
  status = MessageStatus.sent;
  error = none;
  created_at = deps.stamp;
}

-- The conversation that a close is told in: the task is the guest's own and has one.
abbrev pub told_in : Task → Option String
told_in t = if is_guest_task t then t.conversation_id else none

abbrev pub evidence_in : StaffCommandDeps → List ℕ → Option String → MessageTable → MessageTable
evidence_in deps short_id none rows = rows
evidence_in deps short_id (some conversation) rows =
    (insert_message (evidence_row deps conversation short_id) rows).0

unfoldable pub write_task_done_evidence : StaffCommandDeps → Task → MessageTable → MessageTable
unfolding insert_message
write_task_done_evidence deps t rows = evidence_in deps t.short_id (told_in t) rows

abbrev pub holds : Thread → ℕ → Bool
holds t now = is_human_active t.status t.human_active_until now

abbrev pub close_line_to : StaffCommandDeps → TaskKind → Option TurnContext → Desk → Desk
close_line_to deps kind none desk = desk
close_line_to deps kind (some ctx) desk =
    if holds ctx.conversation deps.now
    then desk
    else say (close_line ctx.guest.phone kind ctx.conversation.id) desk

abbrev pub tell_in : StaffCommandDeps → TaskKind → Option String → Desk → Desk
tell_in deps kind none desk = desk
tell_in deps kind (some conversation) desk =
    close_line_to deps kind (get_conversation_turn_context conversation desk.threads desk.guests)
      desk

unfoldable pub tell_guest : StaffCommandDeps → Task → Desk → Desk
unfolding get_conversation_turn_context is_human_active
tell_guest deps t desk = tell_in deps t.kind (told_in t) desk

abbrev pub unclosable : String → List ℕ → Option Task → Sent
unclosable phone short_id none = to_staff phone (no_such_task short_id) none
unclosable phone short_id (some t) = to_staff phone (already_closed t.short_id) t.guest_id

unfoldable pub reply_to_unclosable : String → List ℕ → Desk → Desk
unfolding find_task_by_short_id
reply_to_unclosable phone short_id desk =
    say (unclosable phone short_id (find_task_by_short_id short_id desk.tasks)) desk

-- After the transaction: the row that was closed, or none.
abbrev pub after_close : StaffCommandDeps → String → List ℕ → TaskTable → Option Task → Desk → Desk
after_close deps phone short_id rows none desk =
    reply_to_unclosable phone short_id (record desk { tasks = rows })
after_close deps phone short_id rows (some t) desk = tell_guest deps t (
    say (to_staff phone (closed t.short_id) t.guest_id)
      (record desk { tasks = rows; messages = write_task_done_evidence deps t desk.messages }))

unfoldable pub handle_done : StaffCommandDeps → String → List ℕ → Desk → Desk
unfolding close_task_by_short_id reply_to_unclosable tell_guest write_task_done_evidence
handle_done deps phone short_id desk =
    let (rows, closed_rows) = close_task_by_short_id short_id phone deps.now desk.tasks in
    after_close deps phone short_id rows (head? closed_rows) desk

-- LIKE '%digits'
unfoldable pub ends_with : List ℕ → List ℕ → Bool
ends_with digits [] = codes_eq digits []
ends_with digits (c ∷ text) = let rest = ends_with digits text in codes_eq digits (c ∷ text) || rest

abbrev pub phone_ends : List ℕ → Option Guest → Bool
phone_ends digits none = false
phone_ends digits (some g) = ends_with digits g.phone

abbrev pub guest_ends_with : List ℕ → List Guest → Thread → Bool
guest_ends_with digits guests t = phone_ends digits (find_guest t.guest_id guests)

-- The conversations whose guest's phone ends so, ten at most; their order is left out.
unfoldable pub find_conversations_by_phone_suffix : List ℕ → List Guest → ThreadTable → List Thread
unfolding ends_with
find_conversations_by_phone_suffix digits guests threads =
    take 10 (select_where (guest_ends_with digits guests) threads)

abbrev pub thread_guard : String → Thread → Bool
thread_guard id t = str_eq t.id id

abbrev pub take_over : ConversationStatus → Option ℕ → Thread → Thread
take_over status until t = record t { status = status; human_active_until = until }

unfoldable pub set_takeover_state :
    String → ConversationStatus → Option ℕ → ThreadTable → ThreadTable
set_takeover_state id status until = update_where (thread_guard id) (take_over status until)

abbrev pub hold_until : ℕ → Thread → Thread
hold_until until t = record t { human_active_until = some until }

unfoldable pub set_human_active_until : String → ℕ → ThreadTable → ThreadTable
set_human_active_until id until = update_where (thread_guard id) (hold_until until)

abbrev pub pause : String → Thread → Desk → Desk
pause phone target desk = say (to_staff phone paused (some target.guest_id)) (record desk {
  threads = set_takeover_state target.id ConversationStatus.human_active none desk.threads;
  tasks = (cancel_live_escalations_for_conversation target.id desk.tasks).0;
})

abbrev pub resume : String → Thread → Desk → Desk
resume phone target desk = say (to_staff phone resumed (some target.guest_id)) (record desk {
  threads = set_takeover_state target.id ConversationStatus.ai_active none desk.threads;
})

abbrev pub toggle : String → List ℕ → Bool → List Thread → Desk → Desk
toggle phone digits off [] desk = say (to_staff phone (no_guest digits) none) desk
toggle phone digits off (t ∷ []) desk = if off then pause phone t desk else resume phone t desk
toggle phone digits off (t ∷ u ∷ rest) desk =
    say (to_staff phone (ambiguous (length (t ∷ u ∷ rest))) none) desk

unfoldable pub handle_ai_toggle : String → List ℕ → Bool → Desk → Desk
unfolding find_conversations_by_phone_suffix set_takeover_state
    cancel_live_escalations_for_conversation
handle_ai_toggle phone digits off desk =
    toggle phone digits off (find_conversations_by_phone_suffix digits desk.guests desk.threads)
      desk

unfoldable pub handle_tasks : String → Desk → Desk
unfolding get_live_tasks_for_phone
handle_tasks phone desk =
    say (to_staff phone (task_list (get_live_tasks_for_phone phone desk.tasks)) none) desk

-- HUMAN_ACTIVE_TTL_MS
abbrev pub human_active_ttl_ms : ℕ
human_active_ttl_ms = 2 * 60 * 60 * 1000

-- the human's message of an echo, without its raw payload
pub record Echo : Type 0 where
  pub wa_message_id : Option String
  pub body : Option String

abbrev pub echo_row : String → ℕ → String → Echo → Message
echo_row row_id stamp conversation echo = record {
  id = row_id;
  conversation_id = some conversation;
  guest_id = none;
  wa_message_id = echo.wa_message_id;
  direction = MessageDirection.outward;
  sender = MessageSender.human;
  message_type = MessageType.text;
  body = echo.body;
  media_id = none;
  template_name = none;
  status = MessageStatus.sent;
  error = none;
  created_at = stamp;
}

abbrev pub store_echo : String → ℕ → String → Option Echo → MessageTable → MessageTable
store_echo row_id stamp conversation none rows = rows
store_echo row_id stamp conversation (some echo) rows =
    (insert_message (echo_row row_id stamp conversation echo) rows).0

-- The uuid and the clock of the row are drawn outside; the cancelled job is the queue's.
unfoldable pub apply_human_takeover : ℕ → String → ℕ → String → Option Echo → Desk → Desk
unfolding insert_message set_human_active_until cancel_live_escalations_for_conversation
apply_human_takeover now row_id stamp conversation echo desk =
    say (cancel_pending conversation) (record desk {
      messages = store_echo row_id stamp conversation echo desk.messages;
      threads = set_human_active_until conversation (now + human_active_ttl_ms) desk.threads;
      tasks = (cancel_live_escalations_for_conversation conversation desk.tasks).0;
    })
