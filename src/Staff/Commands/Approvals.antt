-- ===== src/Staff/Commands/Approvals.antt =====
-- handleDraftDecision of src/staff/draftCommands.ts, and the dispatch of handleStaffCommand.
use nistula_assistance.Prelude.{ℕ, String, Option, some, none, List, true, false, if◌then◌else◌}
use nistula_assistance.Drafts.{
  Draft, DraftTable, DraftDecision, claim_draft_decision, find_draft_by_short_id,
}
use nistula_assistance.Turn.Cursor.{Thread}
use nistula_assistance.Turn.Policy.{is_human_active}
use nistula_assistance.Turn.Worker.{TurnContext, find_thread, get_conversation_turn_context}
use nistula_assistance.Staff.Roster.{is_ops_number}
use nistula_assistance.Staff.Parsing.{
  StaffCommand, done, tasks, ai_on, ai_off, unknown, DraftCommand, ok, reject, edit,
  parse_staff_command, parse_draft_command,
}
use nistula_assistance.Staff.Commands.{
  Answer, Desk, StaffCommandDeps, say, holds, to_staff, reply, alert_no_conversation,
  alert_not_sent, dropped, no_thread, human_has_it, sent_to_guest, not_sent, no_such_draft,
  already_decided, handle_tasks, handle_ai_toggle, handle_done,
}

abbrev pub decision_of : DraftCommand → DraftDecision
decision_of (ok id) = DraftDecision.ok
decision_of (edit id text) = DraftDecision.edit
decision_of (reject id) = DraftDecision.no_send

abbrev pub id_of : DraftCommand → List ℕ
id_of (ok id) = id
id_of (edit id text) = id
id_of (reject id) = id

abbrev pub final_body_of : StaffCommandDeps → DraftCommand → Option String
final_body_of deps (ok id) = none
final_body_of deps (edit id text) = some (deps.text_of text)
final_body_of deps (reject id) = none

abbrev guest_of : Option Thread → Option String
guest_of none = none
guest_of (some t) = some t.guest_id

-- the acknowledgement, linked to the guest of the draft's conversation
abbrev pub ack_ops : String → Answer → String → Desk → Desk
ack_ops phone answer conversation desk =
    say (to_staff phone answer (guest_of (find_thread conversation desk.threads))) desk

abbrev pub undecidable : String → List ℕ → Option Draft → Desk → Desk
undecidable phone short_id none desk = say (to_staff phone (no_such_draft short_id) none) desk
undecidable phone short_id (some d) desk =
    ack_ops phone (already_decided d.short_id d.status) d.conversation_id desk

abbrev pub deliver_reply : StaffCommandDeps → String → Draft → String → TurnContext → Desk → Desk
deliver_reply deps phone d body ctx desk =
    let asked = say (reply ctx.guest.phone body d.conversation_id) desk in
    if deps.accepts ctx.guest.phone body
    then ack_ops phone (sent_to_guest d.short_id) d.conversation_id asked
    else ack_ops phone (not_sent d.short_id) d.conversation_id
        (say (alert_not_sent d.short_id) asked)

-- The context is missing, a human holds the thread, or the reply is sent.
abbrev pub approved_in :
    StaffCommandDeps → String → Draft → String → Option TurnContext → Desk → Desk
approved_in deps phone d body none desk =
    ack_ops phone (no_thread d.short_id) d.conversation_id
      (say (alert_no_conversation d.short_id) desk)
approved_in deps phone d body (some ctx) desk =
    if holds ctx.conversation deps.now
    then ack_ops phone (human_has_it d.short_id) d.conversation_id desk
    else deliver_reply deps phone d body ctx desk

unfoldable pub send_approved_reply : StaffCommandDeps → String → Draft → String → Desk → Desk
unfolding is_human_active get_conversation_turn_context
send_approved_reply deps phone d body desk =
    approved_in deps phone d body
      (get_conversation_turn_context d.conversation_id desk.threads desk.guests) desk

abbrev pub act_on : StaffCommandDeps → String → DraftCommand → Draft → Desk → Desk
act_on deps phone (reject id) d desk = ack_ops phone (dropped d.short_id) d.conversation_id desk
act_on deps phone (ok id) d desk = send_approved_reply deps phone d d.proposed_body desk
act_on deps phone (edit id text) d desk = send_approved_reply deps phone d (deps.text_of text) desk

abbrev pub after_decision :
    StaffCommandDeps → String → DraftCommand → DraftTable → Option Draft → Desk → Desk
after_decision deps phone command rows none desk =
    undecidable phone (id_of command) (find_draft_by_short_id (id_of command) rows)
      (record desk { drafts = rows })
after_decision deps phone command rows (some d) desk =
    act_on deps phone command d (record desk { drafts = rows })

unfoldable pub handle_draft_decision : StaffCommandDeps → String → DraftCommand → Desk → Desk
unfolding claim_draft_decision find_draft_by_short_id send_approved_reply
handle_draft_decision deps phone command desk =
    let (rows, claimed) =
      claim_draft_decision deps.stamp (id_of command) (decision_of command) phone deps.now
        (final_body_of deps command) desk.drafts in
    after_decision deps phone command rows claimed desk

abbrev pub maybe_decision : StaffCommandDeps → String → Option DraftCommand → Desk → Desk
maybe_decision deps phone none desk = desk
maybe_decision deps phone (some command) desk = handle_draft_decision deps phone command desk

abbrev pub run_command : StaffCommandDeps → String → Option (List ℕ) → StaffCommand → Desk → Desk
run_command deps phone body unknown desk =
    if is_ops_number deps.roster phone
    then maybe_decision deps phone (parse_draft_command body) desk
    else desk
run_command deps phone body tasks desk = handle_tasks phone desk
run_command deps phone body (ai_on digits) desk = handle_ai_toggle phone digits false desk
run_command deps phone body (ai_off digits) desk = handle_ai_toggle phone digits true desk
run_command deps phone body (done short_id) desk = handle_done deps phone short_id desk

unfoldable pub handle_staff_command : StaffCommandDeps → String → Option (List ℕ) → Desk → Desk
unfolding parse_staff_command parse_draft_command is_ops_number handle_tasks handle_ai_toggle
    handle_done handle_draft_decision
handle_staff_command deps phone body desk =
    run_command deps phone body (parse_staff_command body) desk
