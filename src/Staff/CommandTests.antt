-- ===== src/Staff/CommandTests.antt =====
-- A housekeeper closes a task twice, and the front desk takes a thread over.
use nistula_assistance.Prelude.{
  ◌≡◌, refl, some, none, List, [], ◌∷◌, ◌++◌, true, false, codes, codes_eq, All, select_where,
}
use nistula_assistance.Lifecycle.{ConversationStatus, Guest}
use nistula_assistance.Lifecycle.Gates.{is_space}
use nistula_assistance.Tasks.{Task, TaskKind, TaskOrigin, TaskStatus}
use nistula_assistance.Tasks.Reads.{find_task_by_short_id}
use nistula_assistance.Tasks.Writes.{upper_code, to_upper}
use nistula_assistance.Turn.Cursor.{Thread, ClaimArgs}
use nistula_assistance.Turn.Policy.{DirectiveKind}
use nistula_assistance.Staff.Parsing.{done, parse_staff_command}
use nistula_assistance.Staff.Parsing.Typed.{IsId, hashed, parse_staff_command-done}
use nistula_assistance.Staff.Commands.{
  Desk, StaffCommandDeps, say, unclosable, handle_done, handle_ai_toggle, ends_with,
  find_conversations_by_phone_suffix,
}
use nistula_assistance.Staff.Commands.Held.{
  Happening, human_reply, turn, happen_all, IsHeld, handle_ai_toggle-IsHeld,
}
use nistula_assistance.Staff.Commands.Repeated.{handle_done-repeated}

abbrev towels : Task
towels = record {
  id = "t-1";
  conversation_id = some "c-1";
  guest_id = some "g-1";
  booking_id = none;
  villa_label = none;
  kind = TaskKind.housekeeping;
  short_id = codes "AB12CD";
  request_key = none;
  summary = "towels";
  detail = none;
  status = TaskStatus.opened;
  origin = TaskOrigin.guest;
  assigned_phone = some "+91999";
  sla_minutes = 30;
  sla_deadline = 9000;
  nudge_count = 0;
  opened_at = 1000;
  closed_at = none;
  closed_by = none;
}

abbrev first_guest : Guest
first_guest = record {
  id = "g-1";
  phone = codes "+919876543210";
  first_name = none;
  opt_out_marketing = false;
  marketing_opt_in = false;
  marketing_opt_in_source = none;
  marketing_opt_in_at = none;
}

abbrev thread : Thread
thread = record {
  id = "c-1";
  guest_id = "g-1";
  status = ConversationStatus.ai_active;
  human_active_until = none;
  last_processed_message_id = none;
  last_guest_msg_at = none;
  service_window_expires_at = none;
}

abbrev desk : Desk
desk = record {
  tasks = towels ∷ [];
  threads = thread ∷ [];
  guests = first_guest ∷ [];
  messages = [];
  drafts = [];
  sent = [];
}

abbrev deps : StaffCommandDeps
deps = record {
  now = 5000;
  roster = record { members = []; ops_numbers = [] };
  row_id = "m-1";
  stamp = 5000;
  text_of = λ s. "task closed";
  accepts = λ phone body. true;
}

upper : to_upper (codes "AB12CD") ≡ to_upper (codes "ab12cd")
unfolding upper_code
upper = refl

handle_done-repeated_example :
    let after = handle_done deps "+91999" (codes "AB12CD") desk in
    handle_done deps "+91998" (codes "ab12cd") after
    ≡ say
        (unclosable "+91998" (codes "ab12cd") (find_task_by_short_id (codes "ab12cd") after.tasks))
        after
handle_done-repeated_example =
    handle_done-repeated deps deps "+91999" "+91998" (codes "AB12CD") (codes "ab12cd") desk upper

spaced-IsId : IsId b'a' (codes "b12cd")
spaced-IsId = record { alnum = (refl, (refl, (refl, (refl, (refl, (refl, tt)))))); fits = refl }

space : is_space 32 ≡ true
unfolding is_space
space = refl

parse_staff_command-done_example :
    parse_staff_command
      (some (b'D' ∷ (codes "one" ++ (32 ∷ ((32 ∷ []) ++ hashed true (b'a' ∷ codes "b12cd"))))))
    ≡ done (b'a' ∷ codes "b12cd")
parse_staff_command-done_example =
    parse_staff_command-done b'D' (codes "one") 32 (32 ∷ []) true b'a' (codes "b12cd") refl space
      (space, tt) spaced-IsId

one_guest : find_conversations_by_phone_suffix (codes "3210") desk.guests desk.threads ≡ thread ∷ []
unfolding find_conversations_by_phone_suffix select_where ends_with codes_eq
one_guest = refl

abbrev burst : ClaimArgs
burst = record {
  conversation_id = "c-1";
  expected_pointer = none;
  new_pointer = "m-4";
  last_guest_msg_at = 6000;
  status_transition = none;
}

abbrev later : List Happening
later =
    human_reply 6000 "m-2" 6000 "c-1" none
    ∷ turn burst DirectiveKind.cool_off ConversationStatus.ai_active
    ∷ []

handle_ai_toggle-IsHeld_example :
    All
      (IsHeld "c-1")
      (happen_all later (handle_ai_toggle "+91999" (codes "3210") true desk)).threads
handle_ai_toggle-IsHeld_example =
    handle_ai_toggle-IsHeld "+91999" (codes "3210") thread later desk one_guest (tt, (tt, tt))
