-- ===== src/Turn/Tests.antt =====
-- One guest, one conversation, and a burst of two messages.
use nistula_assistance.Prelude.{
  ℕ, ◌/◌, arith, ◌≡◌, refl, String, some, none, List, [], ◌∷◌, true, false, codes, codes_eq, All,
  select_where, update_where, returning,
}
use nistula_assistance.Drafts.{DraftReplyType}
use nistula_assistance.Lifecycle.{ConversationStatus, Guest}
use nistula_assistance.Lifecycle.Consent.{set_marketing_opt_out, cancel_pending_marketing_rows}
use nistula_assistance.Messages.{
  Message, MessageDirection, MessageSender, MessageType, MessageStatus,
}
use nistula_assistance.Messages.Sending.{accepted}
use nistula_assistance.Messages.Failure.{AddsCards-refl}
use nistula_assistance.Turn.Cursor.{
  Thread, codes_ltb, is_before, resolve_message_cursor, insert_ordered, order_messages,
  get_unprocessed_guest_messages, claim_conversation_turn, find_stale_conversations,
}
use nistula_assistance.Turn.Cursor.Order.{Ascends}
use nistula_assistance.Turn.Cursor.Races.{
  RaceStep, Resolves, arrive, wake, claim, read_turn, race_step, run_race,
}
use nistula_assistance.Turn.Cursor.Once.{answered-Ascends}
use nistula_assistance.Turn.Debounce.{debounce_windows}
use nistula_assistance.Turn.Policy.{Detectors, DirectiveKind, settle_plan_for}
use nistula_assistance.Turn.Settle.{
  Board, WorkerDeps, Turn, no_reply, won, apply_stop, run_transaction,
}
use nistula_assistance.Turn.Worker.{
  TurnContext, get_conversation_turn_context, process_conversation,
}
use nistula_assistance.Turn.Silence.{IsSilent, process_conversation-IsSilent}
use nistula_assistance.Turn.Sweeping.{is_attempt, find_stale_conversations-is_attempt}
use nistula_assistance.Turn.Stop.{IsStopped, run_transaction-IsStopped}

abbrev from_guest : String → ℕ → Message
from_guest id at = record {
  id = id;
  conversation_id = some "c-1";
  guest_id = none;
  wa_message_id = some id;
  direction = MessageDirection.inward;
  sender = MessageSender.guest;
  message_type = MessageType.text;
  body = some "hello";
  media_id = none;
  template_name = none;
  status = MessageStatus.received;
  error = none;
  created_at = at;
}

abbrev thread : ConversationStatus → Thread
thread status = record {
  id = "c-1";
  guest_id = "g-1";
  status = status;
  human_active_until = none;
  last_processed_message_id = none;
  last_guest_msg_at = none;
  service_window_expires_at = none;
}

abbrev first_guest : Guest
first_guest = record {
  id = "g-1";
  phone = codes "+911";
  first_name = none;
  opt_out_marketing = false;
  marketing_opt_in = true;
  marketing_opt_in_source = none;
  marketing_opt_in_at = none;
}

abbrev race : List RaceStep
race =
    arrive (from_guest "m-2" 2000)
    ∷ wake
    ∷ arrive (from_guest "m-3" 3000)
    ∷ wake
    ∷ claim 1 none
    ∷ claim 0 none
    ∷ wake
    ∷ claim 2 none
    ∷ []

abbrev two : List Message
two = from_guest "m-1" 1000 ∷ []

-- The second run wins with three messages, and the first one then loses.
raced :
    (run_race race (record {
      thread = thread ConversationStatus.ai_active;
      messages = two;
      in_flight = [];
      answered = [];
    })).answered
    ≡ from_guest "m-1" 1000 ∷ from_guest "m-2" 2000 ∷ from_guest "m-3" 3000 ∷ []
unfolding run_race race_step read_turn resolve_message_cursor get_unprocessed_guest_messages
    order_messages insert_ordered is_before codes_ltb select_where update_where returning
    claim_conversation_turn codes_eq
raced = refl

none-Resolves : Resolves none two none
unfolding resolve_message_cursor
none-Resolves = (refl, refl)

answered-Ascends_example :
    Ascends
      (run_race race (record {
        thread = thread ConversationStatus.ai_active;
        messages = two;
        in_flight = [];
        answered = [];
      })).answered
answered-Ascends_example =
    answered-Ascends race (thread ConversationStatus.ai_active) two none (tt, tt) none-Resolves

abbrev detect : Detectors
detect = record {
  guest_text_of = λ m. some (codes "hello");
  has_location = λ m. false;
  is_bot_question = λ t. false;
  strip_bot_question = λ t. t;
  is_human_request = λ t. false;
  is_complaint = λ t. false;
  matches_stop = λ t. true;
  is_affirmative = λ t. false;
  sanitise_tail = λ t. t;
}

abbrev deps : WorkerDeps
deps = record {
  windows = debounce_windows;
  detect = detect;
  now = 70000;
  today = record { year = 2026; month = 7; day = 1 };
  day_start_ist = 0;
  stays = [];
  run_model = λ d batch. none;
  phrasebook = λ line. "Done.";
  has_drafts = true;
  draft_mode = true;
  auto_send_types = [];
  has_tasks = true;
  intent_id = "m-9";
  draft_id = "d-1";
  short_id = codes "AB12";
  stamp = 70000;
  cards = λ e. [];
  graph = record {
    reply = accepted 200 (some "wamid.9");
    settle_error = none;
    taken_error = "23505";
    fail_rejects = false;
    cards = λ alert. [];
    meanwhile = λ rows. rows;
  };
  meanwhile = λ b. b;
}

abbrev board : ConversationStatus → Board
board status = record {
  threads = thread status ∷ [];
  messages = two;
  guests = first_guest ∷ [];
  scheduled = [];
  drafts = [];
  rate_window = [];
  alerts = [];
  effects = [];
}

abbrev context : ConversationStatus → TurnContext
context status = record { conversation = thread status; guest = first_guest }

found :
    (status : ConversationStatus)
    → get_conversation_turn_context "c-1" (board status).threads (board status).guests
      ≡ some (context status)
unfolding get_conversation_turn_context select_where
found status = refl

process_conversation-IsSilent_example :
    IsSilent
      (board ConversationStatus.human_active)
      (process_conversation deps "c-1" (board ConversationStatus.human_active)).0
process_conversation-IsSilent_example =
    process_conversation-IsSilent deps "c-1" (board ConversationStatus.human_active)
      (context ConversationStatus.human_active)
      (λ b. record { only_cards = AddsCards-refl b.messages; same_drafts = refl; same_acts = refl })
      (found ConversationStatus.human_active) refl

find_stale_conversations-is_attempt_example :
    All
      (λ t.
        is_attempt (process_conversation deps t.id (board ConversationStatus.ai_active)).1 ≡ true)
      (find_stale_conversations 65000
        (debounce_windows.sweep_after_ms / 1000)
        two
        (thread ConversationStatus.ai_active ∷ []))
find_stale_conversations-is_attempt_example =
    find_stale_conversations-is_attempt deps 65000 (board ConversationStatus.ai_active) refl
      (omega arith) ((first_guest, found ConversationStatus.ai_active), tt)

abbrev stop_turn : Turn
stop_turn = record {
  conversation_id = "c-1";
  guest_id = "g-1";
  pointer = none;
  newest = from_guest "m-1" 1000;
  directive = record {
    kind = DirectiveKind.marketing_stop;
    flags = record {
      bot_question = false;
      contains_human_request = false;
      contains_complaint = false;
      contains_stop = true;
      has_media = false;
    };
    guest_text_tail = [];
  };
  plan = settle_plan_for DirectiveKind.marketing_stop ConversationStatus.ai_active;
  body = none;
  will_draft = false;
  draft_type = DraftReplyType.presales;
  context_note = none;
}

abbrev stopped : Board
stopped = record (board ConversationStatus.ai_active) {
  threads =
      record (thread ConversationStatus.ai_active) {
        last_processed_message_id = some "m-1";
        last_guest_msg_at = some 1000;
        service_window_expires_at = some 86401000;
      }
      ∷ [];
  guests = record first_guest { opt_out_marketing = true; marketing_opt_in = false } ∷ [];
}

committed :
    run_transaction deps stop_turn (board ConversationStatus.ai_active)
    ≡ won stopped no_reply ConversationStatus.ai_active
unfolding run_transaction claim_conversation_turn apply_stop set_marketing_opt_out
    cancel_pending_marketing_rows update_where returning settle_plan_for
committed = refl

run_transaction-IsStopped_example : IsStopped "g-1" stopped
run_transaction-IsStopped_example =
    run_transaction-IsStopped deps stop_turn (board ConversationStatus.ai_active) stopped no_reply
      ConversationStatus.ai_active refl committed
