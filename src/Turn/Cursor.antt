-- ===== src/Turn/Cursor.antt =====
-- The processed-pointer of a conversation in src/db/repos.ts: resolveMessageCursor,
-- getUnprocessedGuestMessages, claimConversationTurn, findStaleConversations,
-- markConversationHistoryProcessed.
pub mod Order
pub mod Races
pub mod Once
use nistula_assistance.Prelude.{
  ℕ, ◌+◌, ◌-◌, ◌*◌, String, Option, some, none, List, [], ◌∷◌, Bool, true, false, not, ◌&&◌, ◌||◌,
  ltb, leb, ◌==◌, str_eq, any, head?, codes, select_where, update_where, returning, if◌then◌else◌,
}
use nistula_assistance.Lifecycle.{ConversationStatus}
use nistula_assistance.Messages.{Message, MessageTable, MessageDirection, MessageSender, text_is}

abbrev pub is_inward : MessageDirection → Bool
is_inward MessageDirection.inward = true
is_inward MessageDirection.outward = false

abbrev pub is_guest_sender : MessageSender → Bool
is_guest_sender MessageSender.guest = true
is_guest_sender _ = false

abbrev pub same_thread_status : ConversationStatus → ConversationStatus → Bool
same_thread_status ConversationStatus.ai_active ConversationStatus.ai_active = true
same_thread_status ConversationStatus.human_active ConversationStatus.human_active = true
same_thread_status ConversationStatus.cooloff ConversationStatus.cooloff = true
same_thread_status _ _ = false

-- the columns of a conversation that a turn reads and writes
pub record Thread : Type 0 where
  pub id : String
  pub guest_id : String
  pub status : ConversationStatus
  pub human_active_until : Option ℕ
  pub last_processed_message_id : Option String
  pub last_guest_msg_at : Option ℕ
  pub service_window_expires_at : Option ℕ

abbrev pub ThreadTable : Type 0
ThreadTable = List Thread

pub record MessageCursor : Type 0 where
  pub created_at : ℕ
  pub id : String

abbrev pub cursor_of : Message → MessageCursor
cursor_of m = record { created_at = m.created_at; id = m.id }

-- `(a, s) < (b, t)` on the codes of the ids, as the database compares uuids
unfoldable pub codes_ltb : List ℕ → List ℕ → Bool
codes_ltb [] [] = false
codes_ltb [] (b ∷ t) = true
codes_ltb (a ∷ s) [] = false
codes_ltb (a ∷ s) (b ∷ t) = ltb a b || (a == b && codes_ltb s t)

unfoldable pub is_before : MessageCursor → MessageCursor → Bool
unfolding codes_ltb
is_before a b =
    ltb a.created_at b.created_at
    || (a.created_at == b.created_at && codes_ltb (codes a.id) (codes b.id))

-- The cursor, and whether the pointed-to row is missing.
abbrev pub cursor_or_dangling : Option Message → Option MessageCursor × Bool
cursor_or_dangling none = (none, true)
cursor_or_dangling (some m) = (some (cursor_of m), false)

abbrev pub find_message : String → MessageTable → Option Message
find_message id rows = head? (select_where (λ m. str_eq m.id id) rows)

unfoldable pub resolve_message_cursor : Option String → MessageTable → Option MessageCursor × Bool
resolve_message_cursor none rows = (none, false)
resolve_message_cursor (some id) rows = cursor_or_dangling (find_message id rows)

abbrev pub is_guest_message : String → Message → Bool
is_guest_message conversation m =
    text_is m.conversation_id conversation && (is_inward m.direction && is_guest_sender m.sender)

abbrev pub is_after : Option MessageCursor → Message → Bool
is_after none m = true
is_after (some c) m = is_before c (cursor_of m)

-- ORDER BY created_at, id
unfoldable pub insert_ordered : Message → List Message → List Message
unfolding is_before
insert_ordered m [] = m ∷ []
insert_ordered m (r ∷ rows) =
    let rest = insert_ordered m rows in
    if is_before (cursor_of r) (cursor_of m) then r ∷ rest else m ∷ r ∷ rows

unfoldable pub order_messages : List Message → List Message
unfolding insert_ordered
order_messages [] = []
order_messages (m ∷ rows) = insert_ordered m (order_messages rows)

abbrev pub is_unprocessed : String → Option MessageCursor → Message → Bool
is_unprocessed conversation cursor m = is_guest_message conversation m && is_after cursor m

unfoldable pub get_unprocessed_guest_messages :
    String → Option MessageCursor → MessageTable → List Message
unfolding order_messages is_before
get_unprocessed_guest_messages conversation cursor rows =
    order_messages (select_where (is_unprocessed conversation cursor) rows)

pub record StatusTransition : Type 0 where
  pub from : ConversationStatus
  pub to : ConversationStatus

pub record ClaimArgs : Type 0 where
  pub conversation_id : String
  pub expected_pointer : Option String
  pub new_pointer : String
  pub last_guest_msg_at : ℕ
  pub status_transition : Option StatusTransition

abbrev pub pointer_is : Option String → Option String → Bool
pointer_is none none = true
pointer_is none (some p) = false
pointer_is (some e) none = false
pointer_is (some e) (some p) = str_eq p e

abbrev pub claim_guard : ClaimArgs → Thread → Bool
claim_guard args t =
    str_eq t.id args.conversation_id && pointer_is args.expected_pointer t.last_processed_message_id

-- the CASE that rides the statement
abbrev pub moved_status : Option StatusTransition → ConversationStatus → ConversationStatus
moved_status none status = status
moved_status (some tr) status = if same_thread_status status tr.from then tr.to else status

abbrev pub take_turn : ClaimArgs → Thread → Thread
take_turn args t = record t {
  last_processed_message_id = some args.new_pointer;
  last_guest_msg_at = some args.last_guest_msg_at;
  service_window_expires_at = some (args.last_guest_msg_at + 24 * 60 * 60 * 1000);
  status = moved_status args.status_transition t.status;
}

abbrev pub status_of : Option Thread → Option ConversationStatus
status_of none = none
status_of (some t) = some t.status

-- The rows, and the status after the claim, `none` where the claim was lost.
unfoldable pub claim_conversation_turn :
    ClaimArgs → ThreadTable → ThreadTable × Option ConversationStatus
claim_conversation_turn args rows = (
  update_where (claim_guard args) (take_turn args) rows,
  status_of (head? (returning (claim_guard args) (take_turn args) rows)),
)

-- the cursor of the LEFT JOIN: a missing row is no cursor
unfoldable pub pointer_cursor : Option String → MessageTable → Option MessageCursor
unfolding resolve_message_cursor
pointer_cursor pointer rows = (resolve_message_cursor pointer rows).0

abbrev pub is_owed : ℕ → ℕ → MessageTable → Thread → Message → Bool
is_owed now older_than_seconds rows t m =
    is_guest_message t.id m
    && (ltb m.created_at (now - older_than_seconds * 1000)
        && is_after (pointer_cursor t.last_processed_message_id rows) m)

unfoldable pub find_stale_conversations : ℕ → ℕ → MessageTable → ThreadTable → List Thread
unfolding pointer_cursor is_before
find_stale_conversations now older_than_seconds rows threads =
    select_where (λ t. any (is_owed now older_than_seconds rows t) rows) threads

-- The newest message of an imported thread, and the pointer moved up to it.
abbrev pub last? : List Message → Option Message
last? [] = none
last? (m ∷ []) = some m
last? (m ∷ r ∷ rows) = last? (r ∷ rows)

abbrev pub import_target : String → ℕ → MessageTable → Option Message
import_target conversation newest_imported_at rows = last? (
    order_messages (
      select_where
        (λ m. text_is m.conversation_id conversation && leb m.created_at newest_imported_at) rows))

abbrev pub is_past : Option Message → Message → Bool
is_past none target = false
is_past (some p) target = not (is_before (cursor_of p) (cursor_of target))

abbrev pub pointed : Option String → MessageTable → Option Message
pointed none rows = none
pointed (some id) rows = find_message id rows

abbrev pub move_pointer : Message → Thread → Thread
move_pointer target t = record t { last_processed_message_id = some target.id }

abbrev pub advance_to : String → Option Message → MessageTable → ThreadTable → ThreadTable
advance_to conversation none rows threads = threads
advance_to conversation (some target) rows threads =
    update_where
      (λ t.
        str_eq t.id conversation && not (is_past (pointed t.last_processed_message_id rows) target))
      (move_pointer target) threads

unfoldable pub mark_conversation_history_processed :
    String → ℕ → MessageTable → ThreadTable → ThreadTable
unfolding order_messages is_before
mark_conversation_history_processed conversation newest_imported_at rows threads =
    advance_to conversation (import_target conversation newest_imported_at rows) rows threads
