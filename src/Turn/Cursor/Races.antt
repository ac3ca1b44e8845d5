-- ===== src/Turn/Cursor/Races.antt =====
-- Workers, sweeper wakes and retries race for the turns of a conversation: each run reads the
-- pointer and the batch at one moment and claims at a later one (processConversation).
use nistula_assistance.Prelude.{
  ℕ, ◌≡◌, String, Option, some, none, List, [], ◌∷◌, ◌++◌, true, false, any, get_elem?, codes,
  codes_eq, All, if◌then◌else◌,
}
use nistula_assistance.Messages.{Message, MessageTable}
use nistula_assistance.Turn.Cursor.{
  Thread, MessageCursor, cursor_of, is_before, find_message, resolve_message_cursor, is_after,
  get_unprocessed_guest_messages, StatusTransition, ClaimArgs, claim_conversation_turn, last?,
}
use nistula_assistance.Turn.Cursor.Order.{Ascends, Distinct}

-- What a run has read.
pub record Run : Type 0 where
  pub expected : Option String
  pub cursor : Option MessageCursor
  pub batch : List Message

-- The row of the conversation, the messages, the runs under way, and the batches of the claims that
-- were won, one after another.
pub record Race : Type 0 where
  pub thread : Thread
  pub messages : MessageTable
  pub in_flight : List Run
  pub answered : List Message

-- A step: a message is inserted, a run reads, or the run at a place claims.
pub data RaceStep : Type 0 where
  arrive : Message → RaceStep
  wake : RaceStep
  claim : ℕ → Option StatusTransition → RaceStep

unfoldable pub read_turn : Thread → MessageTable → Run
unfolding resolve_message_cursor get_unprocessed_guest_messages
read_turn thread rows =
    let cursor = (resolve_message_cursor thread.last_processed_message_id rows).0 in
    record {
      expected = thread.last_processed_message_id;
      cursor = cursor;
      batch = get_unprocessed_guest_messages thread.id cursor rows;
    }

abbrev pub claim_args : Thread → Run → Message → Option StatusTransition → ClaimArgs
claim_args thread r newest transition = record {
  conversation_id = thread.id;
  expected_pointer = r.expected;
  new_pointer = newest.id;
  last_guest_msg_at = newest.created_at;
  status_transition = transition;
}

abbrev pub first_or : Thread → List Thread → Thread
first_or t [] = t
first_or t (u ∷ rows) = u

abbrev pub log_or {ℓ} : {A : Type ℓ} → Option A → List Message → List Message → List Message
log_or none batch answered = answered
log_or (some status) batch answered = answered ++ batch

abbrev pub settle_claim : Race → Run → Option Message → Option StatusTransition → Race
settle_claim st r none transition = st
settle_claim st r (some newest) transition =
    let res = claim_conversation_turn (claim_args st.thread r newest transition) (st.thread ∷ []) in
    record st { thread = first_or st.thread res.0; answered = log_or res.1 r.batch st.answered }

abbrev pub settle_run : Race → Option Run → Option StatusTransition → Race
settle_run st none transition = st
settle_run st (some r) transition = settle_claim st r (last? r.batch) transition

unfoldable pub race_step : RaceStep → Race → Race
unfolding read_turn claim_conversation_turn
race_step (arrive m) st = record st {
  messages =
      if any (λ r. codes_eq (codes m.id) (codes r.id)) st.messages
      then st.messages
      else st.messages ++ m ∷ [];
}
race_step wake st = record st { in_flight = st.in_flight ++ read_turn st.thread st.messages ∷ [] }
race_step (claim i transition) st = settle_run st (get_elem? st.in_flight i) transition

unfoldable pub run_race : List RaceStep → Race → Race
unfolding race_step
run_race [] st = st
run_race (s ∷ steps) st = run_race steps (race_step s st)

-- Everything past the cursor is past the message.
abbrev pub Covers : Option MessageCursor → Message → Type 0
Covers none m = false ≡ true
Covers (some c) m = (b : MessageCursor) → is_before c b ≡ true → is_before (cursor_of m) b ≡ true

-- The pointer is resolved: its row is there.
abbrev pub Resolves : Option String → MessageTable → Option MessageCursor → Type 0
Resolves pointer rows cursor =
    (resolve_message_cursor pointer rows).0 ≡ cursor
    × (resolve_message_cursor pointer rows).1 ≡ false

abbrev pub IsRowOf : MessageTable → Message → Type 0
IsRowOf rows m = find_message m.id rows ≡ some m

pub record IsRun (rows : MessageTable) (r : Run) : Type 0 where
  pub read_at : Resolves r.expected rows r.cursor
  pub ascends : Ascends r.batch
  pub past : All (λ m. is_after r.cursor m ≡ true) r.batch
  pub known : All (IsRowOf rows) r.batch

pub record IsFair (st : Race) : Type 0 where
  pub distinct : Distinct st.messages
  pub cursor : Option MessageCursor
  pub points : Resolves st.thread.last_processed_message_id st.messages cursor
  pub in_order : Ascends st.answered
  pub covered : All (Covers cursor) st.answered
  pub runs : All (IsRun st.messages) st.in_flight
