-- ===== src/Turn/Settle.antt =====
-- The transaction of a turn in src/brain/worker.ts: the claim, the STOP of a guest, and the reply as
-- an intent or a draft; with src/brain/draftRouting.ts.
use nistula_assistance.Prelude.{
  ℕ, ◌+◌, String, Option, some, none, List, Bool, true, false, not, ◌&&◌, ◌||◌, ltb, any,
  if◌then◌else◌,
}
use nistula_assistance.Clock.{Day}
use nistula_assistance.Lifecycle.{ConversationStatus, Guest}
use nistula_assistance.Lifecycle.Writes.{ScheduledTable}
use nistula_assistance.Lifecycle.Consent.{
  set_marketing_opt_out, cancel_pending_marketing_rows, marketing_kinds,
}
use nistula_assistance.Drafts.{DraftReplyType, DraftTable, same_type, insert_draft}
use nistula_assistance.Stays.{StayView, Stage, lead, prearrival, inhouse, postguest}
use nistula_assistance.Windows.{window_ms}
use nistula_assistance.Messages.{Message, MessageTable, MessageSender}
use nistula_assistance.Messages.Sending.{SendOptions, create_send_intent, plain_text, Surroundings}
use nistula_assistance.Messages.Failure.{OpsAlert}
use nistula_assistance.Turn.Cursor.{
  ThreadTable, StatusTransition, ClaimArgs, claim_conversation_turn, same_thread_status,
}
use nistula_assistance.Turn.Debounce.{DebounceWindows, RateWindow}
use nistula_assistance.Turn.Policy.{Detectors, EscalationReason, FixedLine, TurnPlan, Directive}

abbrev pub stage_to_reply_type : Stage → DraftReplyType
stage_to_reply_type lead = DraftReplyType.presales
stage_to_reply_type prearrival = DraftReplyType.arrival
stage_to_reply_type inhouse = DraftReplyType.instay
stage_to_reply_type postguest = DraftReplyType.poststay

unfoldable pub should_draft_reply : Bool → List DraftReplyType → DraftReplyType → Bool → Bool
should_draft_reply draft_mode auto_send_types reply_type needs_human =
    if not draft_mode
    then false
    else if needs_human
    then true
    else not (any (same_type reply_type) auto_send_types)

-- isWindowOpen of src/brain/draftGuards.ts
abbrev pub is_window_open : ℕ → ℕ → Bool
is_window_open newest_guest_msg_at now = ltb now (newest_guest_msg_at + window_ms)

-- what runClaudeTurn gives
pub record ModelTurn : Type 0 where
  pub text : String
  pub escalate : Option EscalationReason
  pub security_escalate : Option EscalationReason
  pub context_note : String

-- What a turn does outside the tables that are modelled, in order.
pub data Effect : Type 0 where
  alert_dangling alert_window_closed : Effect
  enqueue : String → Option ℕ → Effect
  escalate_to_ops : EscalationReason → Effect
  raise_media_task : Effect
  dispatch_text notify_draft : String → Effect

pub record Board : Type 0 where
  pub threads : ThreadTable
  pub messages : MessageTable
  pub guests : List Guest
  pub scheduled : ScheduledTable
  pub drafts : DraftTable
  pub rate_window : RateWindow
  pub alerts : List OpsAlert
  pub effects : List Effect

-- What the worker is wired with, and what is drawn outside during a turn: the clocks, the ids, the
-- model's turn (`none` where it throws), the phrasebook, the stays that are linked to the guest, the
-- Graph call, and the writes of other workers before the claim.
pub record WorkerDeps : Type 0 where
  pub windows : DebounceWindows
  pub detect : Detectors
  pub now : ℕ
  pub today : Day
  pub day_start_ist : ℕ
  pub stays : List StayView
  pub run_model : Directive → List Message → Option ModelTurn
  pub phrasebook : FixedLine → String
  pub has_drafts : Bool
  pub draft_mode : Bool
  pub auto_send_types : List DraftReplyType
  pub has_tasks : Bool
  pub intent_id : String
  pub draft_id : String
  pub short_id : List ℕ
  pub stamp : ℕ
  pub graph : Surroundings
  -- the cards to the ops numbers that an alert of the worker leaves
  pub cards : Effect → List Message
  pub meanwhile : Board → Board

-- What is committed with a claim.
pub data Reply : Type 0 where
  no_reply : Reply
  intent draft : String → Reply

pub record Turn : Type 0 where
  pub conversation_id : String
  pub guest_id : String
  pub pointer : Option String
  pub newest : Message
  pub directive : Directive
  pub plan : TurnPlan
  pub body : Option String
  pub will_draft : Bool
  pub draft_type : DraftReplyType
  pub context_note : Option String

abbrev pub transition_of :
    Option (ConversationStatus × ConversationStatus) → Option StatusTransition
transition_of none = none
transition_of (some (from, to)) = some (record { from = from; to = to })

abbrev pub reaches : Option (ConversationStatus × ConversationStatus) → ConversationStatus → Bool
reaches none status = false
reaches (some (from, to)) status = same_thread_status status to

abbrev pub is_announced : TurnPlan → ConversationStatus → Bool
is_announced plan status = not plan.announce_on_transition || reaches plan.status_transition status

unfoldable pub apply_stop : ℕ → Bool → String → Board → Board
apply_stop stamp false guest_id board = board
apply_stop stamp true guest_id board = record board {
  guests = set_marketing_opt_out guest_id board.guests;
  scheduled = (cancel_pending_marketing_rows stamp guest_id marketing_kinds board.scheduled).0;
}

abbrev pub ai_options : String → SendOptions
ai_options conversation = record {
  conversation_id = some conversation;
  sender = MessageSender.ai;
  about_guest_id = none;
}

-- The three ends of the transaction: lost, thrown, or committed with the status after the claim.
pub data Committed : Type 0 where
  lost thrown : Committed
  won : Board → Reply → ConversationStatus → Committed

module _ (deps : WorkerDeps) (turn : Turn) where
  abbrev pub claim_of : ClaimArgs
  claim_of = record {
    conversation_id = turn.conversation_id;
    expected_pointer = turn.pointer;
    new_pointer = turn.newest.id;
    last_guest_msg_at = turn.newest.created_at;
    status_transition = transition_of turn.plan.status_transition;
  }

  abbrev pub with_draft : Board → Option DraftTable → Option (Board × Reply)
  with_draft board none = none
  with_draft board (some drafts) = some (record board { drafts = drafts }, draft deps.draft_id)

  -- The reply in the same transaction; `none` where a statement throws, which rolls it back.
  abbrev pub write_reply : Board → Option String → Option (Board × Reply)
  write_reply board none = some (board, no_reply)
  write_reply board (some body) =
      if turn.will_draft
      then with_draft board (
          insert_draft deps.draft_id deps.short_id deps.stamp
            (record {
              conversation_id = turn.conversation_id;
              reply_type = turn.draft_type;
              proposed_body = body;
              context_note = turn.context_note;
            })
            board.drafts)
      else some (
        record board {
          messages =
              (create_send_intent deps.intent_id deps.stamp body (ai_options turn.conversation_id)
                plain_text board.messages).0;
        },
        intent deps.intent_id,
      )

  abbrev pub may_send : ConversationStatus → Bool
  may_send status = is_announced turn.plan status && is_window_open turn.newest.created_at deps.now

  abbrev pub body_if : Bool → Option String
  body_if true = turn.body
  body_if false = none

  abbrev pub commit : ConversationStatus → Option (Board × Reply) → Committed
  commit status none = thrown
  commit status (some (board, reply)) = won board reply status

  abbrev pub after_claim : Board → ThreadTable → Option ConversationStatus → Committed
  after_claim board threads none = lost
  after_claim board threads (some status) = commit status (
      write_reply
        (apply_stop deps.stamp turn.directive.flags.contains_stop turn.guest_id
          (record board { threads = threads }))
        (body_if (may_send status)))

  unfoldable pub run_transaction : Board → Committed
  unfolding claim_conversation_turn apply_stop create_send_intent insert_draft
  run_transaction board =
      let (threads, status) = claim_conversation_turn claim_of board.threads in
      after_claim board threads status
