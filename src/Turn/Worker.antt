-- ===== src/Turn/Worker.antt =====
-- processConversation, recheck and sweepStrandedConversations of src/brain/worker.ts, with
-- getConversationTurnContext and countAiMessagesSince of src/db/repos.ts.
use nistula_assistance.Prelude.{
  ℕ, ◌+◌, ◌/◌, String, Option, some, none, List, [], ◌∷◌, ◌++◌, Bool, true, false, not, ◌&&◌, ◌||◌,
  leb, ltb, str_eq, head?, length, select_where, map, if◌then◌else◌,
}
use nistula_assistance.Lifecycle.{Guest}
use nistula_assistance.Drafts.{count_drafts_since}
use nistula_assistance.Stays.{derive_stage, needs_human}
use nistula_assistance.Messages.{Message, MessageTable, MessageSender, text_is}
use nistula_assistance.Messages.Failure.{Outbox, add_cards}
use nistula_assistance.Messages.Sending.{dispatch_to_graph}
use nistula_assistance.Turn.Cursor.{
  Thread, ThreadTable, resolve_message_cursor, get_unprocessed_guest_messages, last?,
  find_stale_conversations,
}
use nistula_assistance.Turn.Debounce.{
  DebounceDecision, process, requeue, decide_debounce, feed, is_over_limit,
}
use nistula_assistance.Turn.Policy.{
  Directive, PolicyInput, TurnPlan, EscalationReason, booking_undescribable, media, FixedLine,
  daily_ai_turn_cap, decide_policy, settle_plan_for,
}
use nistula_assistance.Turn.Settle.{
  Board, Effect, alert_dangling, alert_window_closed, enqueue, escalate_to_ops, raise_media_task,
  dispatch_text, notify_draft, WorkerDeps, ModelTurn, Turn, Reply, no_reply, intent, draft,
  Committed, lost, thrown, won, is_announced, is_window_open, should_draft_reply,
  stage_to_reply_type, run_transaction,
}

pub record TurnContext : Type 0 where
  pub conversation : Thread
  pub guest : Guest

abbrev pub find_thread : String → ThreadTable → Option Thread
find_thread id rows = head? (select_where (λ t. str_eq t.id id) rows)

abbrev pub find_guest : String → List Guest → Option Guest
find_guest id rows = head? (select_where (λ g. str_eq g.id id) rows)

abbrev pub join_guest : Thread → Option Guest → Option TurnContext
join_guest t none = none
join_guest t (some g) = some (record { conversation = t; guest = g })

abbrev pub context_of : Option Thread → List Guest → Option TurnContext
context_of none guests = none
context_of (some t) guests = join_guest t (find_guest t.guest_id guests)

unfoldable pub get_conversation_turn_context :
    String → ThreadTable → List Guest → Option TurnContext
get_conversation_turn_context id threads guests = context_of (find_thread id threads) guests

abbrev pub is_ai : MessageSender → Bool
is_ai MessageSender.ai = true
is_ai _ = false

unfoldable pub count_ai_messages_since : String → ℕ → MessageTable → ℕ
count_ai_messages_since conversation since rows = length (
    select_where
      (λ m. text_is m.conversation_id conversation && (is_ai m.sender && leb since m.created_at))
      rows)

abbrev pub tell : Effect → Board → Board
tell e board = record board { effects = board.effects ++ e ∷ [] }

abbrev pub tell_if : Bool → Effect → Board → Board
tell_if true e board = tell e board
tell_if false e board = board

-- How a pass ends, with what it leaves.
pub data Outcome : Type 0 where
  unknown_conversation nothing_pending requeued threw claim_lost claim_won : Outcome

abbrev pub reason_of : Option EscalationReason → Option ModelTurn → Option EscalationReason
reason_of (some reason) turn = some reason
reason_of none none = none
reason_of none (some turn) = turn.escalate

abbrev pub security_of : Option ModelTurn → Option EscalationReason
security_of none = none
security_of (some turn) = turn.security_escalate

abbrev pub is_media : EscalationReason → Bool
is_media media = true
is_media _ = false

abbrev pub is_undescribable : Option EscalationReason → Bool
is_undescribable (some booking_undescribable) = true
is_undescribable _ = false

abbrev pub ran : Option ModelTurn → Bool
ran none = false
ran (some turn) = true

abbrev pub line_of : (FixedLine → String) → Option FixedLine → Option String
line_of phrasebook none = none
line_of phrasebook (some line) = some (phrasebook line)

abbrev pub body_of : (FixedLine → String) → TurnPlan → Option ModelTurn → Option String
body_of phrasebook plan none = line_of phrasebook plan.send
body_of phrasebook plan (some turn) = some turn.text

abbrev pub note_of : Option ModelTurn → Option String
note_of none = none
note_of (some turn) = some turn.context_note

abbrev pub has_text : Option String → Bool
has_text none = false
has_text (some body) = true

module _ (deps : WorkerDeps) where
  -- alertOps, whose cards are rows of the table
  unfoldable pub alert_if : Bool → Effect → Board → Board
  unfolding add_cards
  alert_if true e board =
      tell e (record board { messages = add_cards board.messages (deps.cards e) })
  alert_if false e board = board

  abbrev pub escalate : Option EscalationReason → Board → Board
  escalate none board = board
  escalate (some reason) board =
      tell (if is_media reason && deps.has_tasks then raise_media_task else escalate_to_ops reason)
        board

  abbrev pub escalate_security : Option EscalationReason → Board → Board
  escalate_security none board = board
  escalate_security (some reason) board = tell (escalate_to_ops reason) board

  abbrev pub with_outbox : Board → Outbox → Board
  with_outbox board box = record board { messages = box.messages; alerts = box.alerts }

  abbrev pub dispatch : String → Board → Board
  dispatch id board =
      with_outbox (tell (dispatch_text id) board)
        (dispatch_to_graph deps.graph id
          (record { messages = board.messages; alerts = board.alerts })).0

  abbrev pub deliver : Reply → Board → Board
  deliver no_reply board = board
  deliver (intent id) board = dispatch id board
  deliver (draft id) board = tell (notify_draft id) board

  -- What follows a claim that won, in the order of the source.
  abbrev pub after_commit : Turn → Option ModelTurn → Bool → Board → Reply → Bool → Board
  after_commit turn model_turn needs_human board reply announced =
      let reason = reason_of turn.plan.escalate model_turn in
      let security = security_of model_turn in
      alert_if
        (has_text turn.body && announced && not (is_window_open turn.newest.created_at deps.now))
        alert_window_closed
        (deliver reply (
          tell_if
            (ran model_turn
              && needs_human
              && not (is_undescribable reason || is_undescribable security))
            (escalate_to_ops booking_undescribable)
            (escalate_security security (escalate reason board))))

  abbrev pub recheck_context : Option TurnContext → Board → Board
  recheck_context none board = board
  recheck_context (some ctx) board =
      let cursor =
        (resolve_message_cursor ctx.conversation.last_processed_message_id board.messages).0 in
      tell_if
        (ltb 0 (length (get_unprocessed_guest_messages ctx.conversation.id cursor board.messages)))
        (enqueue ctx.conversation.id none) board

  unfoldable pub recheck : String → Board → Board
  unfolding get_conversation_turn_context resolve_message_cursor get_unprocessed_guest_messages
  recheck conversation board =
      recheck_context (get_conversation_turn_context conversation board.threads board.guests) board

  abbrev pub settle : Turn → Option ModelTurn → Bool → Board → Committed → Board × Outcome
  settle turn model_turn needs_human board lost = (recheck turn.conversation_id board, claim_lost)
  settle turn model_turn needs_human board thrown = (board, threw)
  settle turn model_turn needs_human board (won committed reply status) = (
    recheck turn.conversation_id
        (after_commit turn model_turn needs_human committed reply (is_announced turn.plan status)),
    claim_won,
  )

  abbrev pub turn_of : TurnContext → Message → Directive → TurnPlan → Option ModelTurn → Turn
  turn_of ctx newest directive plan model_turn =
      let reply_type = stage_to_reply_type (derive_stage deps.stays deps.today) in
      record {
        conversation_id = ctx.conversation.id;
        guest_id = ctx.conversation.guest_id;
        pointer = ctx.conversation.last_processed_message_id;
        newest = newest;
        directive = directive;
        plan = plan;
        body = body_of deps.phrasebook plan model_turn;
        will_draft =
            deps.has_drafts
            && ran model_turn
            && should_draft_reply deps.draft_mode deps.auto_send_types reply_type
                (needs_human deps.stays deps.today);
        draft_type = reply_type;
        context_note = note_of model_turn;
      }

  -- the claim and what follows it; other workers have written since the turn was read
  abbrev pub claim_turn :
      TurnContext → Message → Directive → TurnPlan → Option ModelTurn → Board → Board × Outcome
  claim_turn ctx newest directive plan model_turn board =
      let turn = turn_of ctx newest directive plan model_turn in
      let now_there = deps.meanwhile board in
      settle turn model_turn (needs_human deps.stays deps.today) now_there
        (run_transaction deps turn now_there)

  abbrev pub with_model :
      TurnContext → Message → Directive → TurnPlan → Board → Option ModelTurn → Board × Outcome
  with_model ctx newest directive plan board none = (board, threw)
  with_model ctx newest directive plan board (some model_turn) =
      claim_turn ctx newest directive plan (some model_turn) board

  -- The model's turn, if the plan has one.
  abbrev pub think :
      TurnContext → List Message → Message → Directive → TurnPlan → Board → Board × Outcome
  think ctx batch newest directive plan board =
      if plan.model_runs
      then with_model ctx newest directive plan board (deps.run_model directive batch)
      else claim_turn ctx newest directive plan none board

  abbrev pub policy_input : TurnContext → List Message → Board → PolicyInput
  policy_input ctx batch board = record {
    messages = batch;
    status = ctx.conversation.status;
    human_active_until = ctx.conversation.human_active_until;
    now = deps.now;
    over_limit = is_over_limit ctx.guest.phone deps.now board.rate_window;
    over_daily_turn_cap = leb daily_ai_turn_cap (
        count_ai_messages_since ctx.conversation.id deps.day_start_ist board.messages
        + count_drafts_since ctx.conversation.id deps.day_start_ist board.drafts);
  }

  abbrev pub feed_batch : TurnContext → List Message → Board → Board
  feed_batch ctx batch board = record board {
    rate_window =
        feed ctx.guest.phone (map (λ m. (m.id, m.created_at)) batch) deps.now board.rate_window;
  }

  abbrev pub decided : TurnContext → List Message → Message → Board → Board × Outcome
  decided ctx batch newest board =
      let directive = decide_policy deps.detect (policy_input ctx batch board) in
      think ctx batch newest directive (settle_plan_for directive.kind ctx.conversation.status)
        board

  abbrev pub debounced :
      TurnContext → List Message → Message → Board → DebounceDecision → Board × Outcome
  debounced ctx batch newest board (requeue start_after) =
      (tell (enqueue ctx.conversation.id (some start_after)) board, requeued)
  debounced ctx batch newest board process = decided ctx batch newest (feed_batch ctx batch board)

  abbrev pub with_batch :
      TurnContext → List Message → Option Message → Option Message → Board → Board × Outcome
  with_batch ctx batch none newest board = (board, nothing_pending)
  with_batch ctx batch (some oldest) none board = (board, nothing_pending)
  with_batch ctx batch (some oldest) (some newest) board = debounced ctx batch newest board (
      decide_debounce newest.created_at oldest.created_at deps.now deps.windows.quiet_ms
        deps.windows.max_wait_ms)

  -- The cards of the alert are of no conversation, so the batch is the same before and after them.
  abbrev pub with_context : Option TurnContext → Board → Board × Outcome
  with_context none board = (board, unknown_conversation)
  with_context (some ctx) board =
      let (cursor, dangling) =
        resolve_message_cursor ctx.conversation.last_processed_message_id board.messages in
      let batch = get_unprocessed_guest_messages ctx.conversation.id cursor board.messages in
      with_batch ctx batch (head? batch) (last? batch) (alert_if dangling alert_dangling board)

  unfoldable pub process_conversation : String → Board → Board × Outcome
  unfolding get_conversation_turn_context resolve_message_cursor get_unprocessed_guest_messages
      decide_debounce feed is_over_limit count_ai_messages_since count_drafts_since decide_policy
      settle_plan_for run_transaction recheck dispatch_to_graph should_draft_reply derive_stage
      needs_human alert_if
  process_conversation conversation board =
      with_context (get_conversation_turn_context conversation board.threads board.guests) board

  abbrev pub wake_all : List Thread → Board → Board
  wake_all [] board = board
  wake_all (t ∷ threads) board = wake_all threads (tell (enqueue t.id (some 0)) board)

  unfoldable pub sweep_stranded_conversations : Board → Board
  unfolding find_stale_conversations
  sweep_stranded_conversations board =
      wake_all
        (find_stale_conversations deps.now (deps.windows.sweep_after_ms / 1000) board.messages
          board.threads)
        board
