-- ===== src/Turn/Silence.antt =====
-- A thread that staff hold by AI OFF gets nothing from a turn of the worker.
use nistula_assistance.Prelude.{
  ℕ, ◌≡◌, refl, ap, ◌∙◌, Option, some, none, List, [], ◌∷◌, ◌++◌, Bool, true, false, String, arith,
  head?, select_where,
}
use nistula_assistance.Lifecycle.{ConversationStatus}
use nistula_assistance.Messages.{Message}
use nistula_assistance.Messages.Failure.{
  AddsCards, AddsCards-refl, AddsCards-trans, add_cards-append,
}
use nistula_assistance.Stays.{needs_human}
use nistula_assistance.Turn.Cursor.{
  ThreadTable, claim_conversation_turn, last?, resolve_message_cursor,
  get_unprocessed_guest_messages,
}
use nistula_assistance.Turn.Debounce.{DebounceDecision, process, requeue}
use nistula_assistance.Turn.Policy.{
  Directive, PolicyInput, Detectors, decide_kind, decide_policy, store_only, settle_plan_for,
  is_human_active,
}
use nistula_assistance.Turn.Settle.{
  Board, Effect, alert_dangling, alert_window_closed, enqueue, escalate_to_ops, raise_media_task,
  dispatch_text, notify_draft, WorkerDeps, Turn, no_reply, Committed, lost, thrown, won, apply_stop,
  write_reply, body_if, commit, may_send, after_claim, claim_of, run_transaction,
}
use nistula_assistance.Turn.Worker.{
  TurnContext, tell, tell_if, alert_if, recheck_context, recheck, settle, turn_of, claim_turn,
  decided, debounced, with_batch, feed_batch, policy_input, get_conversation_turn_context,
  process_conversation,
}

-- An effect that answers the guest, hands the thread to somebody or alerts ops of a reply: every one
-- but a new run of the queue and the alert of a dangling cursor.
abbrev pub acts : Effect → Bool
acts alert_dangling = false
acts alert_window_closed = true
acts (enqueue conversation at) = false
acts (escalate_to_ops reason) = true
acts raise_media_task = true
acts (dispatch_text id) = true
acts (notify_draft id) = true

-- Between two boards nothing was written but cards to the ops numbers, which are rows of no
-- conversation that the system sends; no draft was kept, and no effect acts.
pub record IsSilent (before after : Board) : Type 0 where
  pub only_cards : AddsCards before.messages after.messages
  pub same_drafts : after.drafts ≡ before.drafts
  pub same_acts : select_where acts after.effects ≡ select_where acts before.effects

IsSilent-refl : (b : Board) → IsSilent b b
IsSilent-refl b = record {
  only_cards = AddsCards-refl b.messages;
  same_drafts = refl;
  same_acts = refl;
}

IsSilent-trans : (a b c : Board) → IsSilent a b → IsSilent b c → IsSilent a c
IsSilent-trans a b c h k = record {
  only_cards = AddsCards-trans a.messages b.messages c.messages h.only_cards k.only_cards;
  same_drafts = k.same_drafts ∙ h.same_drafts;
  same_acts = k.same_acts ∙ h.same_acts;
}

select_where-mute :
    (effects : List Effect) (e : Effect)
    → acts e ≡ false
    → select_where acts (effects ++ e ∷ []) ≡ select_where acts effects
unfolding select_where
select_where-mute [] e h = rw h refl
select_where-mute (x ∷ effects) e h = rw (select_where-mute effects e h) refl

IsSilent-tell : (e : Effect) (b : Board) → acts e ≡ false → IsSilent b (tell e b)
IsSilent-tell e b h = record {
  only_cards = AddsCards-refl b.messages;
  same_drafts = refl;
  same_acts = select_where-mute b.effects e h;
}

IsSilent-tell_if : (t : Bool) (e : Effect) (b : Board) → acts e ≡ false → IsSilent b (tell_if t e b)
IsSilent-tell_if true e b h = IsSilent-tell e b h
IsSilent-tell_if false e b h = IsSilent-refl b

IsSilent-apply_stop :
    (stamp : ℕ) (stop : Bool) (guest : String) (b : Board)
    → IsSilent b (apply_stop stamp stop guest b)
unfolding apply_stop
IsSilent-apply_stop stamp true guest b = record {
  only_cards = AddsCards-refl b.messages;
  same_drafts = refl;
  same_acts = refl;
}
IsSilent-apply_stop stamp false guest b = IsSilent-refl b

IsSilent-alert_if :
    (deps : WorkerDeps) (t : Bool) (b : Board) → IsSilent b (alert_if deps t alert_dangling b)
unfolding alert_if
IsSilent-alert_if deps true b = record {
  only_cards = (deps.cards alert_dangling, add_cards-append b.messages (deps.cards alert_dangling));
  same_drafts = refl;
  same_acts = select_where-mute b.effects alert_dangling refl;
}
IsSilent-alert_if deps false b = IsSilent-refl b

-- AI OFF outranks every flag and every limit.
settle_plan_for-ai_off :
    (detect : Detectors) (input : PolicyInput)
    → input.status ≡ ConversationStatus.human_active
    → settle_plan_for (decide_policy detect input).kind ConversationStatus.human_active ≡ store_only
unfolding decide_policy decide_kind is_human_active settle_plan_for
settle_plan_for-ai_off detect input h = ground (arith, h)

-- The end of a turn's transaction, against the board that it ran on.
abbrev Quiet : Board → Committed → Type 0
Quiet b lost = Unit
Quiet b thrown = Unit
Quiet b (won after reply status) = IsSilent b after × (reply ≡ no_reply)

Quiet-write_reply :
    (deps : WorkerDeps) (turn : Turn) (b after : Board) (status : ConversationStatus)
    (body : Option String)
    → body ≡ none
    → IsSilent b after
    → Quiet b (commit deps turn status (write_reply deps turn after body))
Quiet-write_reply deps turn b after status body e s = rw e (s, refl)

body_if-none :
    (deps : WorkerDeps) (turn : Turn) (sends : Bool)
    → turn.body ≡ none
    → body_if deps turn sends ≡ none
body_if-none deps turn true h = h
body_if-none deps turn false h = refl

Quiet-after_claim :
    (deps : WorkerDeps) (turn : Turn) (b : Board) (threads : ThreadTable)
    (status : Option ConversationStatus)
    → turn.body ≡ none
    → Quiet b (after_claim deps turn b threads status)
Quiet-after_claim deps turn b threads none h = tt
Quiet-after_claim deps turn b threads (some status) h =
    let flipped = record b { threads = threads } in
    let stop = turn.directive.flags.contains_stop in
    Quiet-write_reply deps turn b (apply_stop deps.stamp stop turn.guest_id flipped) status
      (body_if deps turn (may_send deps turn status))
      (body_if-none deps turn (may_send deps turn status) h)
      (IsSilent-trans b flipped (apply_stop deps.stamp stop turn.guest_id flipped)
        (record { only_cards = AddsCards-refl b.messages; same_drafts = refl; same_acts = refl })
        (IsSilent-apply_stop deps.stamp stop turn.guest_id flipped))

Quiet-run_transaction :
    (deps : WorkerDeps) (turn : Turn) (b : Board)
    → turn.body ≡ none
    → Quiet b (run_transaction deps turn b)
unfolding run_transaction
Quiet-run_transaction deps turn b h =
    Quiet-after_claim deps turn b (claim_conversation_turn (claim_of deps turn) b.threads).0
      (claim_conversation_turn (claim_of deps turn) b.threads).1 h

IsSilent-recheck_context :
    (deps : WorkerDeps) (c : Option TurnContext) (b : Board) → IsSilent b (recheck_context deps c b)
IsSilent-recheck_context deps none b = IsSilent-refl b
IsSilent-recheck_context deps (some ctx) b =
    IsSilent-tell_if _ (enqueue ctx.conversation.id none) b refl

IsSilent-recheck :
    (deps : WorkerDeps) (conversation : String) (b : Board)
    → IsSilent b (recheck deps conversation b)
unfolding recheck
IsSilent-recheck deps conversation b =
    IsSilent-recheck_context deps (get_conversation_turn_context conversation b.threads b.guests) b

IsSilent-settle :
    (deps : WorkerDeps) (turn : Turn) (needs : Bool) (b : Board) (end : Committed)
    → turn.body ≡ none
    → turn.plan.escalate ≡ none
    → Quiet b end
    → IsSilent b (settle deps turn none needs b end).0
unfolding alert_if
IsSilent-settle deps turn needs b lost h k q = IsSilent-recheck deps turn.conversation_id b
IsSilent-settle deps turn needs b thrown h k q = IsSilent-refl b
IsSilent-settle deps turn needs b (won after reply status) h k (s, mute) =
    rw (mute, k, h) (IsSilent-trans b after _ s (IsSilent-recheck deps turn.conversation_id after))

-- The other workers write no message, no draft and no effect of this turn before its claim.
abbrev pub IsCalm : WorkerDeps → Type 0
IsCalm deps = (b : Board) → IsSilent b (deps.meanwhile b)

IsSilent-claim_turn :
    (deps : WorkerDeps) (ctx : TurnContext) (newest : Message) (directive : Directive) (b : Board)
    → IsCalm deps
    → IsSilent b (claim_turn deps ctx newest directive store_only none b).0
IsSilent-claim_turn deps ctx newest directive b calm =
    let turn = turn_of deps ctx newest directive store_only none in
    let there = deps.meanwhile b in
    IsSilent-trans b there _ (calm b) (
      IsSilent-settle deps turn (needs_human deps.stays deps.today) there
        (run_transaction deps turn there) refl refl (Quiet-run_transaction deps turn there refl))

IsSilent-decided :
    (deps : WorkerDeps) (ctx : TurnContext) (batch : List Message) (newest : Message) (b : Board)
    → IsCalm deps
    → ctx.conversation.status ≡ ConversationStatus.human_active
    → IsSilent b (decided deps ctx batch newest b).0
IsSilent-decided deps ctx batch newest b calm held =
    let directive = decide_policy deps.detect (policy_input deps ctx batch b) in
    let plan : settle_plan_for directive.kind ctx.conversation.status ≡ store_only =
      ap (settle_plan_for directive.kind) held
      ∙ settle_plan_for-ai_off deps.detect (policy_input deps ctx batch b) held in
    rw plan (IsSilent-claim_turn deps ctx newest directive b calm)

IsSilent-debounced :
    (deps : WorkerDeps) (ctx : TurnContext) (batch : List Message) (newest : Message) (b : Board)
    (d : DebounceDecision)
    → IsCalm deps
    → ctx.conversation.status ≡ ConversationStatus.human_active
    → IsSilent b (debounced deps ctx batch newest b d).0
IsSilent-debounced deps ctx batch newest b (requeue at) calm held =
    IsSilent-tell (enqueue ctx.conversation.id (some at)) b refl
IsSilent-debounced deps ctx batch newest b process calm held =
    IsSilent-trans b (feed_batch deps ctx batch b) _
      (record { only_cards = AddsCards-refl b.messages; same_drafts = refl; same_acts = refl })
      (IsSilent-decided deps ctx batch newest (feed_batch deps ctx batch b) calm held)

IsSilent-with_batch :
    (deps : WorkerDeps) (ctx : TurnContext) (batch : List Message) (oldest newest : Option Message)
    (b : Board)
    → IsCalm deps
    → ctx.conversation.status ≡ ConversationStatus.human_active
    → IsSilent b (with_batch deps ctx batch oldest newest b).0
IsSilent-with_batch deps ctx batch none newest b calm held = IsSilent-refl b
IsSilent-with_batch deps ctx batch (some oldest) none b calm held = IsSilent-refl b
IsSilent-with_batch deps ctx batch (some oldest) (some newest) b calm held =
    IsSilent-debounced deps ctx batch newest b _ calm held

-- While a thread is held by AI OFF, a pass of the worker over it writes no message of a conversation,
-- keeps no draft, dispatches nothing, escalates nothing and tells the guest nothing, whatever the
-- guest wrote, whatever the model or the limits would say, and whether its claim wins, loses or
-- throws; the one alert that it may raise is that of a dangling cursor, whose cards to the ops
-- numbers are the only rows it adds to the messages. The other workers are taken to do no more
-- before the claim.
pub process_conversation-IsSilent :
    (deps : WorkerDeps) (conversation : String) (board : Board) (ctx : TurnContext)
    → IsCalm deps
    → get_conversation_turn_context conversation board.threads board.guests ≡ some ctx
    → ctx.conversation.status ≡ ConversationStatus.human_active
    → IsSilent board (process_conversation deps conversation board).0
unfolding process_conversation
process_conversation-IsSilent deps conversation board ctx calm found held =
    let read = resolve_message_cursor ctx.conversation.last_processed_message_id board.messages in
    let batch = get_unprocessed_guest_messages ctx.conversation.id read.0 board.messages in
    let told = alert_if deps read.1 alert_dangling board in
    rw found (
      IsSilent-trans board told _ (IsSilent-alert_if deps read.1 board)
        (IsSilent-with_batch deps ctx batch (head? batch) (last? batch) told calm held))
