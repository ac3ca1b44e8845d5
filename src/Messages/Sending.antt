-- ===== src/Messages/Sending.antt =====
-- createSendIntent, dispatchToGraph and sendText of src/wa/client.ts, and the sweep of
-- src/wa/sendReconcile.ts.

pub mod Audit
use nistula_assistance.Prelude.{
  ◌≡◌, refl, inl, inr, Bool-cases, ℕ, ◌+◌, ◌-◌, ◌*◌, String, Option, some, none, List, [], ◌∷◌,
  ◌++◌, Bool, true, false, ◌&&◌, ltb, length, update_where, returning, if◌then◌else◌,
}
use nistula_assistance.Windows.{ServiceWindow, WindowTable, window_state_for}
use nistula_assistance.Messages.{
  Message, MessageTable, MessageSender, MessageType, MessageType.text, MessageStatus.queued,
  MessageStatus.sent, MessageStatus.failed, MessageDirection.outward, is_queued, insert_message,
}
use nistula_assistance.Messages.Failure.{
  AlertCards, alert_ops, add_cards, SendFailure, SendResult, sent_as, not_sent, Outbox,
  send_insert_failed, window_closed_blocked, send_reconciled_stale, queued_guard, is_taken,
  fail_send,
}

pub record SendOptions : Type 0 where
  pub conversation_id : Option String
  pub sender : MessageSender
  pub about_guest_id : Option String

-- what createSendIntent is given for a template
pub record IntentExtra : Type 0 where
  pub message_type : MessageType
  pub template_name : Option String

-- The row of the intent; the uuid and the clock of the database are drawn outside.
unfoldable pub send_intent : String → ℕ → String → SendOptions → IntentExtra → Message
send_intent row_id now body opts extra = record {
  id = row_id;
  conversation_id = opts.conversation_id;
  guest_id = opts.about_guest_id;
  wa_message_id = none;
  direction = outward;
  sender = opts.sender;
  message_type = extra.message_type;
  body = some body;
  media_id = none;
  template_name = extra.template_name;
  status = queued;
  error = none;
  created_at = now;
}

unfoldable pub create_send_intent :
    String
    → ℕ
    → String
    → SendOptions
    → IntentExtra
    → MessageTable
    → MessageTable × Option Message × Bool
unfolding send_intent insert_message
create_send_intent row_id now body opts extra rows =
    insert_message (send_intent row_id now body opts extra) rows

-- What the Graph call gives: no response and the text of the error, a refusal that graphFailure has
-- read, or a 2xx with its status and the message id of its body, if it has one.
pub data GraphReply : Type 0 where
  unreachable : String → GraphReply
  refused : SendFailure → GraphReply
  accepted : ℕ → Option String → GraphReply

-- What the messaging service, the database and the other workers do during a send: the errors of
-- the settling statement, of the one in failSend and of a taken id, the writes between the intent
-- and the settling, and the cards of the alerts.
pub record Surroundings : Type 0 where
  pub reply : GraphReply
  pub settle_error : Option String
  pub taken_error : String
  pub fail_rejects : Bool
  pub meanwhile : MessageTable → MessageTable
  pub cards : AlertCards

abbrev pub settle_sent : String → Message → Message
settle_sent wa m = record m { status = sent; wa_message_id = some wa }

-- the guarded UPDATE from queued to sent
unfoldable pub write_sent : String → String → MessageTable → MessageTable
write_sent id wa rows = update_where (queued_guard id) (settle_sent wa) rows

abbrev pub thrown : String → Option ℕ → SendFailure
thrown error_text http_status = record {
  error_text = error_text;
  error_code = none;
  error_title = none;
  http_status = http_status;
}

abbrev pub settle_or_fail :
    AlertCards → Bool → String → String → ℕ → Option String → Outbox → Outbox × SendResult
settle_or_fail cards rejects id wa http_status none box =
    (record box { messages = write_sent id wa box.messages }, sent_as id wa)
settle_or_fail cards rejects id wa http_status (some error_text) box =
    fail_send cards rejects id (thrown error_text (some http_status)) (some wa) box

-- what the settling statement throws, if it does
abbrev pub settle_throws : Surroundings → String → String → MessageTable → Option String
settle_throws env id wa rows =
    if is_taken id (some wa) rows then some env.taken_error else env.settle_error

abbrev pub settle_reply : Surroundings → String → GraphReply → Outbox → Outbox × SendResult
settle_reply env id (unreachable error_text) box =
    fail_send env.cards env.fail_rejects id (thrown error_text none) none box
settle_reply env id (refused failure) box = fail_send env.cards env.fail_rejects id failure none box
settle_reply env id (accepted http_status none) box =
    fail_send env.cards env.fail_rejects id
      (thrown "Graph 2xx without a message id" (some http_status)) none box
settle_reply env id (accepted http_status (some wa)) box =
    settle_or_fail env.cards env.fail_rejects id wa http_status
      (settle_throws env id wa box.messages) box

unfoldable pub dispatch_to_graph : Surroundings → String → Outbox → Outbox × SendResult
unfolding fail_send write_sent
dispatch_to_graph env id box =
    settle_reply env id env.reply (record box { messages = env.meanwhile box.messages })

abbrev pub plain_text : IntentExtra
plain_text = record { message_type = text; template_name = none }

unfoldable pub refuse : AlertCards → Outbox → Outbox × SendResult
unfolding alert_ops
refuse cards box = (alert_ops cards window_closed_blocked box, not_sent none "WINDOW_CLOSED" false)

-- Either the insert throws, with its text, or the intent is committed and dispatched.
abbrev pub send_now :
    Surroundings → Option String → String → ℕ → String → SendOptions → Outbox → Outbox × SendResult
send_now env (some error_text) row_id now body opts box =
    (alert_ops env.cards send_insert_failed box, not_sent none error_text true)
send_now env none row_id now body opts box =
    dispatch_to_graph env row_id (record box {
      messages = (create_send_intent row_id now body opts plain_text box.messages).0;
    })

unfoldable pub send_text :
    Surroundings
    → Option String
    → String
    → ℕ
    → String
    → String
    → SendOptions
    → List ServiceWindow
    → WindowTable
    → Outbox
    → Outbox × SendResult
unfolding create_send_intent dispatch_to_graph window_state_for refuse alert_ops
send_text env insert_error row_id now phone body opts conversations windows box =
    if (window_state_for opts.conversation_id phone now conversations windows).is_open
    then send_now env insert_error row_id now body opts box
    else refuse env.cards box

abbrev pub stale_send_after_ms : ℕ
stale_send_after_ms = 10 * 60000

abbrev pub stranded : ℕ → Message → Bool
stranded cutoff m = is_queued m.status && ltb m.created_at cutoff

abbrev pub give_up : Message → Message
give_up m = record m {
  status = failed;
  error = some "reconciled: stranded in queued — delivery UNCONFIRMED, verify before any resend";
}

abbrev pub alert_stale : AlertCards → ℕ → Outbox → Outbox
alert_stale cards count box =
    if ltb 0 count then alert_ops cards (send_reconciled_stale count) box else box

unfoldable pub reconcile_stale_sends : AlertCards → ℕ → Outbox → Outbox × ℕ
unfolding alert_ops
reconcile_stale_sends cards now box =
    let cutoff = now - stale_send_after_ms in
    let count = length (returning (stranded cutoff) give_up box.messages) in
    (
      alert_stale cards count
          (record box { messages = update_where (stranded cutoff) give_up box.messages }),
      count,
    )

-- The sweep's own writes to the table, without cards.
pub reconcile_stale_sends-messages :
    (now : ℕ) (box : Outbox)
    → (reconcile_stale_sends (λ _. []) now box).0.messages
      ≡ update_where (stranded (now - stale_send_after_ms)) give_up box.messages
unfolding reconcile_stale_sends alert_ops add_cards
reconcile_stale_sends-messages now box =
    elim (Bool-cases
      (ltb 0 (length (returning (stranded (now - stale_send_after_ms)) give_up box.messages)))) [
        | inl some_row ↦ rw some_row refl
        | inr no_row ↦ rw no_row refl
      ]
