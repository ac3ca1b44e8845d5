-- ===== src/Messages/Sending/Audit.antt =====
-- What sendText leaves behind: the row of a send says what the caller is told.
use mathlib.Core.Path.{subst}
use nistula_assistance.Prelude.{
  sym, map, ℕ, ◌≡◌, ◌≢◌, ◌⊎◌, inl, inr, refl, ap, ◌∙◌, String, Option, some, none, List, [], ◌∷◌,
  ◌++◌, Bool, true, false, not, ◌&&◌, arith, any, str_eq, eq_iff, update_where, if◌then◌else◌,
}
use nistula_assistance.Windows.{ServiceWindow, WindowTable, window_state_for}
use nistula_assistance.Messages.{
  Message, MessageTable, MessageStatus.failed, text_is, conflicts, insert_message,
}
use nistula_assistance.Messages.Failure.{
  AlertCards, AddsCards-refl, AddsCards, AddsCards-alert_ops, ops_card, window_closed_blocked,
  wa_token_expired, wa_send_failed, is_token_error, SendFailure, SendResult, sent_as, not_sent,
  Outbox, is_success, is_retryable, queued_guard, settle_failed, is_taken, write_failed, fail_send,
}
use nistula_assistance.Messages.Sending.{
  SendOptions, GraphReply, unreachable, refused, accepted, Surroundings, send_intent, settle_sent,
  write_sent, settle_or_fail, settle_reply, plain_text, dispatch_to_graph, send_text, send_now,
  refuse, create_send_intent,
}

abbrev pub has_message_id : String → Message → Bool
has_message_id id m = str_eq m.id id

update_where-appended :
    (p : Message → Bool) (f : Message → Message) (rows : MessageTable) (m : Message)
    → any p rows ≡ false
    → p m ≡ true
    → update_where p f (rows ++ m ∷ []) ≡ rows ++ f m ∷ []
unfolding update_where
update_where-appended p f [] m h k = rw k refl
update_where-appended p f (r ∷ rows) m h k =
    let miss : p r ≡ false = ground arith in
    rw miss (ap (λ rest. r ∷ rest) (update_where-appended p f rows m (ground arith) k))

any-queued_guard :
    (id : String) (rows : MessageTable)
    → any (has_message_id id) rows ≡ false
    → any (queued_guard id) rows ≡ false
any-queued_guard id [] h = refl
any-queued_guard id (r ∷ rows) h = ground (arith, any-queued_guard id rows)

abbrev pub wa_of : GraphReply → Option String
wa_of (unreachable error_text) = none
wa_of (refused failure) = none
wa_of (accepted http_status wa) = wa

-- A response that counts as accepted has a status of success (`response.ok`).
abbrev pub IsOkReply : GraphReply → Type 0
IsOkReply (unreachable error_text) = Unit
IsOkReply (refused failure) = Unit
IsOkReply (accepted http_status wa) = is_success (some http_status) ≡ true

-- What the row says of a result. A send that is told as failed stays queued only where the database
-- rejects the settling of the failure.
abbrev pub Told : GraphReply → Bool → Message → SendResult → Message → Type 0
Told reply rejects intent (sent_as id wa) m = (m ≡ settle_sent wa intent) × (wa_of reply ≡ some wa)
Told reply rejects intent (not_sent id error_text retryable) m =
    (((m.status ≡ failed) × (m.error ≡ some error_text)) ⊎ ((m ≡ intent) × (rejects ≡ true)))
    × (retryable ≡ true → (http_status : ℕ) (wa : Option String) → reply ≢ accepted http_status wa)

any-has_wa :
    (id wa : String) (rows : MessageTable) (m : Message)
    → conflicts (some wa) rows ≡ false
    → m.wa_message_id ≡ none
    → any (λ r. text_is r.wa_message_id wa && not (str_eq r.id id)) (rows ++ m ∷ []) ≡ false
any-has_wa id wa [] m h k = rw k refl
any-has_wa id wa (r ∷ rows) m h k = ground (arith, any-has_wa id wa rows m)

-- A box whose last row is the intent, alone with its id; the id of the reply is new.
record IsFresh (rows : MessageTable) (intent : Message) (reply : GraphReply) : Type 0 where
  alone : any (has_message_id intent.id) rows ≡ false
  has_no_wa : intent.wa_message_id ≡ none
  is_queued_row : queued_guard intent.id intent ≡ true
  new_wa : conflicts (wa_of reply) rows ≡ false

is_taken-IsFresh :
    (rows : MessageTable) (intent : Message) (reply : GraphReply)
    → IsFresh rows intent reply
    → is_taken intent.id (wa_of reply) (rows ++ intent ∷ []) ≡ false
is_taken-IsFresh rows intent (unreachable error_text) f = refl
is_taken-IsFresh rows intent (refused failure) f = refl
is_taken-IsFresh rows intent (accepted http_status none) f = refl
is_taken-IsFresh rows intent (accepted http_status (some wa)) f =
    rw (any-has_wa intent.id wa rows intent f.new_wa f.has_no_wa) refl

abbrev left_as : Bool → String → Option String → Message → Message
left_as rejects error_text wa m = if rejects then m else settle_failed error_text wa m

write_failed-IsFresh :
    (rejects : Bool) (error_text : String) (wa : Option String) (rows : MessageTable)
    (intent : Message) (reply : GraphReply)
    → IsFresh rows intent reply
    → is_taken intent.id wa (rows ++ intent ∷ []) ≡ false
    → write_failed rejects intent.id error_text wa (rows ++ intent ∷ [])
      ≡ rows ++ left_as rejects error_text wa intent ∷ []
unfolding write_failed
write_failed-IsFresh true error_text wa rows intent reply f h = refl
write_failed-IsFresh false error_text wa rows intent reply f h = rw h (
    update_where-appended (queued_guard intent.id) (settle_failed error_text wa) rows intent
      (any-queued_guard intent.id rows f.alone) f.is_queued_row)

left_as-Told :
    (rejects : Bool) (error_text : String) (wa : Option String) (intent : Message)
    → (((left_as rejects error_text wa intent).status ≡ failed)
        × ((left_as rejects error_text wa intent).error ≡ some error_text))
      ⊎ ((left_as rejects error_text wa intent ≡ intent) × (rejects ≡ true))
left_as-Told true error_text wa intent = inr (refl, refl)
left_as-Told false error_text wa intent = inl (refl, refl)

-- The result of a settled send, with the row that it leaves, and after it cards of alerts only.
abbrev pub Audited : GraphReply → Bool → MessageTable → Message → Outbox × SendResult → Type 0
Audited reply rejects rows intent (box, result) =
    (m : Message) × AddsCards (rows ++ m ∷ []) box.messages × Told reply rejects intent result m

fail_send-Audited :
    (cards : AlertCards) (reply : GraphReply) (rejects : Bool) (failure : SendFailure)
    (wa : Option String) (rows : MessageTable) (intent : Message) (box : Outbox)
    → box.messages ≡ rows ++ intent ∷ []
    → IsFresh rows intent reply
    → is_taken intent.id wa (rows ++ intent ∷ []) ≡ false
    → (is_retryable failure.http_status failure.error_code ≡ true
        → (http_status : ℕ) (wa : Option String) → reply ≢ accepted http_status wa)
    → Audited reply rejects rows intent (fail_send cards rejects intent.id failure wa box)
unfolding fail_send
fail_send-Audited cards reply rejects failure wa rows intent box here f h k =
    let written = write_failed rejects intent.id failure.error_text wa box.messages in
    let settled : written ≡ rows ++ left_as rejects failure.error_text wa intent ∷ [] =
      ap (write_failed rejects intent.id failure.error_text wa) here
      ∙ write_failed-IsFresh rejects failure.error_text wa rows intent reply f h in
    let (sent_cards, e) =
      AddsCards-alert_ops cards
        (if is_token_error failure then wa_token_expired intent.id else wa_send_failed intent.id)
        (record box { messages = written }) in
    (
      left_as rejects failure.error_text wa intent,
      (sent_cards, e ∙ ap (λ table. table ++ map ops_card sent_cards) settled),
      (left_as-Told rejects failure.error_text wa intent, k),
    )

settle_or_fail-Audited :
    (cards : AlertCards) (rejects : Bool) (http_status : ℕ) (wa : String) (thrown : Option String)
    (rows : MessageTable) (intent : Message) (box : Outbox)
    → is_success (some http_status) ≡ true
    → box.messages ≡ rows ++ intent ∷ []
    → IsFresh rows intent (accepted http_status (some wa))
    → Audited
        (accepted http_status (some wa))
        rejects
        rows
        intent
        (settle_or_fail cards rejects intent.id wa http_status thrown box)
unfolding write_sent is_retryable
settle_or_fail-Audited cards rejects http_status wa none rows intent box good here f = (
  settle_sent wa intent,
  subst (AddsCards (rows ++ settle_sent wa intent ∷ []))
      (sym (
        ap (update_where (queued_guard intent.id) (settle_sent wa)) here
        ∙ update_where-appended (queued_guard intent.id) (settle_sent wa) rows intent
            (any-queued_guard intent.id rows f.alone) f.is_queued_row))
      (AddsCards-refl (rows ++ settle_sent wa intent ∷ [])),
  (refl, refl),
)
settle_or_fail-Audited cards rejects http_status wa (some error_text) rows intent box good here f =
    fail_send-Audited cards (accepted http_status (some wa)) rejects _ (some wa) rows intent box
      here f (is_taken-IsFresh rows intent (accepted http_status (some wa)) f)
      (λ h. absurd (ground (arith, good)))

settle_reply-Audited :
    (env : Surroundings) (reply : GraphReply) (rows : MessageTable) (intent : Message)
    (box : Outbox)
    → IsOkReply reply
    → box.messages ≡ rows ++ intent ∷ []
    → IsFresh rows intent reply
    → Audited reply env.fail_rejects rows intent (settle_reply env intent.id reply box)
unfolding is_retryable
settle_reply-Audited env (unreachable error_text) rows intent box good here f =
    fail_send-Audited env.cards (unreachable error_text) env.fail_rejects _ none rows intent box
      here f refl (λ h status wa e. absurd (cc))
settle_reply-Audited env (refused failure) rows intent box good here f =
    fail_send-Audited env.cards (refused failure) env.fail_rejects failure none rows intent box here
      f refl (λ h status wa e. absurd (cc))
settle_reply-Audited env (accepted http_status none) rows intent box good here f =
    fail_send-Audited env.cards (accepted http_status none) env.fail_rejects _ none rows intent box
      here f refl (λ h. absurd (ground (arith, good)))
settle_reply-Audited env (accepted http_status (some wa)) rows intent box good here f =
    settle_or_fail-Audited env.cards env.fail_rejects http_status wa _ rows intent box good here f

send_now-Audited :
    (env : Surroundings) (row_id : String) (now : ℕ) (body : String) (opts : SendOptions)
    (box : Outbox)
    → ((rows : MessageTable) → env.meanwhile rows ≡ rows)
    → any (has_message_id row_id) box.messages ≡ false
    → IsOkReply env.reply
    → conflicts (wa_of env.reply) box.messages ≡ false
    → Audited env.reply env.fail_rejects box.messages
        (send_intent row_id now body opts plain_text)
        (send_now env none row_id now body opts box)
unfolding dispatch_to_graph create_send_intent insert_message send_intent
send_now-Audited env row_id now body opts box calm alone good new_wa =
    settle_reply-Audited env env.reply box.messages (send_intent row_id now body opts plain_text) _
      good (calm (box.messages ++ send_intent row_id now body opts plain_text ∷ []))
      (record {
        alone = alone;
        has_no_wa = refl;
        is_queued_row = ground (arith, (eq_iff row_id row_id).1 refl);
        new_wa = new_wa;
      })

abbrev pub is_window_open : String → SendOptions → ℕ → List ServiceWindow → WindowTable → Bool
is_window_open phone opts now conversations windows =
    (window_state_for opts.conversation_id phone now conversations windows).is_open

-- A text is sent only inside the 24-hour window: outside, nothing is added to the table but cards to
-- the ops numbers, and the caller is told WINDOW_CLOSED, which is not to be retried. Inside, where
-- the intent is inserted under a new id, no other worker writes in between and Graph's message id is
-- new, exactly one row is added, apart from cards to the ops numbers. If the caller is told of a
-- success the row is sent under Graph's message id; if of a failure the row is failed with the same
-- error, or still queued where the database rejects that write too; and a retry is advised only if
-- Graph did not accept the message.
pub send_text-Audited :
    (env : Surroundings) (row_id : String) (now : ℕ) (phone body : String) (opts : SendOptions)
    (conversations : List ServiceWindow) (windows : WindowTable) (box : Outbox)
    → ((rows : MessageTable) → env.meanwhile rows ≡ rows)
    → any (has_message_id row_id) box.messages ≡ false
    → IsOkReply env.reply
    → conflicts (wa_of env.reply) box.messages ≡ false
    → (is_window_open phone opts now conversations windows ≡ true
        → Audited env.reply env.fail_rejects box.messages
            (send_intent row_id now body opts plain_text)
            (send_text env none row_id now phone body opts conversations windows box))
      × (is_window_open phone opts now conversations windows ≡ false
          → AddsCards box.messages
              (send_text env none row_id now phone body opts conversations windows box).0.messages
            × ((send_text env none row_id now phone body opts conversations windows box).1
                ≡ not_sent none "WINDOW_CLOSED" false))
unfolding send_text refuse
send_text-Audited env row_id now phone body opts conversations windows box calm alone good new_wa =
    (
      λ w. rw w (send_now-Audited env row_id now body opts box calm alone good new_wa),
      λ w. (rw w (AddsCards-alert_ops env.cards window_closed_blocked box), rw w refl),
    )
