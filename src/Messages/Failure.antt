-- ===== src/Messages/Failure.antt =====
-- src/wa/sendFailure.ts: how a failed send is judged and settled.
use mathlib.Core.List.{append_assoc}
use nistula_assistance.Prelude.{
  ◌≡◌, refl, ◌∙◌, ap, sym, map, ℕ, String, Option, some, none, List, [], ◌∷◌, ◌++◌, Bool, false,
  ◌&&◌, ◌||◌, not, ltb, leb, ◌==◌, some_eq, str_eq, any, update_where, if◌then◌else◌,
}
use nistula_assistance.Messages.{
  Message, MessageTable, MessageStatus.failed, MessageSender, text_is, is_queued,
}

pub record SendFailure : Type 0 where
  pub error_text : String
  pub error_code : Option ℕ
  pub error_title : Option String
  pub http_status : Option ℕ

pub data SendResult : Type 0 where
  sent_as : String → String → SendResult
  not_sent : Option String → String → Bool → SendResult

-- the alerts of a send and of its reconciliation
pub data OpsAlert : Type 0 where
  wa_token_expired wa_send_failed : String → OpsAlert
  send_insert_failed window_closed_blocked : OpsAlert
  send_reconciled_stale : ℕ → OpsAlert

-- The messages, and the alerts that were raised.
pub record Outbox : Type 0 where
  pub messages : MessageTable
  pub alerts : List OpsAlert

-- The rows that the cards of an alert leave in the same table (deliverToOps of src/ops/alerts.ts):
-- one for each ops number, and none while the alert is not configured or was sent less than half an
-- hour ago. What the sends of the cards put into the other columns is drawn outside.
abbrev pub AlertCards : Type 0
AlertCards = OpsAlert → List Message

-- a card is sent by the system, to no conversation
abbrev pub ops_card : Message → Message
ops_card m = record m { conversation_id = none; sender = MessageSender.system }

unfoldable pub add_cards : MessageTable → List Message → MessageTable
add_cards rows [] = rows
add_cards rows (c ∷ cards) = add_cards (rows ++ ops_card c ∷ []) cards

-- LOG_ONLY_KINDS
abbrev pub delivered : AlertCards → OpsAlert → List Message
delivered cards (wa_token_expired id) = []
delivered cards alert = cards alert

-- alertOps
unfoldable pub alert_ops : AlertCards → OpsAlert → Outbox → Outbox
unfolding add_cards
alert_ops cards alert box = record box {
  messages = add_cards box.messages (delivered cards alert);
  alerts = box.alerts ++ alert ∷ [];
}

-- PERMANENT_META_CODES
abbrev pub permanent_meta_codes : List ℕ
permanent_meta_codes =
    100 ∷ 131009 ∷ 131026 ∷ 131030 ∷ 131047 ∷ 131051 ∷ 132000 ∷ 132001 ∷ 132005 ∷ 132007 ∷ 132012
    ∷ 132015 ∷ 132016 ∷ []

abbrev pub is_permanent : Option ℕ → Bool
is_permanent none = false
is_permanent (some code) = any (λ c. c == code) permanent_meta_codes

abbrev pub is_success : Option ℕ → Bool
is_success none = false
is_success (some status) = leb 200 status && ltb status 300

unfoldable pub is_retryable : Option ℕ → Option ℕ → Bool
is_retryable http_status error_code =
    if is_success http_status then false else not (is_permanent error_code)

unfoldable pub is_token_error : SendFailure → Bool
is_token_error failure = some_eq failure.http_status 401 || some_eq failure.error_code 190

abbrev pub queued_guard : String → Message → Bool
queued_guard id m = str_eq m.id id && is_queued m.status

-- the column wa_message_id after a write that may leave it out
abbrev pub wa_or : Option String → Option String → Option String
wa_or none old = old
wa_or (some wa) old = some wa

abbrev pub settle_failed : String → Option String → Message → Message
settle_failed error_text wa m = record m {
  status = failed;
  error = some error_text;
  wa_message_id = wa_or wa m.wa_message_id;
}

-- The write would break the unique index on wa_message_id: another row has the id already.
abbrev pub is_taken : String → Option String → MessageTable → Bool
is_taken id none rows = false
is_taken id (some wa) rows =
    any (λ m. text_is m.wa_message_id wa && not (str_eq m.id id)) rows && any (queued_guard id) rows

-- The settling write; a statement that throws is swallowed and leaves the row queued.
unfoldable pub write_failed : Bool → String → String → Option String → MessageTable → MessageTable
write_failed rejects id error_text wa rows =
    if rejects || is_taken id wa rows
    then rows
    else update_where (queued_guard id) (settle_failed error_text wa) rows

-- failSend; the second argument tells whether the database rejects its statement.
unfoldable pub fail_send :
    AlertCards → Bool → String → SendFailure → Option String → Outbox → Outbox × SendResult
unfolding write_failed is_retryable is_token_error alert_ops
fail_send cards rejects id failure wa box = (
  alert_ops cards (if is_token_error failure then wa_token_expired id else wa_send_failed id)
      (record box { messages = write_failed rejects id failure.error_text wa box.messages }),
  not_sent (some id) failure.error_text (is_retryable failure.http_status failure.error_code),
)

append_one : {A : Type 0} (xs : List A) (x : A) (ys : List A) → (xs ++ x ∷ []) ++ ys ≡ xs ++ x ∷ ys
append_one [] x ys = refl
append_one (z ∷ xs) x ys = ap (λ rest. z ∷ rest) (append_one xs x ys)

-- The cards of an alert follow the rows that were there.
pub add_cards-append :
    (rows : MessageTable) (cards : List Message) → add_cards rows cards ≡ rows ++ map ops_card cards
unfolding add_cards
add_cards-append [] [] = refl
add_cards-append (r ∷ rows) [] = ap (λ rest. r ∷ rest) (add_cards-append rows [])
add_cards-append rows (c ∷ cards) =
    add_cards-append (rows ++ ops_card c ∷ []) cards
    ∙ append_one rows (ops_card c) (map ops_card cards)

-- The second table is the first with cards of alerts after it.
abbrev pub AddsCards : MessageTable → MessageTable → Type 0
AddsCards before after = (cards : List Message) × (after ≡ before ++ map ops_card cards)

pub AddsCards-alert_ops :
    (cards : AlertCards) (alert : OpsAlert) (box : Outbox)
    → AddsCards box.messages (alert_ops cards alert box).messages
unfolding alert_ops
AddsCards-alert_ops cards alert box =
    (delivered cards alert, add_cards-append box.messages (delivered cards alert))

pub AddsCards-refl : (rows : MessageTable) → AddsCards rows rows
unfolding add_cards
AddsCards-refl rows = ([], add_cards-append rows [])

map-append : (xs ys : List Message) → map ops_card (xs ++ ys) ≡ map ops_card xs ++ map ops_card ys
map-append [] ys = refl
map-append (x ∷ xs) ys = ap (λ rest. ops_card x ∷ rest) (map-append xs ys)

pub AddsCards-trans : (a b c : MessageTable) → AddsCards a b → AddsCards b c → AddsCards a c
AddsCards-trans a b c (xs, h) (ys, k) = (
  xs ++ ys,
  k
      ∙ ap (λ rows. rows ++ map ops_card ys) h
      ∙ append_assoc a (map ops_card xs) (map ops_card ys)
      ∙ ap (λ rest. a ++ rest) (sym (map-append xs ys)),
)
