-- ===== src/Messages.antt =====
-- The messages table of src/db/schema.ts with insertMessage and applyStatusUpdate of
-- src/db/repos.ts; the children send a message and reconcile it.
pub mod Failure
pub mod Sending
pub mod History
pub mod Delivery
mod Tests
use nistula_assistance.Prelude.{
  ℕ, ◌<◌, String, Option, some, none, List, [], ◌∷◌, ◌++◌, Bool, true, false, ◌&&◌, ltb, str_eq,
  any, head?, select_where, update_where, returning, if◌then◌else◌,
}

pub data MessageDirection : Type 0 where
  inward outward : MessageDirection

pub data MessageSender : Type 0 where
  guest ai human system : MessageSender

pub data MessageType : Type 0 where
  text image audio video document location template interactive unsupported : MessageType

pub data MessageStatus : Type 0 where
  received queued sent delivered read failed : MessageStatus

pub record Message : Type 0 where
  pub id : String
  pub conversation_id : Option String
  pub guest_id : Option String
  pub wa_message_id : Option String
  pub direction : MessageDirection
  pub sender : MessageSender
  pub message_type : MessageType
  pub body : Option String
  pub media_id : Option String
  pub template_name : Option String
  pub status : MessageStatus
  pub error : Option String
  pub created_at : ℕ

abbrev pub MessageTable : Type 0
MessageTable = List Message

-- SQL `col = v` on a nullable text
abbrev pub text_is : Option String → String → Bool
text_is none t = false
text_is (some s) t = str_eq s t

abbrev pub is_outward : MessageDirection → Bool
is_outward outward = true
is_outward inward = false

abbrev pub is_queued : MessageStatus → Bool
is_queued queued = true
is_queued _ = false

abbrev pub is_failed : MessageStatus → Bool
is_failed failed = true
is_failed _ = false

-- The message is complete but for the conflict on wa_message_id, whose row is not inserted.
abbrev pub conflicts : Option String → MessageTable → Bool
conflicts none rows = false
conflicts (some wa) rows = any (λ r. text_is r.wa_message_id wa) rows

-- the rows, the row that came back, and isNew
unfoldable pub insert_message : Message → MessageTable → MessageTable × Option Message × Bool
insert_message message rows =
    if conflicts message.wa_message_id rows
    then (rows, none, false)
    else (rows ++ message ∷ [], some message, true)

-- MESSAGE_STATUS_RANK
abbrev pub rank : MessageStatus → ℕ
rank received = 0
rank queued = 1
rank sent = 2
rank failed = 3
rank delivered = 4
rank read = 5

-- isOutboundStatus with its status
unfoldable pub outbound_status : String → Option MessageStatus
outbound_status next =
    if str_eq next "sent"
    then some sent
    else if str_eq next "delivered"
    then some delivered
    else if str_eq next "read"
    then some read
    else if str_eq next "failed"
    then some failed
    else none

pub data StatusUpdateResult : Type 0 where
  applied : String → Option String → StatusUpdateResult
  stale : MessageStatus → StatusUpdateResult
  missing unknown_status : StatusUpdateResult

abbrev pub is_addressed : String → Message → Bool
is_addressed wa m = text_is m.wa_message_id wa && is_outward m.direction

abbrev pub rank_guard : String → MessageStatus → Message → Bool
rank_guard wa next m = is_addressed wa m && ltb (rank m.status) (rank next)

abbrev pub kept_error : MessageStatus → Option String → Option String
kept_error next error_text = if is_failed next then error_text else none

abbrev pub set_status : MessageStatus → Option String → Message → Message
set_status next error_text m = record m { status = next; error = kept_error next error_text }

-- the SELECT that tells a stale webhook from one about an unknown message
abbrev pub classify : Option Message → StatusUpdateResult
classify none = missing
classify (some m) = stale m.status

abbrev pub applied_or : Option Message → StatusUpdateResult → StatusUpdateResult
applied_or none other = other
applied_or (some m) other = applied m.id m.conversation_id

unfoldable pub update_status :
    String → MessageStatus → Option String → MessageTable → MessageTable × StatusUpdateResult
update_status wa next error_text rows =
    let guard : Message → Bool = rank_guard wa next in
    (
      update_where guard (set_status next error_text) rows,
      applied_or (head? (returning guard (set_status next error_text) rows))
          (classify (head? (select_where (is_addressed wa) rows))),
    )

abbrev pub update_known :
    String → Option MessageStatus → Option String → MessageTable → MessageTable × StatusUpdateResult
update_known wa none error_text rows = (rows, unknown_status)
update_known wa (some next) error_text rows = update_status wa next error_text rows

unfoldable pub apply_status_update :
    String → String → Option String → MessageTable → MessageTable × StatusUpdateResult
unfolding outbound_status update_status
apply_status_update wa next error_text rows = update_known wa (outbound_status next) error_text rows
