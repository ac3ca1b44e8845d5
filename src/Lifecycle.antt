-- ===== src/Lifecycle.antt =====
-- The lifecycle engine (src/lifecycle): the rows of the booking mirror and of the scheduled
-- messages (src/db/schema.ts), and the database that its parts share.
pub mod Gates
pub mod Plan
pub mod Guests
pub mod Scheduler
pub mod Consent
pub mod Writes
pub mod Retired
pub mod SendGuards
pub mod Sender
mod Tests
mod PlanTests
use nistula_assistance.Prelude.{ℕ, String, Option, some, none, List, Bool, true, false}
use nistula_assistance.Clock.{Day}

pub data BookingStatus : Type 0 where
  confirmed modified cancelled no_show checked_in checked_out unknown : BookingStatus

pub record BookingMirror : Type 0 where
  pub id : String
  pub ezee_reservation_no : List ℕ
  pub guest_name : Option (List ℕ)
  pub guest_phone : Option (List ℕ)
  pub room_type_name : Option (List ℕ)
  pub check_in : Option Day
  pub check_out : Option Day
  pub status : BookingStatus
  pub source : Option (List ℕ)
  -- how many rooms the raw booking lists, 0 where there is none
  pub rooms : ℕ
  -- the house that eZee assigned
  pub physical_room_label : Option (List ℕ)
  pub adults : Option ℕ
  pub children : Option ℕ
  pub created_at : ℕ

pub data ScheduledKind : Type 0 where
  confirmation prearrival welcome poststay winback lead_followup : ScheduledKind

pub data ScheduledStatus : Type 0 where
  pending sent skipped cancelled failed : ScheduledStatus

-- Why a scheduled row was held or resolved: the texts of `skip_reason`.
pub data Reason : Type 0 where
  booking_missing booking_is_cancelled booking_is_no_show booking_is_unknown : Reason
  source_not_allowed no_phone stay_over stale : Reason
  guest_already_arrived arrival_day_passed quiet_hours inventory_retired guest_missing : Reason
  opted_out no_marketing_opt_in winback_cap_reached lead_followup_cap_reached : Reason
  conversation_missing human_active window_closed transient_error converted : Reason
  -- `undescribable:` and why
  undescribable : String → Reason
  -- what the messaging client said, `retry:` before it where the send is tried again
  send_error : String → Reason
  retry : String → Reason

pub record ScheduledRow : Type 0 where
  pub id : String
  pub guest_id : String
  pub booking_id : Option String
  pub kind : ScheduledKind
  pub villa_type_param : Option (List ℕ)
  pub send_at : ℕ
  pub deferred_until : Option ℕ
  pub status : ScheduledStatus
  pub dedupe_key : ScheduledKind × List ℕ
  pub sent_message_id : Option String
  pub skip_reason : Option Reason
  pub updated_at : ℕ

pub data OptInSource : Type 0 where
  website_booking in_chat imported : OptInSource

pub record Guest : Type 0 where
  pub id : String
  pub phone : List ℕ
  pub first_name : Option (List ℕ)
  pub opt_out_marketing : Bool
  pub marketing_opt_in : Bool
  pub marketing_opt_in_source : Option OptInSource
  pub marketing_opt_in_at : Option ℕ

pub data ConversationStatus : Type 0 where
  ai_active human_active cooloff : ConversationStatus

pub record Conversation : Type 0 where
  pub id : String
  pub guest_id : String
  pub status : ConversationStatus
  pub human_active_until : Option ℕ

abbrev pub is_pending : ScheduledStatus → Bool
is_pending pending = true
is_pending _ = false

abbrev pub is_sent_status : ScheduledStatus → Bool
is_sent_status sent = true
is_sent_status _ = false

abbrev pub same_kind : ScheduledKind → ScheduledKind → Bool
same_kind confirmation confirmation = true
same_kind prearrival prearrival = true
same_kind welcome welcome = true
same_kind poststay poststay = true
same_kind winback winback = true
same_kind lead_followup lead_followup = true
same_kind _ _ = false
