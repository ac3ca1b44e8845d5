-- ===== src/Turn/Policy.antt =====
-- src/brain/policy.ts: what a batch of guest messages asks for, and what the turn then does.
use nistula_assistance.Prelude.{
  ℕ, Option, some, none, List, [], ◌∷◌, ◌++◌, Bool, true, false, not, ◌&&◌, ◌||◌, any, ltb,
  codes_eq, if◌then◌else◌,
}
use nistula_assistance.Lifecycle.{ConversationStatus}
use nistula_assistance.Messages.{Message, MessageType}

pub data DirectiveKind : Type 0 where
  cool_off human_active human_request complaint_suspect : DirectiveKind
  marketing_stop media_fallback normal : DirectiveKind

pub record PolicyFlags : Type 0 where
  pub bot_question : Bool
  pub contains_human_request : Bool
  pub contains_complaint : Bool
  pub contains_stop : Bool
  pub has_media : Bool

pub record Directive : Type 0 where
  pub kind : DirectiveKind
  pub flags : PolicyFlags
  pub guest_text_tail : List ℕ

abbrev pub daily_ai_turn_cap : ℕ
daily_ai_turn_cap = 60

-- The patterns of the texts, and what is read off the raw payload of a message.
pub record Detectors : Type 0 where
  pub guest_text_of : Message → Option (List ℕ)
  pub has_location : Message → Bool
  pub is_bot_question : List ℕ → Bool
  pub strip_bot_question : List ℕ → List ℕ
  pub is_human_request : List ℕ → Bool
  pub is_complaint : List ℕ → Bool
  pub matches_stop : List ℕ → Bool
  pub is_affirmative : List ℕ → Bool
  pub sanitise_tail : List ℕ → List ℕ

pub record PolicyInput : Type 0 where
  pub messages : List Message
  pub status : ConversationStatus
  pub human_active_until : Option ℕ
  pub now : ℕ
  pub over_limit : Bool
  pub over_daily_turn_cap : Bool

abbrev pub is_text_or_location : MessageType → Bool
is_text_or_location MessageType.text = true
is_text_or_location MessageType.location = true
is_text_or_location _ = false

abbrev pub kept : Option (List ℕ) → List (List ℕ) → List (List ℕ)
kept none texts = texts
kept (some t) texts = t ∷ texts

unfoldable pub texts_of : Detectors → List Message → List (List ℕ)
texts_of detect [] = []
texts_of detect (m ∷ rows) = kept (detect.guest_text_of m) (texts_of detect rows)

-- `texts.join(separator)`
unfoldable pub join : List ℕ → List (List ℕ) → List ℕ
join separator [] = []
join separator (t ∷ []) = t
join separator (t ∷ u ∷ texts) = t ++ (separator ++ join separator (u ∷ texts))

abbrev newline : List ℕ
newline = 10 ∷ []

abbrev bar : List ℕ
bar = 32 ∷ 124 ∷ 32 ∷ []

unfoldable pub flags_of : Detectors → List Message → List ℕ → PolicyFlags
flags_of detect messages batch_text = record {
  bot_question = detect.is_bot_question batch_text;
  contains_human_request = detect.is_human_request (detect.strip_bot_question batch_text);
  contains_complaint = detect.is_complaint batch_text;
  contains_stop = detect.matches_stop batch_text;
  has_media = any (λ m. not (is_text_or_location m.message_type)) messages;
}

abbrev pub until_later : Option ℕ → ℕ → Bool
until_later none now = false
until_later (some until) now = ltb now until

unfoldable pub is_human_active : ConversationStatus → Option ℕ → ℕ → Bool
is_human_active ConversationStatus.human_active until now = true
is_human_active ConversationStatus.ai_active until now = until_later until now
is_human_active ConversationStatus.cooloff until now = until_later until now

unfoldable pub decide_kind : PolicyInput → PolicyFlags → List ℕ → Bool → DirectiveKind
unfolding is_human_active
decide_kind input flags batch_text has_location =
    if input.over_limit || input.over_daily_turn_cap
    then cool_off
    else if is_human_active input.status input.human_active_until input.now
    then human_active
    else if flags.contains_human_request
    then human_request
    else if flags.contains_complaint
    then complaint_suspect
    else if flags.contains_stop
    then marketing_stop
    else if codes_eq batch_text [] && not has_location
    then media_fallback
    else normal

unfoldable pub decide_policy : Detectors → PolicyInput → Directive
unfolding texts_of join flags_of decide_kind
decide_policy detect input =
    let texts = texts_of detect input.messages in
    let batch_text = join newline texts in
    let flags = flags_of detect input.messages batch_text in
    record {
      kind = decide_kind input flags batch_text (any detect.has_location input.messages);
      flags = flags;
      guest_text_tail = detect.sanitise_tail (join bar texts);
    }

pub data EscalationReason : Type 0 where
  price human_request complaint media leak promise referral : EscalationReason
  booking_reference booking_undescribable booking_overclaim booking_unit_unknown : EscalationReason

pub data FixedLine : Type 0 where
  cool_off human_request media_fallback marketing_stop_confirm : FixedLine

pub data PolicyRule : Type 0 where
  complaint_suspect human_request media_fallback marketing_stop cool_off : PolicyRule

pub record TurnPlan : Type 0 where
  pub model_runs : Bool
  pub must_escalate : Bool
  pub send : Option FixedLine
  pub status_transition : Option (ConversationStatus × ConversationStatus)
  pub announce_on_transition : Bool
  pub escalate : Option EscalationReason
  pub telemetry : Option PolicyRule

abbrev pub store_only : TurnPlan
store_only = record {
  model_runs = false;
  must_escalate = false;
  send = none;
  status_transition = none;
  announce_on_transition = false;
  escalate = none;
  telemetry = none;
}

abbrev pub restore : ConversationStatus → Option (ConversationStatus × ConversationStatus)
restore ConversationStatus.cooloff = some (ConversationStatus.cooloff, ConversationStatus.ai_active)
restore _ = none

abbrev pub cool_down : ConversationStatus → TurnPlan
cool_down ConversationStatus.ai_active = record store_only {
  send = some FixedLine.cool_off;
  status_transition = some (ConversationStatus.ai_active, ConversationStatus.cooloff);
  announce_on_transition = true;
  telemetry = some PolicyRule.cool_off;
}
cool_down _ = store_only

unfoldable pub settle_plan_for : DirectiveKind → ConversationStatus → TurnPlan
settle_plan_for DirectiveKind.normal status = record store_only {
  model_runs = true;
  status_transition = restore status;
}
settle_plan_for DirectiveKind.complaint_suspect status = record store_only {
  model_runs = true;
  must_escalate = true;
  status_transition = restore status;
  escalate = some complaint;
  telemetry = some PolicyRule.complaint_suspect;
}
settle_plan_for DirectiveKind.human_request status = record store_only {
  send = some FixedLine.human_request;
  status_transition = restore status;
  escalate = some EscalationReason.human_request;
  telemetry = some PolicyRule.human_request;
}
settle_plan_for DirectiveKind.media_fallback status = record store_only {
  send = some FixedLine.media_fallback;
  status_transition = restore status;
  escalate = some media;
  telemetry = some PolicyRule.media_fallback;
}
settle_plan_for DirectiveKind.marketing_stop status = record store_only {
  send = some marketing_stop_confirm;
  status_transition = restore status;
  telemetry = some PolicyRule.marketing_stop;
}
settle_plan_for DirectiveKind.human_active status = store_only
settle_plan_for DirectiveKind.cool_off status = cool_down status
