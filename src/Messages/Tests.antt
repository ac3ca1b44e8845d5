-- ===== src/Messages/Tests.antt =====
-- A confirmation that is sent, delivered and read, with its webhooks out of order.
use nistula_assistance.Prelude.{
  ◌≡◌, refl, some, none, List, [], ◌∷◌, true, false, All, get_elem?, arith,
}
use nistula_assistance.Windows.{WindowTable}
use nistula_assistance.Messages.{
  Message, MessageTable, MessageSender, MessageType, MessageStatus, outward, rank, outbound_status,
}
use nistula_assistance.Messages.Failure.{AddsCards, not_sent}
use nistula_assistance.Messages.Sending.{
  SendOptions, accepted, Surroundings, send_intent, plain_text, send_text,
}
use nistula_assistance.Messages.Sending.Audit.{Audited, is_window_open, send_text-Audited}
use nistula_assistance.Messages.History.{
  Event, webhook, fail, reconcile, run_history, IsSound, run_history-IsSound,
}
use nistula_assistance.Messages.Delivery.{peak, evidence, IsOut, run_history-peak}

abbrev confirmation : Message
confirmation = record {
  id = "m-1";
  conversation_id = some "c-1";
  guest_id = none;
  wa_message_id = some "wamid.1";
  direction = outward;
  sender = MessageSender.ai;
  message_type = MessageType.text;
  body = some "See you on Friday.";
  media_id = none;
  template_name = none;
  status = MessageStatus.sent;
  error = none;
  created_at = 5000;
}

abbrev table : MessageTable
table = confirmation ∷ []

abbrev webhooks : List Event
webhooks =
    webhook "wamid.1" "read" none
    ∷ webhook "wamid.1" "played" none
    ∷ webhook "wamid.1" "failed" (some "131026")
    ∷ reconcile 9000000
    ∷ webhook "wamid.1" "delivered" none
    ∷ fail false "m-1" "late" none
    ∷ []

confirmation-IsOut : IsOut "wamid.1" confirmation
confirmation-IsOut = record { has_id = refl; goes_out = refl; settled = refl }

confirmation-IsSound : IsSound confirmation
confirmation-IsSound = record {
  error_of = λ h. absurd (h refl);
  received_of = λ h. absurd (ground arith);
}

-- The highest rank is that of `read`, though it came first.
top : peak 2 (evidence "wamid.1" webhooks) ≡ 5
unfolding evidence outbound_status
top = refl

run_history-peak_example :
    (n : Message) × (get_elem? (run_history webhooks table) 0 ≡ some n)
    × (rank n.status ≡ peak 2 (evidence "wamid.1" webhooks))
run_history-peak_example =
    run_history-peak "wamid.1" webhooks table 0 confirmation confirmation-IsOut refl

run_history-IsSound_example : All IsSound (run_history webhooks table)
run_history-IsSound_example =
    run_history-IsSound webhooks table (tt, (tt, (tt, (tt, (tt, (tt, tt))))))
      (confirmation-IsSound, tt)

abbrev calm : Surroundings
calm = record {
  reply = accepted 200 (some "wamid.2");
  settle_error = none;
  taken_error = "23505";
  fail_rejects = false;
  cards = λ alert. [];
  meanwhile = λ rows. rows;
}

abbrev reply_options : SendOptions
reply_options = record { conversation_id = none; sender = MessageSender.ai; about_guest_id = none }

abbrev windows : WindowTable
windows = record { phone = "+911"; last_inbound_at = 100000 } ∷ []

send_text-Audited_example :
    (is_window_open "+911" reply_options 200000 [] windows ≡ true
      → Audited calm.reply calm.fail_rejects table
          (send_intent "m-2" 200000 "Hello" reply_options plain_text)
          (send_text calm none "m-2" 200000 "+911" "Hello" reply_options [] windows
            (record { messages = table; alerts = [] })))
    × (is_window_open "+911" reply_options 200000 [] windows ≡ false
        → AddsCards table (
            (send_text calm none "m-2" 200000 "+911" "Hello" reply_options [] windows
              (record { messages = table; alerts = [] })).0.messages)
          × ((send_text calm none "m-2" 200000 "+911" "Hello" reply_options [] windows
                (record { messages = table; alerts = [] })).1
              ≡ not_sent none "WINDOW_CLOSED" false))
send_text-Audited_example =
    send_text-Audited calm "m-2" 200000 "+911" "Hello" reply_options [] windows
      (record { messages = table; alerts = [] }) (λ rows. refl) refl refl refl
