-- ===== src/Lifecycle/Tests.antt =====
-- The lifecycle engine at concrete inputs: a booking of January 2026 and its messages.
use nistula_assistance.Prelude.{
  ℕ, ◌≡◌, ◌≢◌, refl, some, none, true, false, [], ◌∷◌, codes, codes_eq, select_where,
}
use nistula_assistance.Clock.{Day}
use nistula_assistance.Clock.DayText.{day_text, text_leb}
use nistula_assistance.Lifecycle.{
  BookingMirror, confirmed, no_show, ScheduledRow, prearrival, winback, pending, booking_is_no_show,
  Guest, Conversation, ai_active,
}
use nistula_assistance.Lifecycle.Gates.{
  GateContext, ok, refused, source_not_allowed, no_phone, check_gates, passes_task_gate,
  booking_state,
}
use nistula_assistance.Lifecycle.Gates.Contract.{
  MayMessage, check_gates-MayMessage, passes_task_gate-check_gates,
}
use nistula_assistance.Lifecycle.SendGuards.{marketing_block, Db, SendGates, blocked_by}
use nistula_assistance.Lifecycle.SendGuards.Verbs.{MaySkip, blocked_by-skips}
use nistula_assistance.Lifecycle.Consent.{set_marketing_opt_out}
use nistula_assistance.Lifecycle.Consent.Stop.{yes_to_it, hear_all, stop_is_final}
use nistula_assistance.Lifecycle.Sender.{planned, accepted, World, SenderDeps, due_rows, run_sender}
use nistula_assistance.Lifecycle.Sender.Tick.{HandsOver, IsAccounted, run_sender-IsAccounted}

abbrev today : Day
today = record { year = 2026; month = 1; day = 9 }

abbrev arrival : Day
arrival = record { year = 2026; month = 1; day = 10 }

abbrev departure : Day
departure = record { year = 2026; month = 1; day = 13 }

abbrev stay : BookingMirror
stay = record {
  id = "b-1";
  ezee_reservation_no = codes "R100";
  guest_name = some (codes "Mira");
  guest_phone = some (codes "+919800000001");
  room_type_name = some (codes "Villa Noa");
  check_in = some arrival;
  check_out = some departure;
  status = confirmed;
  source = some (codes " Nistula Web ");
  rooms = 1;
  physical_room_label = none;
  adults = some 2;
  children = none;
  created_at = 5000;
}

abbrev absent : BookingMirror
absent = record stay { id = "b-2"; status = no_show }

abbrev gate : GateContext
gate = record { epoch = some 1000; today = today; sources = codes "nistula web" ∷ [] }

check_gates-MayMessage_example : MayMessage stay gate
unfolding check_gates codes_eq day_text text_leb
check_gates-MayMessage_example = check_gates-MayMessage stay gate refl

passes_task_gate-check_gates_example :
    passes_task_gate stay (some 1000) today ≡ (elim (check_gates stay gate) [
      | ok ↦ ok
      | refused source_not_allowed ↦ ok
      | refused no_phone ↦ ok
      | refused r ↦ refused r
    ])
passes_task_gate-check_gates_example = passes_task_gate-check_gates stay gate

abbrev arrival_note : ScheduledRow
arrival_note = record {
  id = "s-1";
  guest_id = "g-1";
  booking_id = some "b-1";
  kind = prearrival;
  villa_type_param = some (codes "Villa Noa");
  send_at = 1767945600000;
  deferred_until = none;
  status = pending;
  dedupe_key = (prearrival, codes "R100");
  sent_message_id = none;
  skip_reason = none;
  updated_at = 0;
}

-- The same message, of the booking that never came.
abbrev absent_note : ScheduledRow
absent_note = record arrival_note { id = "s-2"; booking_id = some "b-2" }

abbrev offer : ScheduledRow
offer = record arrival_note { id = "s-3"; booking_id = none; kind = winback }

abbrev mira : Guest
mira = record {
  id = "g-1";
  phone = codes "+919800000001";
  first_name = none;
  opt_out_marketing = false;
  marketing_opt_in = true;
  marketing_opt_in_source = none;
  marketing_opt_in_at = none;
}

abbrev thread : Conversation
thread = record { id = "c-1"; guest_id = "g-1"; status = ai_active; human_active_until = none }

abbrev store : Db
store = record {
  bookings = stay ∷ absent ∷ [];
  guests = mira ∷ [];
  conversations = thread ∷ [];
  scheduled = arrival_note ∷ absent_note ∷ offer ∷ [];
}

abbrev gates : SendGates
gates = record { sources = codes "nistula web" ∷ []; today = today }

-- 13:30 in Goa on the ninth
abbrev noon : ℕ
noon = 1767945600000

blocked_by-skips_example : MaySkip store gates noon absent_note booking_is_no_show
unfolding blocked_by select_where booking_state
blocked_by-skips_example = blocked_by-skips store gates noon absent_note booking_is_no_show refl

abbrev tick : SenderDeps
tick = record {
  gates = gates;
  enabled = true;
  batch_size = 20;
  now = noon;
  guard_now = λ id. noon;
  stamp = λ id. noon;
  plan = λ row g c. planned true;
  dispatch = λ message. accepted;
  message_id = λ id. "m-1";
  transaction_throws = λ id. false;
  others = λ id rows. rows;
}

abbrev before : World
before = record { db = store; messages = []; dispatched = []; alerts = []; template_costs = 0 }

run_sender-IsAccounted_example :
    HandsOver tick
      (IsAccounted tick (due_rows noon 20 store.scheduled) before)
      before
      (run_sender tick before).0
run_sender-IsAccounted_example = run_sender-IsAccounted tick before

stop_is_final_example :
    marketing_block
      (record store {
        guests = hear_all (yes_to_it "g-1" noon ∷ []) (set_marketing_opt_out "g-1" store.guests);
      })
      offer
      winback
      noon
    ≢ none
stop_is_final_example = stop_is_final "g-1" (yes_to_it "g-1" noon ∷ []) store offer noon refl refl
