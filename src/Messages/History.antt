-- ===== src/Messages/History.antt =====
-- The writes to the messages table in any order: status webhooks, the settling of a send, the
-- reconciliation, new messages. Each is one statement, so a history is any interleaving.
use nistula_assistance.Prelude.{
  ℕ, ◌≡◌, ◌≢◌, inl, inr, refl, String, Option, some, none, List, [], ◌∷◌, Bool, true, false, ◌||◌,
  arith, All, All-append, update_where, update_where-All, Bool-cases, if◌then◌else◌,
}
use nistula_assistance.Messages.{
  Message, MessageTable, MessageStatus, inward, conflicts, insert_message, rank_guard, set_status,
  outbound_status, update_status, update_known, apply_status_update,
}
use nistula_assistance.Messages.Failure.{queued_guard, settle_failed, is_taken, write_failed}
use nistula_assistance.Messages.Sending.{
  settle_sent, write_sent, stranded, give_up, reconcile_stale_sends, reconcile_stale_sends-messages,
}

-- A step of the table; the card of an alert is an insert of its own.
pub data Event : Type 0 where
  webhook : String → String → Option String → Event
  settle : String → String → Event
  fail : Bool → String → String → Option String → Event
  reconcile : ℕ → Event
  insert : Message → Event

unfoldable pub run_event : Event → MessageTable → MessageTable
unfolding apply_status_update write_sent write_failed reconcile_stale_sends insert_message
run_event (webhook wa next error_text) rows = (apply_status_update wa next error_text rows).0
run_event (settle id wa) rows = if is_taken id (some wa) rows then rows else write_sent id wa rows
run_event (fail rejects id error_text wa) rows = write_failed rejects id error_text wa rows
run_event (reconcile now) rows =
    (reconcile_stale_sends (λ _. []) now (record { messages = rows; alerts = [] })).0.messages
run_event (insert m) rows = (insert_message m rows).0

unfoldable pub run_history : List Event → MessageTable → MessageTable
unfolding run_event
run_history [] rows = rows
run_history (e ∷ events) rows = run_history events (run_event e rows)

-- What a row keeps: an error belongs to a failed message, and a message from outside is received.
pub record IsSound (m : Message) : Type 0 where
  pub error_of : m.error ≢ none → m.status ≡ MessageStatus.failed
  pub received_of : m.direction ≡ inward → m.status ≡ MessageStatus.received

abbrev pub Inserts : Event → Type 0
Inserts (insert m) = IsSound m
Inserts _ = Unit

set_status-IsSound :
    (wa : String) (next : MessageStatus) (error_text : Option String) (m : Message)
    → rank_guard wa next m ≡ true
    → IsSound m
    → IsSound (set_status next error_text m)
set_status-IsSound wa next error_text m h s = record {
  error_of = λ k. ground arith;
  received_of = λ k. absurd (ground arith);
}

settle_sent-IsSound :
    (id wa : String) (m : Message)
    → queued_guard id m ≡ true
    → IsSound m
    → IsSound (settle_sent wa m)
settle_sent-IsSound id wa m h s = record {
  error_of = λ k. absurd (ground arith);
  received_of = λ k. absurd (ground arith);
}

settle_failed-IsSound :
    (id error_text : String) (wa : Option String) (m : Message)
    → queued_guard id m ≡ true
    → IsSound m
    → IsSound (settle_failed error_text wa m)
settle_failed-IsSound id error_text wa m h s = record {
  error_of = λ k. refl;
  received_of = λ k. absurd (ground arith);
}

give_up-IsSound :
    (cutoff : ℕ) (m : Message) → stranded cutoff m ≡ true → IsSound m → IsSound (give_up m)
give_up-IsSound cutoff m h s = record {
  error_of = λ k. refl;
  received_of = λ k. absurd (ground arith);
}

if-All :
    (b : Bool) (rows others : MessageTable)
    → All IsSound rows
    → All IsSound others
    → All IsSound (if b then rows else others)
if-All true rows others h k = h
if-All false rows others h k = k

update_known-IsSound :
    (wa : String) (next : Option MessageStatus) (error_text : Option String) (rows : MessageTable)
    → All IsSound rows
    → All IsSound (update_known wa next error_text rows).0
unfolding update_status
update_known-IsSound wa none error_text rows h = h
update_known-IsSound wa (some next) error_text rows h =
    update_where-All IsSound (rank_guard wa next) (set_status next error_text) rows
      (set_status-IsSound wa next error_text) h

insert_message-IsSound :
    (m : Message) (rows : MessageTable)
    → IsSound m
    → All IsSound rows
    → All IsSound (insert_message m rows).0
unfolding insert_message
insert_message-IsSound m rows s h = elim (Bool-cases (conflicts m.wa_message_id rows)) [
  | inl hit ↦ rw hit h
  | inr miss ↦ rw miss (All-append IsSound rows (m ∷ []) h (s, tt))
]

run_event-IsSound :
    (e : Event) (rows : MessageTable)
    → Inserts e
    → All IsSound rows
    → All IsSound (run_event e rows)
unfolding run_event apply_status_update write_sent write_failed
run_event-IsSound (webhook wa next error_text) rows s h =
    update_known-IsSound wa (outbound_status next) error_text rows h
run_event-IsSound (settle id wa) rows s h =
    if-All (is_taken id (some wa) rows) rows (write_sent id wa rows) h (
      update_where-All IsSound (queued_guard id) (settle_sent wa) rows (settle_sent-IsSound id wa)
        h)
run_event-IsSound (fail rejects id error_text wa) rows s h =
    if-All (rejects || is_taken id wa rows) rows
      (update_where (queued_guard id) (settle_failed error_text wa) rows) h
      (update_where-All IsSound (queued_guard id) (settle_failed error_text wa) rows
        (settle_failed-IsSound id error_text wa) h)
run_event-IsSound (reconcile now) rows s h =
    rw (reconcile_stale_sends-messages now (record { messages = rows; alerts = [] }))
      (update_where-All IsSound _ give_up rows (give_up-IsSound _) h)
run_event-IsSound (insert m) rows s h = insert_message-IsSound m rows s h

-- Whatever webhooks, settlings, failures, sweeps and inserts of sound messages come, in any order, a
-- table of sound messages stays one: an error stands only on a failed message, and a message that
-- came in is never marked as anything but received.
pub run_history-IsSound :
    (events : List Event) (rows : MessageTable)
    → All Inserts events
    → All IsSound rows
    → All IsSound (run_history events rows)
unfolding run_history
run_history-IsSound [] rows s h = h
run_history-IsSound (e ∷ events) rows (s, ss) h =
    run_history-IsSound events (run_event e rows) ss (run_event-IsSound e rows s h)
