-- ===== src/Lifecycle/Sender.antt =====
-- src/lifecycle/sender.ts: the minutely sender. A tick reads the due rows once and takes them one by
-- one; before the claim of a row other workers may write, the claim commits before the message
-- leaves, and what throws is caught by the loop.
pub mod Tick
use nistula_assistance.Prelude.{
  ℕ, zero, suc, ◌+◌, String, Option, some, none, List, [], ◌∷◌, ◌++◌, Bool, true, false, not, ◌&&◌,
  ◌||◌, ltb, leb, str_eq, select_where, head?, take, if◌then◌else◌,
}
use nistula_assistance.Lifecycle.{
  ScheduledRow, ScheduledStatus, Guest, Conversation, ConversationStatus, Reason,
  conversation_missing, window_closed, transient_error, guest_missing, send_error, retry,
  is_pending,
}
use nistula_assistance.Lifecycle.Writes.{
  ScheduledTable, resolve, defer, retry_after_failed_send, claim, attach_message, fail_send,
}
use nistula_assistance.Lifecycle.SendGuards.{
  Db, SendGates, Blocked, free, skips, defers, blocked_by, find_guest,
}

-- What planTemplatedSend decides: a body that goes out as a template or free-form, a shut window, or
-- parameters that are refused.
pub data Planned : Type 0 where
  planned : (as_template : Bool) → Planned
  shut : Planned
  invalid : String → Planned

-- What dispatchTemplated reports of the Graph call.
pub data Dispatched : Type 0 where
  accepted : Dispatched
  unsent : (retryable : Bool) → String → Dispatched

pub data Outcome : Type 0 where
  was_sent skipped deferred failed : Outcome

pub data AlertKind : Type 0 where
  lifecycle_send_failed lifecycle_send_deferred : AlertKind

pub record Message : Type 0 where
  pub id : String
  pub conversation_id : String

pub record World : Type 0 where
  pub db : Db
  -- the send intents that were committed, and the messages handed to Graph, latest last
  pub messages : List Message
  pub dispatched : List String
  pub alerts : List (AlertKind × String)
  pub template_costs : ℕ

pub record SenderDeps : Type 0 where
  pub gates : SendGates
  pub enabled : Bool
  pub batch_size : ℕ
  -- the tick's clock, the clock that the guards read again for a row, and that of its writes
  pub now : ℕ
  pub guard_now : String → ℕ
  pub stamp : String → ℕ
  pub plan : ScheduledRow → Guest → Conversation → Planned
  pub dispatch : String → Dispatched
  -- the id of the intent's message row, and whether the transaction throws for a row
  pub message_id : String → String
  pub transaction_throws : String → Bool
  -- what other workers do to the scheduled rows before the claim of a row
  pub others : String → ScheduledTable → ScheduledTable

-- sendOne returns an outcome or throws.
pub data Step : Type 0 where
  done : World → Outcome → Step
  threw : World → Step

abbrev pub with_rows : World → ScheduledTable → World
with_rows w rows = record w { db = record (w.db) { scheduled = rows } }

abbrev pub find_conversation : String → List Conversation → Option Conversation
find_conversation guest conversations =
    head? (select_where (λ c. str_eq c.guest_id guest) conversations)

abbrev pub is_human_status : ConversationStatus → Bool
is_human_status ConversationStatus.human_active = true
is_human_status _ = false

abbrev pub active_until : Option ℕ → ℕ → Bool
active_until none now = false
active_until (some until) now = ltb now until

abbrev pub human_holds : Conversation → ℕ → Bool
human_holds c now = active_until c.human_active_until now || is_human_status c.status

module _ (deps : SenderDeps) (row : ScheduledRow) where
  abbrev pub put_off : World → Reason → Step
  put_off w reason =
      done (with_rows w (defer (deps.stamp row.id) row.id reason w.db.scheduled)) deferred

  abbrev pub settle : World → ScheduledStatus → Reason → Outcome → Step
  settle w status reason outcome =
      done (with_rows w (resolve (deps.stamp row.id) row.id status reason w.db.scheduled)) outcome

  abbrev pub alert : AlertKind → World → World
  alert kind w = record w { alerts = w.alerts ++ (kind, row.id) ∷ [] }

  abbrev pub count_cost : Bool → World → World
  count_cost true w = record w { template_costs = suc w.template_costs }
  count_cost false w = w

  -- after the Graph call
  unfoldable pub after_dispatch : Bool → World → Dispatched → Step
  after_dispatch as_template w accepted = done (count_cost as_template w) was_sent
  after_dispatch as_template w (unsent true error) =
      done
        (alert lifecycle_send_deferred (
          with_rows w
            (retry_after_failed_send (deps.stamp row.id) row.id (retry error) w.db.scheduled)))
        deferred
  after_dispatch as_template w (unsent false error) =
      done
        (alert lifecycle_send_failed
          (with_rows w (fail_send (deps.stamp row.id) row.id (send_error error) w.db.scheduled)))
        failed

  -- the committed intent, and the message handed to Graph
  abbrev pub hand_over : Conversation → World → World
  hand_over c w = record w {
    messages = w.messages ++ record { id = deps.message_id row.id; conversation_id = c.id } ∷ [];
    dispatched = w.dispatched ++ deps.message_id row.id ∷ [];
  }

  abbrev pub after_claim : Bool → Conversation → World → List ScheduledRow → Step
  after_claim as_template c w [] = done w skipped
  after_claim as_template c w (_ ∷ _) =
      after_dispatch as_template
        (hand_over c (
          with_rows w
            (attach_message (deps.stamp row.id) row.id (deps.message_id row.id) w.db.scheduled)))
        (deps.dispatch (deps.message_id row.id))

  -- the transaction: claim, intent and message id together, or nothing
  unfoldable pub claim_and_send : Bool → Conversation → World → Step
  unfolding after_dispatch
  claim_and_send as_template c w =
      let rows = deps.others row.id w.db.scheduled in
      if deps.transaction_throws row.id
      then threw (with_rows w rows)
      else let (rows', claimed) = claim (deps.stamp row.id) row.id rows in
        after_claim as_template c (with_rows w rows') claimed

  abbrev pub after_plan : Conversation → World → Planned → Step
  after_plan c w (planned as_template) = claim_and_send as_template c w
  after_plan c w shut = put_off w window_closed
  after_plan c w (invalid error) =
      done
        (alert lifecycle_send_failed (
          with_rows w (
            resolve (deps.stamp row.id) row.id ScheduledStatus.failed (send_error error)
              w.db.scheduled)))
        failed

  abbrev pub to_conversation : Guest → World → Option Conversation → Step
  to_conversation g w none = put_off w conversation_missing
  to_conversation g w (some c) =
      if human_holds c deps.now
      then put_off w Reason.human_active
      else after_plan c w (deps.plan row g c)

  abbrev pub to_guest : World → Option Guest → Step
  to_guest w none = settle w ScheduledStatus.skipped guest_missing skipped
  to_guest w (some g) = to_conversation g w (find_conversation g.id w.db.conversations)

  abbrev pub after_guards : World → Blocked → Step
  after_guards w (defers reason) = put_off w reason
  after_guards w (skips reason) = settle w ScheduledStatus.skipped reason skipped
  after_guards w free = to_guest w (find_guest row.guest_id w.db.guests)

  unfoldable pub send_one : World → Step
  unfolding claim_and_send
  send_one w = after_guards w (blocked_by w.db deps.gates (deps.guard_now row.id) row)

  -- the catch of the loop: the row is deferred, and counted so
  abbrev pub caught : Step → World × Outcome
  caught (done w outcome) = (w, outcome)
  caught (threw w) =
      (with_rows w (defer (deps.stamp row.id) row.id transient_error w.db.scheduled), deferred)

-- due: pending, its time come, and not backed off
abbrev pub not_backed_off : Option ℕ → ℕ → Bool
not_backed_off none now = true
not_backed_off (some until) now = leb until now

abbrev pub due_guard : ℕ → ScheduledRow → Bool
due_guard now r = is_pending r.status && (leb r.send_at now && not_backed_off r.deferred_until now)

unfoldable pub place : ScheduledRow → List ScheduledRow → List ScheduledRow
place r [] = r ∷ []
place r (s ∷ rows) = if leb r.send_at s.send_at then r ∷ s ∷ rows else s ∷ place r rows

unfoldable pub by_send_at : List ScheduledRow → List ScheduledRow
unfolding place
by_send_at [] = []
by_send_at (r ∷ rows) = place r (by_send_at rows)

unfoldable pub due_rows : ℕ → ℕ → ScheduledTable → List ScheduledRow
unfolding by_send_at
due_rows now limit rows = take limit (by_send_at (select_where (due_guard now) rows))

pub record SenderResult : Type 0 where
  pub attempted : ℕ
  pub sent : ℕ
  pub skips : ℕ
  pub defers : ℕ
  pub fails : ℕ

abbrev pub no_result : SenderResult
no_result = record { attempted = 0; sent = 0; skips = 0; defers = 0; fails = 0 }

-- one more attempt, with its outcome
abbrev pub tally : Outcome → SenderResult → SenderResult
tally was_sent r = record r { attempted = suc r.attempted; sent = suc r.sent }
tally skipped r = record r { attempted = suc r.attempted; skips = suc r.skips }
tally deferred r = record r { attempted = suc r.attempted; defers = suc r.defers }
tally failed r = record r { attempted = suc r.attempted; fails = suc r.fails }

module _ (deps : SenderDeps) where
  unfoldable pub send_all : List ScheduledRow → World → SenderResult → World × SenderResult
  unfolding send_one
  send_all [] w result = (w, result)
  send_all (row ∷ rows) w result =
      let (w', outcome) = caught deps row (send_one deps row w) in
      send_all rows w' (tally outcome result)

  unfoldable pub run_sender : World → World × SenderResult
  unfolding send_all due_rows
  run_sender w =
      if not deps.enabled
      then (w, no_result)
      else send_all (due_rows deps.now deps.batch_size w.db.scheduled) w no_result
