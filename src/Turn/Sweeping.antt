-- ===== src/Turn/Sweeping.antt =====
-- The recovery net: a conversation that the sweeper wakes is processed, never put off again and
-- never taken for settled (findStaleConversations, decideDebounce, processConversation).
use nistula_assistance.Prelude.{
  ℕ, ◌+◌, ◌-◌, ◌*◌, ◌/◌, ◌<◌, ◌≤◌, ◌≡◌, inl, inr, refl, ◌∙◌, Option, some, none, List, [], ◌∷◌,
  Bool, true, false, ◌&&◌, arith, any, head?, ltb, sym, All, All-map, All-both, All-select_where,
  select_where, select_where-All, Bool-cases,
}
use nistula_assistance.Stays.{needs_human}
use nistula_assistance.Lifecycle.{Guest}
use nistula_assistance.Messages.{Message, MessageTable}
use nistula_assistance.Turn.Cursor.{
  Thread, MessageCursor, cursor_of, is_before, is_guest_message, is_after, is_unprocessed, last?,
  insert_ordered, order_messages, resolve_message_cursor, get_unprocessed_guest_messages,
  pointer_cursor, is_owed, find_stale_conversations,
}
use nistula_assistance.Turn.Debounce.{
  DebounceDecision, process, requeue, debounce_windows, decide_debounce,
}
use nistula_assistance.Turn.Policy.{TurnPlan, Directive}
use nistula_assistance.Turn.Settle.{
  Board, WorkerDeps, Turn, ModelTurn, Committed, lost, thrown, won, run_transaction,
}
use nistula_assistance.Turn.Worker.{
  TurnContext, Outcome, threw, claim_lost, claim_won, unknown_conversation, nothing_pending,
  requeued, settle, claim_turn, turn_of, with_model, think, debounced, with_batch, with_context,
  get_conversation_turn_context, process_conversation,
}

-- The first of a list is older than a bound.
abbrev IsOldHead : ℕ → Option Message → Type 0
IsOldHead bound none = false ≡ true
IsOldHead bound (some m) = m.created_at < bound

before-created_at : (a b : MessageCursor) → is_before a b ≡ true → a.created_at ≤ b.created_at
unfolding is_before
before-created_at a b h = ground arith

not_before-created_at : (a b : MessageCursor) → is_before a b ≡ false → b.created_at ≤ a.created_at
unfolding is_before
not_before-created_at a b h = ground arith

insert_ordered-new :
    (bound : ℕ) (m : Message) (rows : List Message)
    → m.created_at < bound
    → IsOldHead bound (head? (insert_ordered m rows))
unfolding insert_ordered
insert_ordered-new bound m [] h = h
insert_ordered-new bound m (r ∷ rows) h =
    elim (Bool-cases (is_before (cursor_of r) (cursor_of m))) [
      | inl below ↦ rw below (omega (arith, before-created_at (cursor_of r) (cursor_of m) below, h))
      | inr above ↦ rw above h
    ]

insert_ordered-old :
    (bound : ℕ) (m : Message) (rows : List Message)
    → IsOldHead bound (head? rows)
    → IsOldHead bound (head? (insert_ordered m rows))
unfolding insert_ordered
insert_ordered-old bound m [] h = absurd (ground arith)
insert_ordered-old bound m (r ∷ rows) h =
    elim (Bool-cases (is_before (cursor_of r) (cursor_of m))) [
      | inl below ↦ rw below h
      | inr above ↦
          rw above (omega (arith, not_before-created_at (cursor_of r) (cursor_of m) above, h))
    ]

-- The batch starts with its oldest message.
order_messages-old :
    (bound : ℕ) (p : Message → Bool) (rows : List Message)
    → any (λ m. p m && ltb m.created_at bound) rows ≡ true
    → IsOldHead bound (head? (order_messages (select_where p rows)))
unfolding order_messages select_where
order_messages-old bound p [] h = absurd (ground arith)
order_messages-old bound p (m ∷ rows) h = elim (Bool-cases (p m)) [
  | inl hit ↦ elim (Bool-cases (ltb m.created_at bound)) [
    | inl old ↦ rw hit (insert_ordered-new bound m _ (ground arith))
    | inr new ↦
        let rest : any (λ r. p r && ltb r.created_at bound) rows ≡ true = ground arith in
        rw hit (insert_ordered-old bound m _ (order_messages-old bound p rows rest))
  ]
  | inr miss ↦
      let rest : any (λ r. p r && ltb r.created_at bound) rows ≡ true = ground arith in
      rw miss (order_messages-old bound p rows rest)
]

last?-cons : (m : Message) (rows : List Message) → (n : Message) × (last? (m ∷ rows) ≡ some n)
last?-cons m [] = (m, refl)
last?-cons m (r ∷ rows) = last?-cons r rows

and_shuffle : (a b c : Bool) → (a && (b && c)) ≡ ((a && c) && b)
and_shuffle a b c = ground arith

any-owed :
    (swept_at : ℕ) (t : Thread) (at : Option MessageCursor) (rows : MessageTable)
    → any
        (λ m. is_guest_message t.id m && (ltb m.created_at (swept_at - 60 * 1000) && is_after at m))
        rows
      ≡ any (λ m. is_unprocessed t.id at m && ltb m.created_at (swept_at - 60 * 1000)) rows
any-owed swept_at t at [] = refl
any-owed swept_at t at (m ∷ rows) = ground (
  arith,
  and_shuffle (is_guest_message t.id m) (ltb m.created_at (swept_at - 60 * 1000)) (is_after at m),
  any-owed swept_at t at rows,
)

abbrev pub is_attempt : Outcome → Bool
is_attempt unknown_conversation = false
is_attempt nothing_pending = false
is_attempt requeued = false
is_attempt threw = true
is_attempt claim_lost = true
is_attempt claim_won = true

module _ (deps : WorkerDeps) where
  settle-is_attempt :
      (turn : Turn) (m : Option ModelTurn) (needs : Bool) (b : Board) (end : Committed)
      → is_attempt (settle deps turn m needs b end).1 ≡ true
  settle-is_attempt turn m needs b lost = refl
  settle-is_attempt turn m needs b thrown = refl
  settle-is_attempt turn m needs b (won after reply status) = refl

  claim_turn-is_attempt :
      (ctx : TurnContext) (newest : Message) (directive : Directive) (plan : TurnPlan)
      (m : Option ModelTurn) (b : Board)
      → is_attempt (claim_turn deps ctx newest directive plan m b).1 ≡ true
  claim_turn-is_attempt ctx newest directive plan m b =
      let turn = turn_of deps ctx newest directive plan m in
      settle-is_attempt turn m (needs_human deps.stays deps.today) (deps.meanwhile b)
        (run_transaction deps turn (deps.meanwhile b))

  with_model-is_attempt :
      (ctx : TurnContext) (newest : Message) (directive : Directive) (plan : TurnPlan) (b : Board)
      (m : Option ModelTurn)
      → is_attempt (with_model deps ctx newest directive plan b m).1 ≡ true
  with_model-is_attempt ctx newest directive plan b none = refl
  with_model-is_attempt ctx newest directive plan b (some m) =
      claim_turn-is_attempt ctx newest directive plan (some m) b

  think-is_attempt :
      (ctx : TurnContext) (batch : List Message) (newest : Message) (directive : Directive)
      (plan : TurnPlan) (b : Board)
      → is_attempt (think deps ctx batch newest directive plan b).1 ≡ true
  think-is_attempt ctx batch newest directive plan b = elim (Bool-cases plan.model_runs) [
    | inl runs ↦
        simp (runs)
          (with_model-is_attempt ctx newest directive plan b (deps.run_model directive batch))
    | inr skips ↦ simp (skips) (claim_turn-is_attempt ctx newest directive plan none b)
  ]

  decided-is_attempt :
      (ctx : TurnContext) (batch : List Message) (newest : Message) (b : Board)
      (d : DebounceDecision)
      → d ≡ process
      → is_attempt (debounced deps ctx batch newest b d).1 ≡ true
  decided-is_attempt ctx batch newest b (requeue at) h = absurd (ground arith)
  decided-is_attempt ctx batch newest b process h = think-is_attempt ctx batch newest _ _ _

  decide_debounce-aged :
      (newest oldest : ℕ)
      → oldest + deps.windows.max_wait_ms ≤ deps.now
      → decide_debounce newest oldest deps.now deps.windows.quiet_ms deps.windows.max_wait_ms
        ≡ process
  unfolding decide_debounce
  decide_debounce-aged newest oldest h = ground arith

  with_batch-is_attempt :
      (ctx : TurnContext) (batch : List Message) (b : Board) (bound : ℕ)
      → IsOldHead bound (head? batch)
      → ((at : ℕ) → at < bound → at + deps.windows.max_wait_ms ≤ deps.now)
      → is_attempt (with_batch deps ctx batch (head? batch) (last? batch) b).1 ≡ true
  with_batch-is_attempt ctx [] b bound old aged = absurd (ground arith)
  with_batch-is_attempt ctx (m ∷ rows) b bound old aged =
      let (n, e) = last?-cons m rows in
      rw e (
        decided-is_attempt ctx (m ∷ rows) n b _
          (decide_debounce-aged n.created_at m.created_at (aged m.created_at old)))

  owed-is_attempt :
      (swept_at : ℕ) (board : Board) (ctx : TurnContext)
      → deps.windows ≡ debounce_windows
      → swept_at ≤ deps.now
      → any (is_owed swept_at 60 board.messages ctx.conversation) board.messages ≡ true
      → is_attempt (with_context deps (some ctx) board).1 ≡ true
  unfolding get_unprocessed_guest_messages pointer_cursor
  owed-is_attempt swept_at board ctx w late owed =
      let at =
        (resolve_message_cursor ctx.conversation.last_processed_message_id board.messages).0 in
      with_batch-is_attempt ctx _ _ (swept_at - 60 * 1000)
        (order_messages-old (swept_at - 60 * 1000) (is_unprocessed ctx.conversation.id at)
          board.messages (sym (any-owed swept_at ctx.conversation at board.messages) ∙ owed))
        (λ k h. simp (w) (omega arith))

-- The rows have their primary keys, and each conversation has its guest.
abbrev pub IsLinked : Board → Thread → Type 0
IsLinked board t =
    (g : Guest) × (get_conversation_turn_context t.id board.threads board.guests
      ≡ some (record { conversation = t; guest = g }))

-- Each conversation that the sweeper finds is attempted when it wakes, at the time of the sweep or
-- later and on the same messages: the worker neither finds nothing to do nor puts the turn off, but
-- runs up to its claim or to an error that the queue retries. So with the windows of the program a
-- wake-up of the sweeper never loops in the debounce.
pub find_stale_conversations-is_attempt :
    (deps : WorkerDeps) (swept_at : ℕ) (board : Board)
    → deps.windows ≡ debounce_windows
    → swept_at ≤ deps.now
    → All (IsLinked board) board.threads
    → All
        (λ t. is_attempt (process_conversation deps t.id board).1 ≡ true)
        (find_stale_conversations swept_at
          (debounce_windows.sweep_after_ms / 1000)
          board.messages
          board.threads)
unfolding find_stale_conversations process_conversation
find_stale_conversations-is_attempt deps swept_at board w late linked =
    All-map
      (λ t h. rw h.1.1 (
        owed-is_attempt deps swept_at board (record { conversation = t; guest = h.1.0 }) w late
          h.0))
      _
      (All-both _ (IsLinked board) _ (select_where-All _ board.threads)
        (All-select_where (IsLinked board) _ board.threads linked))
