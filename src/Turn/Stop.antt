-- ===== src/Turn/Stop.antt =====
-- A STOP in the batch of a turn: the opt-out is committed with the claim, whatever else the turn does.
use mathlib.Core.Path.{subst}
use nistula_assistance.Prelude.{
  ℕ, inl, inr, ◌≡◌, String, Option, some, none, true, false, All, Bool-cases,
}
use nistula_assistance.Drafts.{DraftTable}
use nistula_assistance.Lifecycle.{ConversationStatus}
use nistula_assistance.Lifecycle.Consent.{marketing_guard, marketing_kinds}
use nistula_assistance.Lifecycle.Consent.Stop.{
  HasStopped, opt_out-HasStopped, cancel_pending_marketing_rows-All,
}
use nistula_assistance.Turn.Cursor.{ThreadTable, claim_conversation_turn}
use nistula_assistance.Turn.Settle.{
  Board, WorkerDeps, Turn, Reply, Committed, won, lost, thrown, apply_stop, claim_of, with_draft,
  write_reply, body_if, may_send, commit, after_claim, run_transaction,
}

-- The guest is out of marketing and nothing of marketing waits for the guest.
abbrev pub IsStopped : String → Board → Type 0
IsStopped guest b =
    HasStopped guest b.guests
    × All (λ r. marketing_guard guest marketing_kinds r ≡ false) b.scheduled

abbrev Ends : (Board → Type 0) → Option (Board × Reply) → Type 0
Ends P none = Unit
Ends P (some (after, reply)) = P after

abbrev EndsWell : (Board → Type 0) → Committed → Type 0
EndsWell P lost = Unit
EndsWell P thrown = Unit
EndsWell P (won after reply status) = P after

apply_stop-IsStopped :
    (stamp : ℕ) (guest : String) (b : Board) → IsStopped guest (apply_stop stamp true guest b)
unfolding apply_stop
apply_stop-IsStopped stamp guest b =
    (opt_out-HasStopped guest b.guests, cancel_pending_marketing_rows-All stamp guest b.scheduled)

module _ (deps : WorkerDeps) (turn : Turn) (guest : String) where
  with_draft-IsStopped :
      (b : Board) (drafts : Option DraftTable)
      → IsStopped guest b
      → Ends (IsStopped guest) (with_draft deps turn b drafts)
  with_draft-IsStopped b none h = tt
  with_draft-IsStopped b (some drafts) h = h

  write_reply-IsStopped :
      (b : Board) (body : Option String)
      → IsStopped guest b
      → Ends (IsStopped guest) (write_reply deps turn b body)
  write_reply-IsStopped b none h = h
  write_reply-IsStopped b (some body) h = elim (Bool-cases turn.will_draft) [
    | inl drafts ↦ simp (drafts) (with_draft-IsStopped b _ h)
    | inr sends ↦ simp (sends) h
  ]

  commit-IsStopped :
      (status : ConversationStatus) (end : Option (Board × Reply))
      → Ends (IsStopped guest) end
      → EndsWell (IsStopped guest) (commit deps turn status end)
  commit-IsStopped status none h = tt
  commit-IsStopped status (some (after, reply)) h = h

after_claim-IsStopped :
    (deps : WorkerDeps) (turn : Turn) (b : Board) (threads : ThreadTable)
    (status : Option ConversationStatus)
    → turn.directive.flags.contains_stop ≡ true
    → EndsWell (IsStopped turn.guest_id) (after_claim deps turn b threads status)
after_claim-IsStopped deps turn b threads none h = tt
after_claim-IsStopped deps turn b threads (some status) h =
    let flipped = record b { threads = threads } in
    let out : IsStopped turn.guest_id
        (apply_stop deps.stamp turn.directive.flags.contains_stop turn.guest_id flipped) =
      rw h (apply_stop-IsStopped deps.stamp turn.guest_id flipped) in
    commit-IsStopped deps turn turn.guest_id status _ (
      write_reply-IsStopped deps turn turn.guest_id _
        (body_if deps turn (may_send deps turn status)) out)

-- A turn whose batch says STOP opts the guest out and withdraws every pending marketing message of
-- the guest in the transaction of its claim, under whatever directive, plan, body and window: where
-- the claim is won and committed, both have happened.
pub run_transaction-IsStopped :
    (deps : WorkerDeps) (turn : Turn) (board after : Board) (reply : Reply)
    (status : ConversationStatus)
    → turn.directive.flags.contains_stop ≡ true
    → run_transaction deps turn board ≡ won after reply status
    → IsStopped turn.guest_id after
unfolding run_transaction
run_transaction-IsStopped deps turn board after reply status h e =
    subst (EndsWell (IsStopped turn.guest_id)) e (
      after_claim-IsStopped deps turn board
        (claim_conversation_turn (claim_of deps turn) board.threads).0
        (claim_conversation_turn (claim_of deps turn) board.threads).1 h)
