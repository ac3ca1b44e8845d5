-- ===== src/Lifecycle/Sender/Tick.antt =====
-- What a tick of the sender may hand to Graph, and how its outcomes add up (runSender, sendOne).
use mathlib.Core.List.{append_assoc, append-nil}
use nistula_assistance.Lifecycle.SendGuards.Sendable.{IsSendable, blocked_by-free}
use nistula_assistance.Prelude.{
  ℕ, suc, ◌+◌, ◌≤◌, ◌≡◌, ◌≢◌, ◌⊎◌, inl, inr, refl, sym, ◌∙◌, String, some, List, [], ◌∷◌, ◌++◌,
  Bool, true, false, arith, Option-cases, Bool-cases, returning, length, length-take-le, All,
  All-append,
}
use nistula_assistance.Lifecycle.{ScheduledRow, Guest, Conversation}
use nistula_assistance.Lifecycle.Writes.{ScheduledTable, pending_guard, claim_row, claim}
use nistula_assistance.Lifecycle.SendGuards.{blocked_by, find_guest}
use nistula_assistance.Lifecycle.SendGuards.Verbs.{Blocked-cases}
use nistula_assistance.Lifecycle.Sender.{
  Planned, planned, shut, invalid, Dispatched, accepted, unsent, Outcome, was_sent, skipped,
  deferred, failed, World, SenderDeps, Step, find_conversation, human_holds, after_dispatch,
  after_claim, claim_and_send, after_plan, to_conversation, to_guest, send_one, caught, due_rows,
  SenderResult, no_result, tally, send_all, run_sender, with_rows,
}

module _ (deps : SenderDeps) (row : ScheduledRow) where
  abbrev pub world_of : Step → World
  world_of s = (caught deps row s).0

  -- The claim finds the row pending, after whatever the other workers did.
  abbrev pub ClaimWins : World → Type 0
  ClaimWins w =
      returning (pending_guard row.id) (claim_row (deps.stamp row.id))
        (deps.others row.id w.db.scheduled)
      ≢ []

  -- Whether a step hands a message to Graph, and what holds if it does.
  abbrev pub Hands : Type 0 → World → Step → Type 0
  Hands P w s =
      ((world_of s).dispatched ≡ w.dispatched)
      ⊎ (((world_of s).dispatched ≡ w.dispatched ++ deps.message_id row.id ∷ []) × P)

  after_dispatch-dispatched :
      (t : Bool) (w : World) (d : Dispatched)
      → (world_of (after_dispatch deps row t w d)).dispatched ≡ w.dispatched
  unfolding after_dispatch
  after_dispatch-dispatched true w accepted = refl
  after_dispatch-dispatched false w accepted = refl
  after_dispatch-dispatched t w (unsent true e) = refl
  after_dispatch-dispatched t w (unsent false e) = refl

  after_claim-Hands :
      (t : Bool) (c : Conversation) (w : World) (claimed : List ScheduledRow)
      → Hands (claimed ≢ []) w (after_claim deps row t c w claimed)
  after_claim-Hands t c w [] = inl refl
  after_claim-Hands t c w (_ ∷ _) =
      inr (after_dispatch-dispatched t _ _, λ e. absurd (ground arith))

  claim_and_send-Hands :
      (t : Bool) (c : Conversation) (w : World)
      → Hands (ClaimWins w) w (claim_and_send deps row t c w)
  unfolding claim_and_send claim
  claim_and_send-Hands t c w = elim (Bool-cases (deps.transaction_throws row.id)) [
    | inl throws ↦ rw throws (inl refl)
    | inr commits ↦
        let (rows, claimed) =
          claim (deps.stamp row.id) row.id (deps.others row.id w.db.scheduled) in
        rw commits (after_claim-Hands t c (with_rows w rows) claimed)
  ]

  after_plan-Hands :
      (c : Conversation) (w : World) (p : Planned)
      → Hands (ClaimWins w) w (after_plan deps row c w p)
  after_plan-Hands c w (planned t) = claim_and_send-Hands t c w
  after_plan-Hands c w shut = inl refl
  after_plan-Hands c w (invalid e) = inl refl

  -- Who the message goes to.
  pub record IsAddressed (w : World) : Type 0 where
    pub guest : Guest
    pub known : find_guest row.guest_id w.db.guests ≡ some guest
    pub conversation : Conversation
    pub thread : find_conversation guest.id w.db.conversations ≡ some conversation
    pub no_human : human_holds conversation deps.now ≡ false

  abbrev pub IsAuthorised : World → Type 0
  IsAuthorised w =
      IsSendable w.db deps.gates (deps.guard_now row.id) row × IsAddressed w × ClaimWins w

  Hands-mono : (P Q : Type 0) (w : World) (s : Step) → (P → Q) → Hands P w s → Hands Q w s
  Hands-mono P Q w s f (inl e) = inl e
  Hands-mono P Q w s f (inr (e, p)) = inr (e, f p)

  to_conversation-Hands :
      (g : Guest) (w : World)
      → find_guest row.guest_id w.db.guests ≡ some g
      → Hands
          (IsAddressed w × ClaimWins w)
          w
          (to_conversation deps row g w (find_conversation g.id w.db.conversations))
  to_conversation-Hands g w known =
      elim (Option-cases (find_conversation g.id w.db.conversations)) [
        | inl missing ↦ rw missing (inl refl)
        | inr (c, thread) ↦ elim (Bool-cases (human_holds c deps.now)) [
          | inl held ↦ rw (thread) (rw held (inl refl))
          | inr alone ↦
              let addressed : IsAddressed w = record {
                guest = g;
                known = known;
                conversation = c;
                thread = thread;
                no_human = alone;
              } in
              rw (thread) (
                rw alone (
                  Hands-mono (ClaimWins w) (IsAddressed w × ClaimWins w) w
                    (after_plan deps row c w (deps.plan row g c)) (λ p. (addressed, p))
                    (after_plan-Hands c w (deps.plan row g c))))
        ]
      ]

  to_guest-Hands :
      (w : World)
      → Hands
          (IsAddressed w × ClaimWins w)
          w
          (to_guest deps row w (find_guest row.guest_id w.db.guests))
  to_guest-Hands w = elim (Option-cases (find_guest row.guest_id w.db.guests)) [
    | inl missing ↦ rw missing (inl refl)
    | inr (g, known) ↦ rw known (to_conversation-Hands g w known)
  ]

  send_one-Hands : (w : World) → Hands (IsAuthorised w) w (send_one deps row w)
  unfolding send_one
  send_one-Hands w = elim (Blocked-cases (blocked_by w.db deps.gates (deps.guard_now row.id) row)) [
    | inl e ↦ rw e (
        Hands-mono (IsAddressed w × ClaimWins w) (IsAuthorised w) w
          (to_guest deps row w (find_guest row.guest_id w.db.guests))
          (λ (a, c). (blocked_by-free w.db deps.gates (deps.guard_now row.id) row e, a, c))
          (to_guest-Hands w))
    | inr (inl (r, e)) ↦ rw e (inl refl)
    | inr (inr (r, e)) ↦ rw e (inl refl)
  ]

module _ (deps : SenderDeps) where
  -- The world once some rows have had their turns.
  unfoldable pub world_after : List ScheduledRow → World → World
  unfolding send_one
  world_after [] w = w
  world_after (row ∷ rows) w = world_after rows (caught deps row (send_one deps row w)).0

  send_all-world_after :
      (rows : List ScheduledRow) (w : World) (r : SenderResult)
      → (send_all deps rows w r).0 ≡ world_after rows w
  unfolding send_all world_after
  send_all-world_after [] w r = refl
  send_all-world_after (row ∷ rows) w r = send_all-world_after rows _ _

  world_after_last :
      (rows : List ScheduledRow) (row : ScheduledRow) (w : World)
      → world_after (rows ++ row ∷ []) w
        ≡ (caught deps row (send_one deps row (world_after rows w))).0
  unfolding world_after
  world_after_last [] row w = refl
  world_after_last (x ∷ rows) row w = world_after_last rows row _

  -- What stands behind a message that a tick on a batch handed to Graph from a world.
  pub record IsAccounted (batch : List ScheduledRow) (w : World) (message : String) : Type 0 where
    pub row : ScheduledRow
    pub earlier : List ScheduledRow
    pub later : List ScheduledRow
    pub its_turn : batch ≡ earlier ++ row ∷ later
    pub same_message : message ≡ deps.message_id row.id
    pub authorised : IsAuthorised deps row (world_after earlier w)

  abbrev pub HandsOver : (String → Type 0) → World → World → Type 0
  HandsOver P w w' = (new : List String) × (w'.dispatched ≡ w.dispatched ++ new) × All P new

  step-Hands :
      (batch earlier later : List ScheduledRow) (row : ScheduledRow) (w : World)
      → batch ≡ earlier ++ row ∷ later
      → Hands deps row
          (IsAuthorised deps row (world_after earlier w))
          (world_after earlier w)
          (send_one deps row (world_after earlier w))
      → HandsOver
          (IsAccounted batch w)
          (world_after earlier w)
          (world_after (earlier ++ row ∷ []) w)
  step-Hands batch earlier later row w turn (inl e) =
      rw (world_after_last earlier row w) ([], e ∙ sym (append-nil _), tt)
  step-Hands batch earlier later row w turn (inr (e, a)) =
      let accounted : IsAccounted batch w (deps.message_id row.id) = record {
        row = row;
        earlier = earlier;
        later = later;
        its_turn = turn;
        same_message = refl;
        authorised = a;
      } in
      rw (world_after_last earlier row w) (deps.message_id row.id ∷ [], e, (accounted, tt))

  HandsOver-trans :
      (P : String → Type 0) (w w' w'' : World)
      → HandsOver P w w'
      → HandsOver P w' w''
      → HandsOver P w w''
  HandsOver-trans P w w' w'' (new, e, h) (more, e', h') =
      (new ++ more, e' ∙ rw e (append_assoc w.dispatched new more), All-append P new more h h')

  world_after-HandsOver :
      (batch earlier rows : List ScheduledRow) (w : World)
      → batch ≡ earlier ++ rows
      → HandsOver (IsAccounted batch w) (world_after earlier w) (world_after batch w)
  world_after-HandsOver batch earlier [] w e =
      let same : batch ≡ earlier = e ∙ append-nil earlier in rw same ([], sym (append-nil _), tt)
  world_after-HandsOver batch earlier (row ∷ rows) w e =
      HandsOver-trans (IsAccounted batch w) (world_after earlier w)
        (world_after (earlier ++ row ∷ []) w) (world_after batch w)
        (step-Hands batch earlier rows row w e (send_one-Hands deps row (world_after earlier w)))
        (world_after-HandsOver batch (earlier ++ row ∷ []) rows w
          (e ∙ sym (append_assoc earlier (row ∷ []) rows)))

-- Every message that a tick hands to Graph is that of one of its due rows, which nothing stopped in
-- the world that the turns of the rows before it left: it was sendable, its guest and the guest's
-- thread were there with no human holding it, and the claim found the row still pending after
-- whatever the other workers did.
pub run_sender-IsAccounted :
    (deps : SenderDeps) (w : World)
    → HandsOver deps
        (IsAccounted deps (due_rows deps.now deps.batch_size w.db.scheduled) w)
        w
        (run_sender deps w).0
unfolding run_sender world_after
run_sender-IsAccounted deps w = elim (Bool-cases deps.enabled) [
  | inl on ↦
      let batch = due_rows deps.now deps.batch_size w.db.scheduled in
      simp (on, send_all-world_after) (world_after-HandsOver deps batch [] batch w refl)
  | inr off ↦ simp (off) ([], sym (append-nil _), tt)
]

abbrev pub IsBalanced : SenderResult → Type 0
IsBalanced r = r.attempted ≡ r.sent + r.skips + r.defers + r.fails

tally-IsBalanced : (o : Outcome) (r : SenderResult) → IsBalanced r → IsBalanced (tally o r)
tally-IsBalanced was_sent r h = omega arith
tally-IsBalanced skipped r h = omega arith
tally-IsBalanced deferred r h = omega arith
tally-IsBalanced failed r h = omega arith

tally-attempted : (o : Outcome) (r : SenderResult) → (tally o r).attempted ≡ suc r.attempted
tally-attempted was_sent r = refl
tally-attempted _ r = refl

send_all_totals :
    (deps : SenderDeps) (rows : List ScheduledRow) (w : World) (r : SenderResult)
    → IsBalanced r
    → IsBalanced (send_all deps rows w r).1
      × ((send_all deps rows w r).1.attempted ≡ r.attempted + length rows)
unfolding send_all
send_all_totals deps [] w r h = (h, omega arith)
send_all_totals deps (row ∷ rows) w r h =
    let (w', o) = caught deps row (send_one deps row w) in
    let (balanced, total) = send_all_totals deps rows w' (tally o r) (tally-IsBalanced o r h) in
    (balanced, omega (arith, total, tally-attempted o r))

due_rows-length : (now limit : ℕ) (rows : ScheduledTable) → length (due_rows now limit rows) ≤ limit
unfolding due_rows
due_rows-length now limit rows = length-take-le limit _

-- The outcomes of a tick add up to its attempts, which are the due rows up to the batch size; a
-- disabled sender attempts nothing and changes nothing.
pub run_sender_totals :
    (deps : SenderDeps) (w : World)
    → let (w', r) = run_sender deps w in
      IsBalanced r
      × (r.attempted ≤ deps.batch_size)
      × (deps.enabled ≡ true
          → r.attempted ≡ length (due_rows deps.now deps.batch_size w.db.scheduled))
      × (deps.enabled ≡ false → (w' ≡ w) × (r ≡ no_result))
unfolding run_sender
run_sender_totals deps w = elim (Bool-cases deps.enabled) [
  | inl on ↦
      let batch = due_rows deps.now deps.batch_size w.db.scheduled in
      let (balanced, total) = send_all_totals deps batch w no_result refl in
      rw on (
        balanced,
        omega (arith, total, due_rows-length deps.now deps.batch_size w.db.scheduled),
        (λ _. omega (arith, total)),
        (λ e. absurd (ground arith)),
      )
  | inr off ↦ rw off (refl, omega arith, (λ e. absurd (ground arith)), (λ _. (refl, refl)))
]
