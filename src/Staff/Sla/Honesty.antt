-- ===== src/Staff/Sla/Honesty.antt =====
-- When the nudger may say "I have nudged them": the evidence rows of a tick (runSlaNudger).
use mathlib.Core.List.{Memᴰ, append_assoc, append-nil}
use nistula_assistance.Prelude.{
  ℕ, ◌+◌, ◌≤◌, ◌≡◌, refl, sym, ◌∙◌, ap, ◌⊎◌, inl, inr, String, some, List, [], ◌∷◌, ◌++◌, Bool,
  true, false, arith, any, get_elem?, length, All, All-append, length-take-le, Option-cases,
  Bool-cases, ltb,
}
use nistula_assistance.Tasks.{Task, is_guest_origin}
use nistula_assistance.Tasks.Writes.{mark_rung_fired}
use nistula_assistance.Tasks.Reads.{find_overdue_tasks}
use nistula_assistance.Staff.Sla.{
  Rung, rungs, Sending, sent, refused, threw, Evidence, World, SlaDeps, recipients, card_of,
  send_all, nudge_one, write_nudge_evidence, next_status, settle, claim, claim_if_sent, nudge_task,
  count_if, nudge_all, run_sla_nudger,
}

abbrev pub is_sent : Sending → Bool
is_sent sent = true
is_sent _ = false

module _ (deps : SlaDeps) where
  abbrev pub accepts : Task → String → Bool
  accepts task phone = is_sent (deps.send task.id phone (card_of task))

  send_all-accepts :
      (task : Task) (phones : List String) (delivered : Bool)
      → send_all deps task phones delivered ≡ sent
      → (delivered ≡ true) ⊎ (any (accepts task) phones ≡ true)
  unfolding send_all
  send_all-accepts task [] delivered h = ground arith
  send_all-accepts task (phone ∷ phones) delivered h =
      ground (arith, send_all-accepts task phones true, send_all-accepts task phones delivered)

  -- What stands behind an evidence row.
  pub record IsSupported (batch : List Task) (e : Evidence) : Type 0 where
    pub task : Task
    pub listed : Memᴰ task batch
    pub rung : Rung
    pub its_turn : get_elem? (rungs task.kind) task.nudge_count ≡ some rung
    pub due : task.sla_deadline + rung.after_ms ≤ deps.now
    pub reached : any (accepts task) (recipients deps task rung) ≡ true
    pub about : task.conversation_id ≡ some e.conversation_id
    pub guest_asked : is_guest_origin task.origin ≡ true
    pub same_id : e.short_id ≡ task.short_id

  -- The evidence that a step adds, and what holds of it.
  abbrev pub Adds : (Evidence → Type 0) → World → World → Type 0
  Adds P w w' = (new : List Evidence) × (w'.evidence ≡ w.evidence ++ new) × All P new

  abbrev AboutTask : Task → Evidence → Type 0
  AboutTask task e =
      (task.conversation_id ≡ some e.conversation_id)
      × (is_guest_origin task.origin ≡ true)
      × (e.short_id ≡ task.short_id)

  Adds-refl : (P : Evidence → Type 0) (w w' : World) → w'.evidence ≡ w.evidence → Adds P w w'
  Adds-refl P w w' e = ([], e ∙ sym (append-nil _), tt)

  write_nudge_evidence-Adds :
      (task : Task) (w : World) → Adds (AboutTask task) w (write_nudge_evidence deps task w)
  unfolding write_nudge_evidence
  write_nudge_evidence-Adds task w = elim (Option-cases task.conversation_id) [
    | inl missing ↦ Adds-refl (AboutTask task) w (write_nudge_evidence deps task w) (ground arith)
    | inr (c, known) ↦ elim (Bool-cases (is_guest_origin task.origin)) [
      | inl asked ↦ elim (Bool-cases (deps.evidence_throws task.id)) [
        | inl fails ↦ Adds-refl (AboutTask task) w (write_nudge_evidence deps task w) (ground arith)
        | inr stores ↦ (
          record { conversation_id = c; short_id = task.short_id } ∷ [],
          ground arith,
          ((known, asked, refl), tt),
        )
      ]
      | inr ours ↦ Adds-refl (AboutTask task) w (write_nudge_evidence deps task w) (ground arith)
    ]
  ]

  settle-Adds :
      (task : Task) (w : World) (returned : List Task)
      → Adds (AboutTask task) w (settle deps task w returned).0
  settle-Adds task w [] = Adds-refl (AboutTask task) w w refl
  settle-Adds task w (_ ∷ _) = write_nudge_evidence-Adds task w

  claim-Adds : (task : Task) (w : World) → Adds (AboutTask task) w (claim deps task w).0
  unfolding claim
  claim-Adds task w = elim (Bool-cases (deps.update_throws task.id)) [
    | inl fails ↦ rw fails (Adds-refl (AboutTask task) w w refl)
    | inr runs ↦
        let (rows, returned) =
          mark_rung_fired task.id task.nudge_count (next_status task.nudge_count task.kind)
            w.tasks in
        rw runs (settle-Adds task (record w { tasks = rows }) returned)
  ]

  nudge_one-evidence :
      (task : Task) (rung : Rung) (w : World) → (nudge_one deps task rung w).0.evidence ≡ w.evidence
  unfolding nudge_one
  nudge_one-evidence task rung w = ground arith

  nudge_one-sent :
      (task : Task) (rung : Rung) (w : World)
      → (nudge_one deps task rung w).1 ≡ sent
      → any (accepts task) (recipients deps task rung) ≡ true
  unfolding nudge_one
  nudge_one-sent task rung w h =
      ground (arith, send_all-accepts task (recipients deps task rung) false)

  All-mono {ℓ} :
      {A : Type ℓ} (P Q : A → Type 0) (xs : List A) → ((x : A) → P x → Q x) → All P xs → All Q xs
  All-mono P Q [] f h = tt
  All-mono P Q (x ∷ xs) f (p, h) = (f x p, All-mono P Q xs f h)

  Adds-mono :
      (P Q : Evidence → Type 0) (w w' : World)
      → ((e : Evidence) → P e → Q e)
      → Adds P w w'
      → Adds Q w w'
  Adds-mono P Q w w' f (new, e, h) = (new, e, All-mono P Q new f h)

  Adds-trans :
      (P : Evidence → Type 0) (w w' w'' : World) → Adds P w w' → Adds P w' w'' → Adds P w w''
  Adds-trans P w w' w'' (new, e, h) (more, e', h') =
      (new ++ more, e' ∙ (rw e (append_assoc w.evidence new more)), All-append P new more h h')

  claim_if_sent-Adds :
      (task : Task) (batch : List Task) (rung : Rung) (w : World)
      → Memᴰ task batch
      → get_elem? (rungs task.kind) task.nudge_count ≡ some rung
      → task.sla_deadline + rung.after_ms ≤ deps.now
      → (r : World × Sending) → r.0.evidence ≡ w.evidence
      → (r.1 ≡ sent → any (accepts task) (recipients deps task rung) ≡ true)
      → Adds (IsSupported batch) w (claim_if_sent deps task r).0
  claim_if_sent-Adds task batch rung w m turn due (w', sent) same reached =
      let support : (e : Evidence) → AboutTask task e → IsSupported batch e = λ e a. record {
        task = task;
        listed = m;
        rung = rung;
        its_turn = turn;
        due = due;
        reached = reached refl;
        about = a.0;
        guest_asked = a.1;
        same_id = a.2;
      } in
      let (new, e, h) =
        Adds-mono (AboutTask task) (IsSupported batch) w' (claim deps task w').0 support
          (claim-Adds task w') in
      (new, e ∙ ap (λ v. v ++ new) same, h)
  claim_if_sent-Adds task batch rung w m turn due (w', refused) same reached =
      Adds-refl (IsSupported batch) w w' same
  claim_if_sent-Adds task batch rung w m turn due (w', threw) same reached =
      Adds-refl (IsSupported batch) w w' same

  -- A step on one task adds nothing but what that task supports.
  nudge_task-Adds :
      (task : Task) (batch : List Task) (w : World)
      → Memᴰ task batch
      → Adds (IsSupported batch) w (nudge_task deps task w).0
  unfolding nudge_task
  nudge_task-Adds task batch w m =
      elim (Option-cases (get_elem? (rungs task.kind) task.nudge_count)) [
        | inl spent ↦ Adds-refl (IsSupported batch) w (nudge_task deps task w).0 (ground arith)
        | inr (rung, turn) ↦ elim (Bool-cases (ltb deps.now (task.sla_deadline + rung.after_ms))) [
          | inl early ↦ Adds-refl (IsSupported batch) w (nudge_task deps task w).0 (ground arith)
          | inr due ↦
              rw (turn, nudge_task)
                (rw due (
                  claim_if_sent-Adds task batch rung w m turn (ground arith)
                    (nudge_one deps task rung w) (nudge_one-evidence task rung w)
                    (nudge_one-sent task rung w)))
        ]
      ]

  nudge_all-Adds :
      (batch tasks : List Task) (w : World) (n : ℕ)
      → ((t : Task) → Memᴰ t tasks → Memᴰ t batch)
      → Adds (IsSupported batch) w (nudge_all deps tasks w n).0
  unfolding nudge_all
  nudge_all-Adds batch [] w n sub = Adds-refl (IsSupported batch) w w refl
  nudge_all-Adds batch (t ∷ ts) w n sub =
      let (w', did) = nudge_task deps t w in
      Adds-trans (IsSupported batch) w w' (nudge_all deps ts w' (count_if did n)).0
        (nudge_task-Adds t batch w (sub t (Memᴰ.head refl)))
        (nudge_all-Adds batch ts w' (count_if did n) (λ u m. sub u (Memᴰ.tail m)))

  nudge_all-le :
      (tasks : List Task) (w : World) (n : ℕ) → (nudge_all deps tasks w n).1 ≤ length tasks + n
  unfolding nudge_all
  nudge_all-le [] w n = omega arith
  nudge_all-le (t ∷ ts) w n =
      let (w', did) = nudge_task deps t w in ground (arith, nudge_all-le ts w' (count_if did n))

-- Every evidence row that a tick writes stands on a task of the tick's batch that a guest raised on
-- that conversation, whose next rung was due by its deadline and whose card was accepted for at
-- least one recipient of that rung in this tick; the earlier evidence stays.
pub run_sla_nudger-IsSupported :
    (deps : SlaDeps) (w : World)
    → Adds deps
        (IsSupported deps (find_overdue_tasks deps.now 20 w.tasks))
        w
        (run_sla_nudger deps w).0
unfolding run_sla_nudger
run_sla_nudger-IsSupported deps w =
    nudge_all-Adds deps (find_overdue_tasks deps.now 20 w.tasks)
      (find_overdue_tasks deps.now 20 w.tasks) w 0 (λ t m. m)

find_overdue_tasks-length : (now : ℕ) (w : World) → length (find_overdue_tasks now 20 w.tasks) ≤ 20
unfolding find_overdue_tasks
find_overdue_tasks-length now w = length-take-le 20 _

-- A tick considers at most twenty tasks and counts no more nudges than it considered.
pub run_sla_nudger_bounds :
    (deps : SlaDeps) (w : World)
    → ((run_sla_nudger deps w).1.considered ≤ 20)
      × ((run_sla_nudger deps w).1.nudged ≤ (run_sla_nudger deps w).1.considered)
unfolding run_sla_nudger
run_sla_nudger_bounds deps w =
    let batch = find_overdue_tasks deps.now 20 w.tasks in
    (find_overdue_tasks-length deps.now w, omega (arith, nudge_all-le deps batch w 0))
