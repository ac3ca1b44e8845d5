-- ===== src/Staff/Commands/Repeated.antt =====
-- A DONE that comes again, from the same phone or another, closes nothing and tells the guest
-- nothing (handleStaffCommand).
use nistula_assistance.Prelude.{
  ℕ, ◌≡◌, inl, inr, refl, ap, ◌∙◌, sym, Bool-cases, String, Option, some, none, List, [], false,
  ◌&&◌, arith, codes_eq, update_where, returning, returning-update_where,
  update_where_of_returning_nil,
}
use nistula_assistance.Tasks.{Task, TaskTable, is_live}
use nistula_assistance.Tasks.Writes.{to_upper, close_guard, close, close_task_by_short_id}
use nistula_assistance.Staff.Commands.{
  Desk, StaffCommandDeps, after_close, unclosable, reply_to_unclosable, tell_guest, tell_in,
  close_line_to, told_in, say, handle_done, holds,
}
use nistula_assistance.Turn.Worker.{TurnContext}
use nistula_assistance.Tasks.Reads.{find_task_by_short_id}

close_line_to-tasks :
    (deps : StaffCommandDeps) (t : Task) (ctx : Option TurnContext) (desk : Desk)
    → (close_line_to deps t.kind ctx desk).tasks ≡ desk.tasks
close_line_to-tasks deps t none desk = refl
close_line_to-tasks deps t (some ctx) desk = elim (Bool-cases (holds ctx.conversation deps.now)) [
  | inl held ↦ rw held refl
  | inr free ↦ rw free refl
]

tell_in-tasks :
    (deps : StaffCommandDeps) (t : Task) (o : Option String) (desk : Desk)
    → (tell_in deps t.kind o desk).tasks ≡ desk.tasks
tell_in-tasks deps t none desk = refl
tell_in-tasks deps t (some conversation) desk = close_line_to-tasks deps t _ desk

after_close-tasks :
    (deps : StaffCommandDeps) (phone : String) (id : List ℕ) (rows : TaskTable) (o : Option Task)
    (desk : Desk)
    → (after_close deps phone id rows o desk).tasks ≡ rows
unfolding reply_to_unclosable tell_guest
after_close-tasks deps phone id rows none desk = refl
after_close-tasks deps phone id rows (some t) desk = tell_in-tasks deps t (told_in t) _

-- The tasks after a DONE are those of the guarded close.
handle_done-tasks :
    (deps : StaffCommandDeps) (phone : String) (id : List ℕ) (desk : Desk)
    → (handle_done deps phone id desk).tasks
      ≡ update_where (close_guard id) (close phone deps.now) desk.tasks
unfolding handle_done close_task_by_short_id
handle_done-tasks deps phone id desk = after_close-tasks deps phone id _ _ desk

closed-close_guard :
    (id : List ℕ) (phone : String) (now : ℕ) (t : Task) → close_guard id (close phone now t) ≡ false
closed-close_guard id phone now t = ground arith

close_guard-upper : (a b : List ℕ) → to_upper a ≡ to_upper b → close_guard a ≡ close_guard b
close_guard-upper a b e = ap (λ s t. codes_eq t.short_id s && is_live t.status) e

-- A DONE that closes no row leaves the desk but for the answer to the phone that sent it.
handle_done-none :
    (deps : StaffCommandDeps) (phone : String) (id : List ℕ) (desk : Desk)
    → returning (close_guard id) (close phone deps.now) desk.tasks ≡ []
    → handle_done deps phone id desk
      ≡ say (unclosable phone id (find_task_by_short_id id desk.tasks)) desk
unfolding handle_done close_task_by_short_id reply_to_unclosable
handle_done-none deps phone id desk h =
    let same : update_where (close_guard id) (close phone deps.now) desk.tasks ≡ desk.tasks =
      update_where_of_returning_nil (close_guard id) (close phone deps.now) desk.tasks h in
    rw (h, same) refl

-- After a DONE for an id, a second one for it, typed in whatever case by whatever phone at whatever
-- time, only answers that phone, with what it then finds under the id: no task, no evidence row, no
-- close line to the guest and nothing else of the desk changes.
pub handle_done-repeated :
    (first second : StaffCommandDeps) (phone other : String) (id again : List ℕ) (desk : Desk)
    → to_upper id ≡ to_upper again
    → let after = handle_done first phone id desk in
      handle_done second other again after
      ≡ say (unclosable other again (find_task_by_short_id again after.tasks)) after
handle_done-repeated first second phone other id again desk e =
    let after = handle_done first phone id desk in
    let guards : close_guard again ≡ close_guard id = sym (close_guard-upper id again e) in
    let nothing : returning (close_guard again) (close other second.now) after.tasks ≡ [] =
      ap (λ g. returning g (close other second.now) after.tasks) guards
      ∙ (ap (returning (close_guard id) (close other second.now))
            (handle_done-tasks first phone id desk)
          ∙ returning-update_where (close_guard id) (close phone first.now) (close other second.now)
              desk.tasks (closed-close_guard id phone first.now)) in
    handle_done-none second other again after nothing
