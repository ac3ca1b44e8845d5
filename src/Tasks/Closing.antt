-- ===== src/Tasks/Closing.antt =====
-- DONE typed more than once (closeTaskByShortId): over every history at most one reply closes the
-- task, so exactly one close writes evidence and messages the guest.
use nistula_assistance.Prelude.{
  ℕ, suc, ◌+◌, ◌≤◌, ◌≡◌, refl, ◌⊎◌, inl, inr, Bool-cases, String, Option, List, [], ◌∷◌, ◌++◌, true,
  false, ◌&&◌, not, arith, codes_eq, codes_eq→eq, if◌then◌else◌, length, any, update_where,
  returning,
}
use nistula_assistance.Tasks.{Task, TaskTable, is_live}
use nistula_assistance.Tasks.Writes.{
  to_upper, close_guard, close, close_task_by_short_id, erase_guard, erase, erase_guest_tasks,
}
use nistula_assistance.Tasks.Insert.{Inserted, ok, err, has_short_id, insert_task}
use nistula_assistance.Tasks.History.{
  Write, cancel_by_key, take_over, re_anchor, append, close_by, rung, undelivered, morning,
  run_write, guard_of, change_of, Event, write, insert, erasure, table_of, run_event,
}
use nistula_assistance.Tasks.Frozen.{
  run_write-update, guard_of-is_live, IsFreshRow, insert_task-IsFreshRow,
}
use nistula_assistance.Tasks.Statuses.{change_of-IsSameTask}

-- How many rows carry an id, and how many of those are closed.
unfoldable pub bearers : List ℕ → TaskTable → ℕ
bearers id [] = 0
bearers id (t ∷ rows) = let rest = bearers id rows in if has_short_id id t then suc rest else rest

unfoldable pub closed_bearers : List ℕ → TaskTable → ℕ
closed_bearers id [] = 0
closed_bearers id (t ∷ rows) =
    let rest = closed_bearers id rows in
    if has_short_id id t && not (is_live t.status) then suc rest else rest

-- How many rows the event returns to a DONE with this id: the replies that act.
unfoldable pub wins : List ℕ → Event → TaskTable → ℕ
unfolding close_task_by_short_id
wins id (write (close_by typed by now)) rows =
    if codes_eq (to_upper typed) id then length (close_task_by_short_id typed by now rows).1 else 0
wins id e rows = 0

unfoldable pub total_wins : List ℕ → List Event → TaskTable → ℕ
unfolding wins
total_wins id [] rows = 0
total_wins id (e ∷ es) rows = wins id e rows + total_wins id es (run_event e rows)

bearers-update :
    (id : List ℕ) (w : Write) (rows : TaskTable)
    → bearers id (update_where (guard_of w) (change_of w) rows) ≡ bearers id rows
unfolding bearers update_where
bearers-update id w [] = refl
bearers-update id w (t ∷ rows) =
    ground (arith, bearers-update id w rows, (change_of-IsSameTask w t).same_short_id)

closed_bearers-update :
    (id : List ℕ) (w : Write) (rows : TaskTable)
    → closed_bearers id rows ≤ closed_bearers id (update_where (guard_of w) (change_of w) rows)
unfolding closed_bearers update_where
closed_bearers-update id w [] = omega arith
closed_bearers-update id w (t ∷ rows) = ground (
  arith,
  closed_bearers-update id w rows,
  guard_of-is_live w t,
  (change_of-IsSameTask w t).same_short_id,
)

bearers-erase :
    (id : List ℕ) (guest : String) (conversation : Option String) (rows : TaskTable)
    → bearers id (update_where (erase_guard guest conversation) erase rows) ≡ bearers id rows
unfolding bearers update_where
bearers-erase id guest conversation [] = refl
bearers-erase id guest conversation (t ∷ rows) =
    ground (arith, bearers-erase id guest conversation rows)

closed_bearers-erase :
    (id : List ℕ) (guest : String) (conversation : Option String) (rows : TaskTable)
    → closed_bearers id (update_where (erase_guard guest conversation) erase rows)
      ≡ closed_bearers id rows
unfolding closed_bearers update_where
closed_bearers-erase id guest conversation [] = refl
closed_bearers-erase id guest conversation (t ∷ rows) =
    ground (arith, closed_bearers-erase id guest conversation rows)

closed_bearers-close :
    (typed : List ℕ) (by : String) (now : ℕ) (rows : TaskTable)
    → length (returning (close_guard typed) (close by now) rows)
        + closed_bearers (to_upper typed) rows
      ≤ closed_bearers (to_upper typed) (update_where (close_guard typed) (close by now) rows)
unfolding closed_bearers update_where returning
closed_bearers-close typed by now [] = omega arith
closed_bearers-close typed by now (t ∷ rows) =
    ground (arith, closed_bearers-close typed by now rows)

closed_bearers-le : (id : List ℕ) (rows : TaskTable) → closed_bearers id rows ≤ bearers id rows
unfolding closed_bearers bearers
closed_bearers-le id [] = omega arith
closed_bearers-le id (t ∷ rows) = ground (arith, closed_bearers-le id rows)

bearers-append :
    (id : List ℕ) (rows : TaskTable) (t : Task)
    → bearers id (rows ++ t ∷ []) ≡ bearers id rows + (if has_short_id id t then 1 else 0)
unfolding bearers
bearers-append id [] t = ground arith
bearers-append id (u ∷ rows) t = ground (arith, bearers-append id rows t)

closed_bearers-append :
    (id : List ℕ) (rows : TaskTable) (t : Task)
    → closed_bearers id rows ≤ closed_bearers id (rows ++ t ∷ [])
unfolding closed_bearers
closed_bearers-append id [] t = omega arith
closed_bearers-append id (u ∷ rows) t = ground (arith, closed_bearers-append id rows t)

bearers_free :
    (id : List ℕ) (rows : TaskTable) → any (has_short_id id) rows ≡ false → bearers id rows ≡ 0
unfolding bearers
bearers_free id [] h = refl
bearers_free id (t ∷ rows) h = ground (arith, bearers_free id rows)

-- One event keeps the id unique, and its wins become closed rows.
abbrev Accounts : List ℕ → ℕ → TaskTable → TaskTable → Type 0
Accounts id won rows rows' =
    (bearers id rows' ≤ 1) × (won + closed_bearers id rows ≤ closed_bearers id rows')

Accounts-table_of :
    (id : List ℕ) (r : Inserted) (rows : TaskTable)
    → ((rows' : TaskTable) (row : Task) → r ≡ ok rows' row → IsFreshRow rows rows' row)
    → bearers id rows ≤ 1
    → Accounts id 0 rows (table_of r rows)
Accounts-table_of id (err e) rows fresh h = (h, omega arith)
Accounts-table_of id (ok rows' row) rows fresh h =
    let f = fresh rows' row refl in
    rw (f.added)
      (fits (Bool-cases (has_short_id id row)), omega (arith, closed_bearers-append id rows row))
  where
    fits :
        (has_short_id id row ≡ true) ⊎ (has_short_id id row ≡ false)
        → bearers id (rows ++ row ∷ []) ≤ 1
    fits (inl same) = ground (
      arith,
      bearers-append id rows row,
      bearers_free id rows
          (rw (codes_eq→eq row.short_id id same) at (fresh rows' row refl).short_id_free),
    )
    fits (inr other) = ground (arith, bearers-append id rows row)

Accounts-quiet :
    (id : List ℕ) (w : Write) (rows : TaskTable)
    → bearers id rows ≤ 1
    → Accounts id 0 rows (run_write w rows).0
Accounts-quiet id w rows h =
    rw (run_write-update w rows)
      (omega (arith, bearers-update id w rows), omega (arith, closed_bearers-update id w rows))

Accounts-close :
    (id typed : List ℕ) (by : String) (now : ℕ) (rows : TaskTable)
    → bearers id rows ≤ 1
    → Accounts id
        (wins id (write (close_by typed by now)) rows)
        rows
        (run_write (close_by typed by now) rows).0
unfolding wins
Accounts-close id typed by now rows h = elim (Bool-cases (codes_eq (to_upper typed) id)) [
  | inl same ↦
      rw (same, run_write-update (close_by typed by now) rows)
        (
          omega (arith, bearers-update id (close_by typed by now) rows),
          rw (← codes_eq→eq (to_upper typed) id same) (closed_bearers-close typed by now rows),
        )
  | inr other ↦ rw (other) (Accounts-quiet id (close_by typed by now) rows h)
]

run_event-Accounts :
    (id : List ℕ) (e : Event) (rows : TaskTable)
    → bearers id rows ≤ 1
    → Accounts id (wins id e rows) rows (run_event e rows)
unfolding run_event wins erase_guest_tasks
run_event-Accounts id (write (cancel_by_key key)) rows h =
    Accounts-quiet id (cancel_by_key key) rows h
run_event-Accounts id (write (take_over c)) rows h = Accounts-quiet id (take_over c) rows h
run_event-Accounts id (write (re_anchor i d)) rows h = Accounts-quiet id (re_anchor i d) rows h
run_event-Accounts id (write (append i x)) rows h = Accounts-quiet id (append i x) rows h
run_event-Accounts id (write (close_by typed by now)) rows h = Accounts-close id typed by now rows h
run_event-Accounts id (write (rung i k st)) rows h = Accounts-quiet id (rung i k st) rows h
run_event-Accounts id (write (undelivered i)) rows h = Accounts-quiet id (undelivered i) rows h
run_event-Accounts id (write (morning p d)) rows h = Accounts-quiet id (morning p d) rows h
run_event-Accounts id (insert draw row_id input) rows h =
    Accounts-table_of id (insert_task draw row_id input rows) rows
      (insert_task-IsFreshRow draw row_id input rows) h
run_event-Accounts id (erasure guest conversation) rows h = (
  omega (arith, bearers-erase id guest conversation rows),
  omega (arith, closed_bearers-erase id guest conversation rows),
)

total_wins-le :
    (id : List ℕ) (es : List Event) (rows : TaskTable)
    → bearers id rows ≤ 1
    → total_wins id es rows + closed_bearers id rows ≤ 1
unfolding total_wins
total_wins-le id [] rows h = omega (arith, closed_bearers-le id rows)
total_wins-le id (e ∷ es) rows h =
    let (unique, count) = run_event-Accounts id e rows h in
    omega (arith, total_wins-le id es (run_event e rows) unique)

-- Where at most one task carries an id, over every history of writes and inserts at most one DONE
-- with that id, in whatever case it is typed, is given a row, and none is if the task is already
-- closed.
pub total_wins_le_one :
    (id : List ℕ) (es : List Event) (rows : TaskTable)
    → bearers id rows ≤ 1
    → (total_wins id es rows ≤ 1) × (closed_bearers id rows ≡ 1 → total_wins id es rows ≡ 0)
total_wins_le_one id es rows h =
    (omega (arith, total_wins-le id es rows h), λ c. omega (arith, total_wins-le id es rows h))
