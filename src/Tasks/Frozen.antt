-- ===== src/Tasks/Frozen.antt =====
-- What no history of writes can undo: a closed task stays as it was closed.
use nistula_assistance.Prelude.{
  ℕ, zero, suc, ◌+◌, ◌≡◌, refl, sym, ◌∙◌, inl, inr, Bool, Bool-cases, String, Option, some, List,
  [], ◌∷◌, ◌++◌, true, false, arith, get_elem?, any, update_where, get_elem?-update_where,
  get_elem?-append, if◌then◌else◌,
}
use mathlib.Core.Bool.{false≢true}
use nistula_assistance.Tasks.{Task, TaskTable, is_live}
use nistula_assistance.Tasks.Writes.{erase_guard, erase, erase_guest_tasks}
use nistula_assistance.Tasks.Insert.{
  NewTask, Inserted, ok, err, new_row, has_short_id, same_key, insert_row, insert_attempts,
  insert_task,
}
use nistula_assistance.Tasks.History.{
  Write, cancel_by_key, take_over, re_anchor, append, close_by, rung, undelivered, morning,
  run_write, guard_of, change_of, Event, write, insert, erasure, table_of, run_event, run_events,
}

-- A write is the guarded update that its guard and its change make.
pub run_write-update :
    (w : Write) (rows : TaskTable)
    → (run_write w rows).0 ≡ update_where (guard_of w) (change_of w) rows
unfolding run_write
run_write-update (cancel_by_key key) rows = refl
run_write-update (take_over conversation) rows = refl
run_write-update (re_anchor id deadline) rows = refl
run_write-update (append id extra) rows = refl
run_write-update (close_by short_id by now) rows = refl
run_write-update (rung id expected st) rows = refl
run_write-update (undelivered id) rows = refl
run_write-update (morning phone deadline) rows = refl

-- Every write is guarded on a live status.
pub guard_of-is_live : (w : Write) (t : Task) → guard_of w t ≡ true → is_live t.status ≡ true
guard_of-is_live (cancel_by_key key) t h = ground arith
guard_of-is_live (take_over conversation) t h = ground arith
guard_of-is_live (re_anchor id deadline) t h = ground arith
guard_of-is_live (append id extra) t h = ground arith
guard_of-is_live (close_by short_id by now) t h = ground arith
guard_of-is_live (rung id expected st) t h = ground arith
guard_of-is_live (undelivered id) t h = ground arith
guard_of-is_live (morning phone deadline) t h = ground arith

-- What a successful insert has done.
pub record IsFreshRow (rows rows' : TaskTable) (row : Task) : Type 0 where
  pub added : rows' ≡ rows ++ row ∷ []
  pub short_id_free : any (has_short_id row.short_id) rows ≡ false
  pub key_free : any (same_key row.request_key) rows ≡ false
  pub opened_live : is_live row.status ≡ true

insert_row-IsFreshRow :
    (row : Task) (rows rows' : TaskTable) (row' : Task)
    → is_live row.status ≡ true
    → insert_row row rows ≡ ok rows' row'
    → IsFreshRow rows rows' row'
unfolding insert_row
insert_row-IsFreshRow row rows rows' row' l h = ground arith

module _ (draw : ℕ → List ℕ) (row_id : String) (input : NewTask) (rows : TaskTable) where
  insert_attempts-IsFreshRow :
      (left attempt : ℕ) (rows' : TaskTable) (row : Task)
      → insert_attempts draw row_id input rows left attempt ≡ ok rows' row
      → IsFreshRow rows rows' row
  unfolding insert_attempts
  insert_attempts-IsFreshRow zero attempt rows' row h = ground arith
  insert_attempts-IsFreshRow (suc left) attempt rows' row h = ground (
    arith,
    insert_attempts-IsFreshRow left (attempt + 1) rows' row,
    insert_row-IsFreshRow (new_row row_id (draw attempt) input) rows rows' row,
  )

  pub insert_task-IsFreshRow :
      (rows' : TaskTable) (row : Task)
      → insert_task draw row_id input rows ≡ ok rows' row
      → IsFreshRow rows rows' row
  unfolding insert_task
  insert_task-IsFreshRow rows' row h = insert_attempts-IsFreshRow 5 0 rows' row h

-- A row that the write's guard refuses stays; one that it takes is changed.
pub get_elem?-run_write :
    (w : Write) (rows : TaskTable) (i : ℕ) (t : Task)
    → get_elem? rows i ≡ some t
    → get_elem? (run_write w rows).0 i ≡ some (if guard_of w t then change_of w t else t)
get_elem?-run_write w rows i t h =
    rw (run_write-update w rows) (get_elem?-update_where (guard_of w) (change_of w) rows i t h)

get_elem?-table_of :
    (r : Inserted) (rows : TaskTable) (i : ℕ) (t : Task)
    → ((rows' : TaskTable) (row : Task) → r ≡ ok rows' row → IsFreshRow rows rows' row)
    → get_elem? rows i ≡ some t
    → get_elem? (table_of r rows) i ≡ some t
get_elem?-table_of (err e) rows i t fresh h = h
get_elem?-table_of (ok rows' row) rows i t fresh h =
    rw ((fresh rows' row refl).added) (get_elem?-append rows (row ∷ []) i t h)

-- An insert leaves every row where it was.
pub get_elem?-insert :
    (draw : ℕ → List ℕ) (row_id : String) (input : NewTask) (rows : TaskTable) (i : ℕ) (t : Task)
    → get_elem? rows i ≡ some t
    → get_elem? (run_event (insert draw row_id input) rows) i ≡ some t
unfolding run_event
get_elem?-insert draw row_id input rows i t h =
    get_elem?-table_of (insert_task draw row_id input rows) rows i t
      (insert_task-IsFreshRow draw row_id input rows) h

-- The step erases this row.
abbrev pub erases : Task → Event → Bool
erases t (write w) = false
erases t (insert draw row_id input) = false
erases t (erasure guest conversation) = erase_guard guest conversation t

-- The row that an erasure leaves of a task.
pub get_elem?-erasure :
    (guest : String) (conversation : Option String) (rows : TaskTable) (i : ℕ) (t : Task)
    → get_elem? rows i ≡ some t
    → get_elem? (run_event (erasure guest conversation) rows) i
      ≡ some (if erase_guard guest conversation t then erase t else t)
unfolding run_event erase_guest_tasks
get_elem?-erasure guest conversation rows i t h =
    get_elem?-update_where (erase_guard guest conversation) erase rows i t h

run_event-closed :
    (e : Event) (rows : TaskTable) (i : ℕ) (t : Task)
    → get_elem? rows i ≡ some t
    → is_live t.status ≡ false
    → get_elem? (run_event e rows) i ≡ some (if erases t e then erase t else t)
unfolding run_event
run_event-closed (write w) rows i t h closed = elim (Bool-cases (guard_of w t)) [
  | inl taken ↦ absurd (false≢true (sym closed ∙ guard_of-is_live w t taken))
  | inr left ↦ rw left at (get_elem?-run_write w rows i t h)
]
run_event-closed (insert draw row_id input) rows i t h closed =
    get_elem?-insert draw row_id input rows i t h
run_event-closed (erasure guest conversation) rows i t h closed =
    get_elem?-erasure guest conversation rows i t h

-- What is left of an erased row is its own erasure.
run_events-erased :
    (es : List Event) (rows : TaskTable) (i : ℕ) (t : Task)
    → get_elem? rows i ≡ some (erase t)
    → is_live t.status ≡ false
    → get_elem? (run_events es rows) i ≡ some (erase t)
unfolding run_events
run_events-erased [] rows i t h closed = h
run_events-erased (e ∷ es) rows i t h closed =
    run_events-erased es (run_event e rows) i t
      (run_event-closed e rows i (erase t) h closed ∙ same (erases (erase t) e)) closed
  where
    same : (b : Bool) → some (if b then erase (erase t) else erase t) ≡ some (erase t)
    same true = refl
    same false = refl

-- A task that is done, cancelled or was never delivered keeps its place through every later
-- sequence of writes, inserts and erasures of guests. Where none of them erases its guest it keeps
-- every one of its columns: nothing reopens, re-closes, appends to, nudges or re-assigns it.
-- Otherwise it keeps every column but its guest, conversation, booking, summary and detail, which
-- are blanked.
pub run_events-closed :
    (es : List Event) (rows : TaskTable) (i : ℕ) (t : Task)
    → get_elem? rows i ≡ some t
    → is_live t.status ≡ false
    → get_elem? (run_events es rows) i ≡ some (if any (erases t) es then erase t else t)
unfolding run_events
run_events-closed [] rows i t h closed = h
run_events-closed (e ∷ es) rows i t h closed = elim (Bool-cases (erases t e)) [
  | inl hit ↦ rw hit (
      run_events-erased es (run_event e rows) i t
        (run_event-closed e rows i t h closed ∙ rw hit refl) closed)
  | inr miss ↦ rw miss (
      run_events-closed es (run_event e rows) i t
        (run_event-closed e rows i t h closed ∙ rw miss refl) closed)
]
