-- ===== src/Tasks/Requests.antt =====
-- One guest message asking for one kind of help is one errand (insertTask, taskRequestKey).
use mathlib.Core.Bool.{false≢true}
use nistula_assistance.Prelude.{
  ℕ, zero, suc, ◌+◌, ◌<◌, ◌≤◌, ◌≡◌, ◌≢◌, refl, sym, ◌∙◌, inl, inr, String, Option, some, none, List,
  [], ◌∷◌, ◌++◌, Bool, true, false, arith, any, Bool-cases, eq_iff, select_where, head?,
}
use nistula_assistance.Tasks.{Task, TaskTable, column_is}
use nistula_assistance.Tasks.Insert.{
  NewTask, Inserted, ok, err, new_row, has_short_id, same_key, insert_row, insert_attempts,
  insert_task,
}
use nistula_assistance.Tasks.Reads.{find_task_by_request_key}
use nistula_assistance.Tasks.History.{table_of}
use nistula_assistance.Tasks.Frozen.{IsFreshRow, insert_task-IsFreshRow}

abbrev pub IsOk : Inserted → Type 0
IsOk r = (rows : TaskTable) × (row : Task) × (r ≡ ok rows row)

module _ (draw : ℕ → List ℕ) (row_id : String) (input : NewTask) (rows : TaskTable) where
  insert_attempts-IsOk :
      (left attempt k : ℕ)
      → attempt + left ≡ 5
      → attempt ≤ k
      → k < 5
      → any (same_key input.request_key) rows ≡ false
      → any (has_short_id (draw k)) rows ≡ false
      → IsOk (insert_attempts draw row_id input rows left attempt)
  unfolding insert_attempts insert_row
  insert_attempts-IsOk zero attempt k sum lo hi free fresh = absurd (omega arith)
  insert_attempts-IsOk (suc left) attempt k sum lo hi free fresh =
      elim (Bool-cases (any (has_short_id (draw attempt)) rows)) [
        | inl taken ↦
            let ne : attempt ≢ k = λ e. false≢true (sym fresh ∙ (rw e at taken)) in
            let (rows', row, e) =
              insert_attempts-IsOk left (attempt + 1) k (omega arith) (omega arith) hi free fresh in
            (rows', row, ground (arith, e))
        | inr unused ↦ (
          rows ++ new_row row_id (draw attempt) input ∷ [],
          new_row row_id (draw attempt) input,
          ground arith,
        )
      ]

-- An insert succeeds if its request is new and one of the five short ids that it draws is free,
-- whatever the collisions before that draw.
pub insert_task-IsOk :
    (draw : ℕ → List ℕ) (row_id : String) (input : NewTask) (rows : TaskTable) (k : ℕ)
    → k < 5
    → any (same_key input.request_key) rows ≡ false
    → any (has_short_id (draw k)) rows ≡ false
    → IsOk (insert_task draw row_id input rows)
unfolding insert_task
insert_task-IsOk draw row_id input rows k hi free fresh =
    insert_attempts-IsOk draw row_id input rows 5 0 k refl (omega arith) hi free fresh

module _ (draw : ℕ → List ℕ) (row_id : String) (input : NewTask) (rows : TaskTable) where
  insert_attempts-key :
      (left attempt : ℕ) (rows' : TaskTable) (row : Task)
      → insert_attempts draw row_id input rows left attempt ≡ ok rows' row
      → row.request_key ≡ input.request_key
  unfolding insert_attempts insert_row
  insert_attempts-key zero attempt rows' row h = ground arith
  insert_attempts-key (suc left) attempt rows' row h =
      ground (arith, insert_attempts-key left (attempt + 1) rows' row)

any-append_last :
    (p : Task → Bool) (rows : TaskTable) (t : Task) → p t ≡ true → any p (rows ++ t ∷ []) ≡ true
any-append_last p [] t h = ground arith
any-append_last p (u ∷ rows) t h = ground (arith, any-append_last p rows t)

select_of_any :
    (p : Task → Bool) (rows : TaskTable)
    → any p rows ≡ true
    → (t : Task) × (head? (select_where p rows) ≡ some t) × (p t ≡ true)
unfolding select_where
select_of_any p [] h = absurd (ground arith)
select_of_any p (u ∷ rows) h = elim (Bool-cases (p u)) [
  | inl yes_it ↦ (u, ground arith, yes_it)
  | inr other ↦ let (t, e, k) = select_of_any p rows (ground arith) in (t, ground (arith, e), k)
]

column_is-eq : (o : Option String) (key : String) → column_is o key ≡ true → o ≡ some key
column_is-eq none key h = absurd (ground arith)
column_is-eq (some u) key h = ground (arith, eq_iff u key)

refused_by :
    (r : Inserted) (key : String) (rows : TaskTable)
    → any (same_key (some key)) rows ≡ true
    → ((rows' : TaskTable) (row : Task) → r ≡ ok rows' row → IsFreshRow rows rows' row)
    → ((rows' : TaskTable) (row : Task) → r ≡ ok rows' row → row.request_key ≡ some key)
    → table_of r rows ≡ rows
refused_by (err e) key rows held fresh keyed = refl
refused_by (ok rows' row) key rows held fresh keyed =
    let free = (fresh rows' row refl).key_free in
    absurd (false≢true (sym (rw (keyed rows' row refl) at free) ∙ held))

-- Once a request has been inserted, the task of the request is found by its key, and a retry of the
-- same request never inserts a second one, whatever ids it draws and however it words the task.
pub request_is_one_task :
    (draw draw' : ℕ → List ℕ) (row_id row_id' key : String) (input retry : NewTask)
    (rows rows' : TaskTable) (row : Task)
    → insert_task draw row_id input rows ≡ ok rows' row
    → input.request_key ≡ some key
    → retry.request_key ≡ some key
    → ((t : Task) × (find_task_by_request_key key rows' ≡ some t) × (t.request_key ≡ some key))
      × (table_of (insert_task draw' row_id' retry rows') rows' ≡ rows')
unfolding find_task_by_request_key
request_is_one_task draw draw' row_id row_id' key input retry rows rows' row done_it mine again =
    let f = insert_task-IsFreshRow draw row_id input rows rows' row done_it in
    let k =
      insert_attempts-key draw row_id input rows 5 0 rows' row (unfold insert_task in done_it)
      ∙ mine in
    let held : any (same_key (some key)) rows' ≡ true =
      rw (f.added)
        (any-append_last (same_key (some key)) rows row (rw k ((eq_iff key key).1 refl))) in
    let (t, e, h) = select_of_any (same_key (some key)) rows' held in
    (
      (t, e, column_is-eq t.request_key key h),
      refused_by (insert_task draw' row_id' retry rows') key rows' held
          (insert_task-IsFreshRow draw' row_id' retry rows')
          (λ rows'' row' h'.
            insert_attempts-key draw' row_id' retry rows' 5 0 rows'' row' (unfold insert_task in h')
            ∙ again),
    )
