-- ===== src/Tasks/Reads.antt =====
-- The SELECTs of src/db/tasks.ts.
use nistula_assistance.Prelude.{
  ℕ, String, Option, List, [], ◌∷◌, Bool, true, false, ◌&&◌, leb, codes_eq, any, if◌then◌else◌,
  select_where, head?, take, length,
}
use nistula_assistance.Tasks.{
  Task, TaskTable, TaskKind, housekeeping, maintenance, frontdesk, escalation, night_queue, is_live,
  is_open, is_guest_origin, column_is,
}
use nistula_assistance.Tasks.Writes.{to_upper}

unfoldable pub find_task_by_request_key : String → TaskTable → Option Task
find_task_by_request_key key rows = head? (select_where (λ t. column_is t.request_key key) rows)

unfoldable pub find_task_by_short_id : List ℕ → TaskTable → Option Task
find_task_by_short_id short_id rows =
    head? (select_where (λ t. codes_eq t.short_id (to_upper short_id)) rows)

-- ORDER BY as an insertion sort; rows of one key stay in the table's order.
module _ (key : Task → ℕ) where
  unfoldable pub place : Task → List Task → List Task
  place t [] = t ∷ []
  place t (u ∷ us) = if leb (key t) (key u) then t ∷ u ∷ us else u ∷ place t us

  unfoldable pub order_by : List Task → List Task
  unfolding place
  order_by [] = []
  order_by (t ∷ ts) = place t (order_by ts)

  -- DESC
  unfoldable pub place_desc : Task → List Task → List Task
  place_desc t [] = t ∷ []
  place_desc t (u ∷ us) = if leb (key u) (key t) then t ∷ u ∷ us else u ∷ place_desc t us

  unfoldable pub order_by_desc : List Task → List Task
  unfolding place_desc
  order_by_desc [] = []
  order_by_desc (t ∷ ts) = place_desc t (order_by_desc ts)

abbrev pub conversation_guard : String → Task → Bool
conversation_guard conversation t =
    column_is t.conversation_id conversation && (is_guest_origin t.origin && is_live t.status)

unfoldable pub get_live_tasks_for_conversation : String → TaskTable → List Task
unfolding order_by_desc
get_live_tasks_for_conversation conversation rows =
    order_by_desc (λ t. t.opened_at) (select_where (conversation_guard conversation) rows)

abbrev pub guest_guard : String → Task → Bool
guest_guard guest t = column_is t.guest_id guest && (is_guest_origin t.origin && is_live t.status)

unfoldable pub get_live_tasks_for_guest : String → TaskTable → List Task
unfolding order_by_desc
get_live_tasks_for_guest guest rows =
    order_by_desc (λ t. t.opened_at) (select_where (guest_guard guest) rows)

abbrev pub phone_guard : String → Task → Bool
phone_guard phone t = column_is t.assigned_phone phone && is_live t.status

unfoldable pub get_live_tasks_for_phone : String → TaskTable → List Task
unfolding order_by_desc
get_live_tasks_for_phone phone rows =
    order_by_desc (λ t. t.opened_at) (select_where (phone_guard phone) rows)

abbrev pub overdue_guard : ℕ → Task → Bool
overdue_guard now t = is_open t.status && leb t.sla_deadline now

-- The nudger's batch: at most `limit` overdue open tasks, the longest overdue first.
unfoldable pub find_overdue_tasks : ℕ → ℕ → TaskTable → List Task
unfolding order_by
find_overdue_tasks now limit rows =
    take limit (order_by (λ t. t.sla_deadline) (select_where (overdue_guard now) rows))

abbrev pub same_kind : TaskKind → TaskKind → Bool
same_kind housekeeping housekeeping = true
same_kind maintenance maintenance = true
same_kind frontdesk frontdesk = true
same_kind escalation escalation = true
same_kind night_queue night_queue = true
same_kind _ _ = false

abbrev pub kind_in : List TaskKind → Task → Bool
kind_in kinds t = any (same_kind t.kind) kinds

-- `inArray` on an empty list selects nothing, as the early return does.
unfoldable pub count_tasks_raised_since : List TaskKind → ℕ → TaskTable → ℕ
count_tasks_raised_since [] since rows = 0
count_tasks_raised_since (k ∷ ks) since rows =
    length (select_where (λ t. kind_in (k ∷ ks) t && leb since t.opened_at) rows)

unfoldable pub get_live_tasks_by_kinds : List TaskKind → TaskTable → List Task
unfolding order_by_desc
get_live_tasks_by_kinds [] rows = []
get_live_tasks_by_kinds (k ∷ ks) rows =
    order_by_desc (λ t. t.opened_at)
      (select_where (λ t. kind_in (k ∷ ks) t && is_live t.status) rows)
