-- ===== src/Tasks/Repository.antt =====
-- `TaskRepository` of app/modules/tasks/repository.py, and the flush of a task, whose version
-- column app/modules/tasks/models.py declares to be SQLAlchemy's `version_id_col`.
use ats_project_management_b.Prelude.{
  Bool, List, Option, String, any, false, if◌then◌else◌, is_some, leb, none, not, option_eq, some,
  string_eq, true, ℕ, ℕ_eq, ◌&&◌, ◌+◌, ◌<>◌, ◌==◌, ◌||◌,
}
use ats_project_management_b.Core.Constants.{position_step}
use ats_project_management_b.Core.Exceptions.{Exception}
use ats_project_management_b.Core.Repository.{query, task_model, update_where}
use ats_project_management_b.Core.Session.{Exec, ok, raised}
use ats_project_management_b.Models.{Task}
use ats_project_management_b.Platform.{Platform}
use ats_project_management_b.Shared.Enums.{
  TaskStatus, project_status_eq, status_value, task_status_eq,
}
use ats_project_management_b.Shared.Pagination.{Statement, rows_of, search_term}

-- The WHERE clause of a versioned UPDATE: the row as it was loaded.
abbrev pub same_version : {F : Type 0} → Task F → Task F → Bool
same_version task t = t.id == task.id && t.version == task.version

abbrev pub next_version : {F : Type 0} → (Task F → Task F) → Task F → Task F
next_version change t = record (change t) { version = t.version + 1 }

module _ ⦃x : Platform⦄ where
  abbrev pub in_project : ℕ → Task x.Float → Bool
  in_project project_id t = t.project_id == project_id

  abbrev pub matches_task : Option String → Task x.Float → Bool
  matches_task none t = true
  matches_task (some term) t = x.ilike t.title ("%" <> term <> "%")

  unfoldable pub list_for_project_query : ℕ → Option String → Statement (Task x.Float)
  list_for_project_query project_id search = record {
    where_clause = λ t.
        query task_model false t && in_project project_id t && matches_task (search_term search) t;
    ordering = none;
  }

  -- `order_by(Task.status, Task.position, Task.id)`
  abbrev pub board_order : Task x.Float → Task x.Float → Bool
  board_order a b =
      if a.status == b.status
      then (x.lt_float a.position b.position
          || (not (x.lt_float b.position a.position) && leb a.id b.id))
      else x.collate (status_value a.status) (status_value b.status)

  unfoldable pub list_for_project : ℕ → Exec (List (Task x.Float))
  unfolding list_for_project_query rows_of
  list_for_project project_id s = (
    ok (
        rows_of (record (list_for_project_query project_id none) { ordering = some board_order })
          s.current.tasks),
    s,
  )

  -- The WHERE clause of `next_position`.
  abbrev pub in_column : ℕ → TaskStatus → Task x.Float → Bool
  in_column project_id status t =
      t.project_id == project_id && t.status == status && not (is_some t.deleted_at)

  -- `(current_max or 0.0) + POSITION_STEP`
  abbrev pub position_after : Option x.Float → x.Float
  position_after none = x.add_float (x.to_float 0) (x.to_float position_step)
  position_after (some current_max) = x.add_float current_max (x.to_float position_step)

  unfoldable pub next_position : ℕ → TaskStatus → Exec x.Float
  next_position project_id status s = (
    ok (
        position_after
          (x.max_float (λ t. t.position) (x.select (in_column project_id status) s.current.tasks))),
    s,
  )

  -- The flush of assignments to a loaded task. Nothing is sent if no attribute has changed. If
  -- the row has been changed since, no row has the version any more, and the flush fails.
  unfoldable pub save_task : Task x.Float → (Task x.Float → Task x.Float) → Bool → Exec (Unit {0})
  unfolding update_where
  save_task task change changed s =
      if not changed
      then (ok tt, s)
      else if x.count_rows (x.select (same_version task) s.current.tasks) == 1
      then update_where task_model (same_version task) (next_version change) s
      else (raised (Exception.stale_data x.stale_text), s)

  -- The task object after the flush.
  abbrev pub saved_task : Task x.Float → (Task x.Float → Task x.Float) → Bool → Task x.Float
  saved_task task change changed = if changed then next_version change task else task

  -- The foreign key on the assignee, where the database enforces it.
  unfoldable pub check_assignee : Option ℕ → Exec (Unit {0})
  check_assignee none s = (ok tt, s)
  check_assignee (some id) s =
      if x.foreign_keys && not (any (λ u. u.id == id) s.current.users)
      then (raised Exception.integrity, s)
      else (ok tt, s)
