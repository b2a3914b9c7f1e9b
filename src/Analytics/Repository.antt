-- ===== src/Analytics/Repository.antt =====
-- `AnalyticsRepository` of app/modules/analytics/repository.py.
use ats_project_management_b.Prelude.{
  Bool, List, Option, String, [], false, leb, ltb, map, none, not, option_eq, some, string_eq, true,
  ℕ, ℕ_eq, ◌&&◌, ◌==◌, ◌∷◌,
}
use ats_project_management_b.Analytics.Counts.{from_keys, update_counts}
use ats_project_management_b.Core.Session.{Exec, draw, ok, ◌>>=◌}
use ats_project_management_b.Models.{
  Database, Project, Task, User, project_is_live, task_is_live, user_is_live,
}
use ats_project_management_b.Platform.{Platform}
use ats_project_management_b.Shared.Enums.{
  ProjectStatus, TaskPriority, TaskStatus, project_status_eq, task_priority_eq, task_status_eq,
}

abbrev pub project_statuses : List ProjectStatus
project_statuses =
    ProjectStatus.planning ∷ ProjectStatus.active ∷ ProjectStatus.on_hold ∷ ProjectStatus.completed
    ∷ ProjectStatus.archived ∷ []

abbrev pub task_statuses : List TaskStatus
task_statuses =
    TaskStatus.todo ∷ TaskStatus.in_progress ∷ TaskStatus.in_review ∷ TaskStatus.done ∷ []

abbrev pub task_priorities : List TaskPriority
task_priorities =
    TaskPriority.low ∷ TaskPriority.medium ∷ TaskPriority.high ∷ TaskPriority.urgent ∷ []

-- `due_date IS NOT NULL AND due_date < day`
abbrev pub due_before : ℕ → Option ℕ → Bool
due_before day none = false
due_before day (some due) = ltb due day

-- `due_date IS NOT NULL AND due_date >= day`
abbrev pub due_from : ℕ → Option ℕ → Bool
due_from day none = false
due_from day (some due) = leb day due

-- `Task.assignee_id == User.id`, which a null fails.
abbrev pub is_assignee : Option ℕ → ℕ → Bool
is_assignee none user_id = false
is_assignee (some id) user_id = id == user_id

-- `if project_id is not None: … Task.project_id == project_id`
abbrev pub of_project : Option ℕ → ℕ → Bool
of_project none project = true
of_project (some project_id) project = project == project_id

module _ ⦃x : Platform⦄ where
  -- The tasks that a query on a project, or on all of them, reads.
  abbrev pub reported : Option ℕ → Task x.Float → Bool
  reported project_id t = task_is_live t && of_project project_id t.project_id

  abbrev pub is_done : Task x.Float → Bool
  is_done t = t.status == TaskStatus.done

  -- `_scalar` of a `func.count`.
  unfoldable pub scalar : {A : Type 0} → (A → Bool) → (Database x.Float → List A) → Exec ℕ
  scalar test table s = (ok (x.count_rows (x.select test (table s.current))), s)

  unfoldable pub count_projects : Exec ℕ
  unfolding scalar
  count_projects = scalar project_is_live (λ db. db.projects)

  unfoldable pub count_tasks : Option ℕ → Exec ℕ
  unfolding scalar
  count_tasks project_id = scalar (reported project_id) (λ db. db.tasks)

  unfoldable pub count_users : Exec ℕ
  unfolding scalar
  count_users = scalar user_is_live (λ db. db.users)

  unfoldable pub projects_by_status : Exec (List (ProjectStatus × ℕ))
  projects_by_status s = (
    ok (
        update_counts ◌==◌
          (x.group_count ◌==◌ (λ p. p.status) (x.select project_is_live s.current.projects))
          (from_keys project_statuses)),
    s,
  )

  unfoldable pub tasks_by_status : Option ℕ → Exec (List (TaskStatus × ℕ))
  tasks_by_status project_id s = (
    ok (
        update_counts ◌==◌
          (x.group_count ◌==◌ (λ t. t.status) (x.select (reported project_id) s.current.tasks))
          (from_keys task_statuses)),
    s,
  )

  unfoldable pub tasks_by_priority : Option ℕ → Exec (List (TaskPriority × ℕ))
  tasks_by_priority project_id s = (
    ok (
        update_counts ◌==◌
          (x.group_count ◌==◌ (λ t. t.priority) (x.select (reported project_id) s.current.tasks))
          (from_keys task_priorities)),
    s,
  )

  -- The WHERE clause of `count_overdue` on a day.
  abbrev pub is_overdue : ℕ → Option ℕ → Task x.Float → Bool
  is_overdue day project_id t =
      task_is_live t
      && due_before day t.due_date
      && not (is_done t)
      && of_project project_id t.project_id

  unfoldable pub count_overdue : Option ℕ → Exec ℕ
  count_overdue project_id = do
    day ← draw x.today
    scalar (is_overdue day project_id) (λ db. db.tasks)

  -- `ORDER BY … LIMIT limit`
  abbrev pub first_rows :
      {A : Type 0} → ℕ → (A → A → Bool) → (A → Bool) → (Database x.Float → List A) → Exec (List A)
  first_rows limit order test table s =
      (ok (x.offset_limit 0 limit (x.order_by order (x.select test (table s.current)))), s)

  unfoldable pub recent_projects : ℕ → Exec (List Project)
  recent_projects limit =
      first_rows limit (λ a b. leb b.created_at a.created_at) project_is_live (λ db. db.projects)

  unfoldable pub recent_tasks : ℕ → Exec (List (Task x.Float))
  recent_tasks limit =
      first_rows limit (λ a b. leb b.created_at a.created_at) task_is_live (λ db. db.tasks)

  abbrev pub is_upcoming : ℕ → Task x.Float → Bool
  is_upcoming day t = task_is_live t && due_from day t.due_date && not (is_done t)

  unfoldable pub upcoming_deadlines : ℕ → Exec (List (Task x.Float))
  upcoming_deadlines limit = do
    day ← draw x.today
    first_rows limit (λ a b. x.nullable_le a.due_date b.due_date) (is_upcoming day) (λ db. db.tasks)

  abbrev pub same_member : ℕ × String → ℕ × String → Bool
  same_member a b = a.0 == b.0 && a.1 == b.1

  -- The join of users and the tasks assigned to them, grouped by user. Two users of one full name
  -- share a key of the dict, where the later row stays.
  unfoldable pub tasks_per_member : ℕ → Exec (List (String × ℕ))
  unfolding update_counts
  tasks_per_member project_id s = (
    ok (
        update_counts ◌==◌
          (map (λ r. (r.0.1, r.1))
            (x.group_count same_member (λ r. (r.0.id, r.0.full_name))
              (x.join_rows (λ (u : User) (t : Task x.Float). is_assignee t.assignee_id u.id)
                s.current.users
                (x.select (λ t. t.project_id == project_id && task_is_live t) s.current.tasks))))
          []),
    s,
  )

  unfoldable pub completed_count : ℕ → Exec ℕ
  completed_count project_id =
      scalar (λ t. t.project_id == project_id && task_is_live t && is_done t) (λ db. db.tasks)

  unfoldable pub member_count : ℕ → Exec ℕ
  member_count project_id = scalar (λ m. m.project_id == project_id) (λ db. db.members)
