-- ===== src/Analytics/Service.antt =====
-- `AnalyticsService` of app/modules/analytics/service.py, and the reports of
-- app/modules/analytics/schemas.py. A row stands for its response schema.
use ats_project_management_b.Prelude.{
  List, String, if◌then◌else◌, none, some, string_eq, ℕ, ℕ_eq, ◌==◌,
}
use ats_project_management_b.Analytics.Repository.{
  completed_count, count_overdue, count_projects, count_tasks, count_users, projects_by_status,
  recent_projects, recent_tasks, tasks_by_priority, tasks_by_status, tasks_per_member,
  upcoming_deadlines,
}
use ats_project_management_b.Core.Session.{Exec, pure, ◌>>=◌}
use ats_project_management_b.Models.{Project, Task}
use ats_project_management_b.Platform.{Platform}
use ats_project_management_b.Projects.Service.{by_status}
use ats_project_management_b.Shared.Enums.{ProjectStatus, TaskPriority, TaskStatus}
use ats_project_management_b.Tasks.Service.{by_priority}

pub record DashboardReport (F : Type 0) : Type 0 where
  pub total_projects : ℕ
  pub total_tasks : ℕ
  pub total_users : ℕ
  pub projects_by_status : List (ProjectStatus × ℕ)
  pub tasks_by_status : List (TaskStatus × ℕ)
  pub tasks_by_priority : List (TaskPriority × ℕ)
  pub overdue_tasks : ℕ
  pub recent_projects : List Project
  pub recent_tasks : List (Task F)
  pub upcoming_deadlines : List (Task F)

pub record ProjectAnalytics (F : Type 0) : Type 0 where
  pub project_id : ℕ
  pub total_tasks : ℕ
  pub tasks_by_status : List (TaskStatus × ℕ)
  pub tasks_by_priority : List (TaskPriority × ℕ)
  pub tasks_per_member : List (String × ℕ)
  pub completion_percent : F
  pub overdue_tasks : ℕ

module _ ⦃x : Platform⦄ where
  unfoldable pub dashboard : Exec (DashboardReport x.Float)
  dashboard = do
    projects ← count_projects
    tasks ← count_tasks none
    users ← count_users
    by_project_status ← projects_by_status
    by_status ← tasks_by_status none
    by_priority ← tasks_by_priority none
    overdue ← count_overdue none
    newest_projects ← recent_projects 5
    newest_tasks ← recent_tasks 5
    deadlines ← upcoming_deadlines 5
    pure (record {
      total_projects = projects;
      total_tasks = tasks;
      total_users = users;
      projects_by_status = by_project_status;
      tasks_by_status = by_status;
      tasks_by_priority = by_priority;
      overdue_tasks = overdue;
      recent_projects = newest_projects;
      recent_tasks = newest_tasks;
      upcoming_deadlines = deadlines;
    })

  -- `round(done / total * 100, 1) if total else 0.0`
  abbrev pub completion : ℕ → ℕ → x.Float
  completion done total =
      if total == 0
      then x.to_float 0
      else x.round_float (x.mul_float (x.true_div done total) (x.to_float 100)) 1

  unfoldable pub project_analytics : ℕ → Exec (ProjectAnalytics x.Float)
  project_analytics project_id = do
    total ← count_tasks (some project_id)
    done ← completed_count project_id
    by_status ← tasks_by_status (some project_id)
    by_priority ← tasks_by_priority (some project_id)
    per_member ← tasks_per_member project_id
    overdue ← count_overdue (some project_id)
    pure (record {
      project_id = project_id;
      total_tasks = total;
      tasks_by_status = by_status;
      tasks_by_priority = by_priority;
      tasks_per_member = per_member;
      completion_percent = completion done total;
      overdue_tasks = overdue;
    })
