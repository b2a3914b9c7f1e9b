-- ===== src/Analytics/Tests.antt =====
-- The reports on a small database.
use ats_project_management_b.Prelude.{
  Option, String, [], length, none, refl, some, true, ℕ, ◌+◌, ◌∷◌, ◌≡◌, ◌≤◌,
}
use ats_project_management_b.Analytics.Counts.{total_of}
use ats_project_management_b.Analytics.Reports.{
  IsPercentage, dashboard_consistent, done_in, project_analytics_consistent,
}
use ats_project_management_b.Analytics.Repository.{tasks_per_member}
use ats_project_management_b.Analytics.Service.{
  DashboardReport, ProjectAnalytics, dashboard, project_analytics,
}
use ats_project_management_b.Core.Session.{Session, ok}
use ats_project_management_b.Models.{Database, Task, User}
use ats_project_management_b.Platform.Memory.{memory}
use ats_project_management_b.Shared.Enums.{TaskPriority, TaskStatus, UserRole}

abbrev member_of : ℕ → String → User
member_of id name = record {
  id = id;
  created_at = 1;
  deleted_at = none;
  email = name;
  hashed_password = "#";
  full_name = name;
  role = UserRole.employee;
  is_active = true;
}

abbrev task_of : ℕ → TaskStatus → Option ℕ → Option ℕ → Task ℕ
task_of id status assignee_id due_date = record {
  id = id;
  created_at = id;
  deleted_at = none;
  project_id = 7;
  title = "";
  description = none;
  status = status;
  priority = TaskPriority.medium;
  assignee_id = assignee_id;
  due_date = due_date;
  position = id;
  created_by = 1;
  version = 1;
}

abbrev analytics_session : Session ℕ
analytics_session =
    let db : Database ℕ = record {
      users = member_of 1 "Ann" ∷ member_of 2 "Bob" ∷ [];
      tokens = [];
      projects = [];
      members = [];
      tasks =
          task_of 11 TaskStatus.todo (some 1) (some 99)
          ∷ task_of 12 TaskStatus.done (some 1) (some 99)
          ∷ task_of 13 TaskStatus.in_review (some 2) (some 120)
          ∷ task_of 14 TaskStatus.done none none
          ∷ [];
      comments = [];
      files = [];
      notifications = [];
    } in
    record { committed = db; current = db; tick = 1 }

dashboard_consistent_example :
    (r : DashboardReport ℕ) × (s' : Session ℕ) × (dashboard analytics_session ≡ (ok r, s'))
    × (s'.current ≡ analytics_session.current)
    × (total_of r.tasks_by_status ≡ r.total_tasks)
    × (total_of r.tasks_by_priority ≡ r.total_tasks)
    × (total_of r.projects_by_status ≡ r.total_projects)
    × (done_in r.tasks_by_status + r.overdue_tasks ≤ r.total_tasks)
    × (length r.recent_projects ≤ 5)
    × (length r.recent_tasks ≤ 5)
    × (length r.upcoming_deadlines ≤ 5)
dashboard_consistent_example = dashboard_consistent ⦃x = memory⦄ analytics_session

project_analytics_consistent_example :
    (r : ProjectAnalytics ℕ) × (s' : Session ℕ) × (project_analytics 7 analytics_session
      ≡ (ok r, s'))
    × (s'.current ≡ analytics_session.current)
    × (r.project_id ≡ 7)
    × (total_of r.tasks_by_status ≡ r.total_tasks)
    × (total_of r.tasks_by_priority ≡ r.total_tasks)
    × (done_in r.tasks_by_status + r.overdue_tasks ≤ r.total_tasks)
    × IsPercentage (done_in r.tasks_by_status) r.total_tasks r.completion_percent
project_analytics_consistent_example = project_analytics_consistent ⦃x = memory⦄ 7 analytics_session

abbrev bob_twice : Session ℕ
bob_twice =
    let db = record (analytics_session.current) {
      users = member_of 1 "Bob" ∷ member_of 2 "Bob" ∷ [];
    } in
    record { committed = db; current = db; tick = 1 }

-- Ann has two tasks and Bob one.
per_member : (tasks_per_member 7 analytics_session).0 ≡ ok (("Bob", 1) ∷ ("Ann", 2) ∷ [])
unfolding tasks_per_member
per_member = refl

-- Two members of one full name have one entry, with the tasks of one of them.
per_member_same_name : (tasks_per_member 7 bob_twice).0 ≡ ok (("Bob", 2) ∷ [])
unfolding tasks_per_member
per_member_same_name = refl
