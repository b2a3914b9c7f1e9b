-- ===== src/Analytics/Atomic.antt =====
-- The reports leave the committed database to the request.
use ats_project_management_b.Prelude.{Bool, List, Option, ℕ}
use ats_project_management_b.Analytics.Repository.{
  completed_count, count_overdue, count_projects, count_tasks, count_users, member_count,
  projects_by_status, recent_projects, recent_tasks, scalar, tasks_by_priority, tasks_by_status,
  tasks_per_member, upcoming_deadlines,
}
use ats_project_management_b.Analytics.Service.{dashboard, project_analytics}
use ats_project_management_b.Core.Session.Keeps.{IsUncommitted}
use ats_project_management_b.Models.{Database}
use ats_project_management_b.Platform.{Platform}
use ats_project_management_b.Shared.Atomic.{shared_rules}

module _ ⦃x : Platform⦄ where
  pub scalar-IsUncommitted :
      {A : Type 0} (a : (A → Bool)) (b : (Database x.Float → List A)) → IsUncommitted (scalar a b)
  unfolding scalar
  scalar-IsUncommitted a b db = record { after = λ s h. h }

  pub count_projects-IsUncommitted : IsUncommitted count_projects
  unfolding count_projects
  count_projects-IsUncommitted db = record { after = λ s h. h }

  pub count_tasks-IsUncommitted : (a : Option ℕ) → IsUncommitted (count_tasks a)
  unfolding count_tasks
  count_tasks-IsUncommitted a db = record { after = λ s h. h }

  pub count_users-IsUncommitted : IsUncommitted count_users
  unfolding count_users
  count_users-IsUncommitted db = record { after = λ s h. h }

  pub projects_by_status-IsUncommitted : IsUncommitted projects_by_status
  unfolding projects_by_status
  projects_by_status-IsUncommitted db = record { after = λ s h. h }

  pub tasks_by_status-IsUncommitted : (a : Option ℕ) → IsUncommitted (tasks_by_status a)
  unfolding tasks_by_status
  tasks_by_status-IsUncommitted a db = record { after = λ s h. h }

  pub tasks_by_priority-IsUncommitted : (a : Option ℕ) → IsUncommitted (tasks_by_priority a)
  unfolding tasks_by_priority
  tasks_by_priority-IsUncommitted a db = record { after = λ s h. h }

  pub count_overdue-IsUncommitted : (a : Option ℕ) → IsUncommitted (count_overdue a)
  unfolding count_overdue
  count_overdue-IsUncommitted a db = search (shared_rules, scalar-IsUncommitted) depth 16

  pub recent_projects-IsUncommitted : (a : ℕ) → IsUncommitted (recent_projects a)
  unfolding recent_projects
  recent_projects-IsUncommitted a db = record { after = λ s h. h }

  pub recent_tasks-IsUncommitted : (a : ℕ) → IsUncommitted (recent_tasks a)
  unfolding recent_tasks
  recent_tasks-IsUncommitted a db = record { after = λ s h. h }

  pub upcoming_deadlines-IsUncommitted : (a : ℕ) → IsUncommitted (upcoming_deadlines a)
  unfolding upcoming_deadlines
  upcoming_deadlines-IsUncommitted a db = search shared_rules depth 16

  pub tasks_per_member-IsUncommitted : (a : ℕ) → IsUncommitted (tasks_per_member a)
  unfolding tasks_per_member
  tasks_per_member-IsUncommitted a db = record { after = λ s h. h }

  pub completed_count-IsUncommitted : (a : ℕ) → IsUncommitted (completed_count a)
  unfolding completed_count scalar
  completed_count-IsUncommitted a db = record { after = λ s h. h }

  pub member_count-IsUncommitted : (a : ℕ) → IsUncommitted (member_count a)
  unfolding member_count scalar
  member_count-IsUncommitted a db = record { after = λ s h. h }

  pub dashboard-IsUncommitted : IsUncommitted dashboard
  unfolding dashboard
  dashboard-IsUncommitted db =
      search
        (
          shared_rules, count_projects-IsUncommitted, count_tasks-IsUncommitted,
          count_users-IsUncommitted, projects_by_status-IsUncommitted,
          tasks_by_status-IsUncommitted, tasks_by_priority-IsUncommitted,
          count_overdue-IsUncommitted, recent_projects-IsUncommitted, recent_tasks-IsUncommitted,
          upcoming_deadlines-IsUncommitted,
        )
        depth 16

  pub project_analytics-IsUncommitted : (a : ℕ) → IsUncommitted (project_analytics a)
  unfolding project_analytics
  project_analytics-IsUncommitted a db =
      search
        (
          shared_rules, count_tasks-IsUncommitted, tasks_by_status-IsUncommitted,
          tasks_by_priority-IsUncommitted, count_overdue-IsUncommitted,
          tasks_per_member-IsUncommitted, completed_count-IsUncommitted,
        )
        depth 16

  pub ruleset analytics_rules = (
    shared_rules, scalar-IsUncommitted, count_projects-IsUncommitted, count_tasks-IsUncommitted,
    count_users-IsUncommitted, projects_by_status-IsUncommitted, tasks_by_status-IsUncommitted,
    tasks_by_priority-IsUncommitted, count_overdue-IsUncommitted, recent_projects-IsUncommitted,
    recent_tasks-IsUncommitted, upcoming_deadlines-IsUncommitted, tasks_per_member-IsUncommitted,
    completed_count-IsUncommitted, member_count-IsUncommitted, dashboard-IsUncommitted,
    project_analytics-IsUncommitted,
  )
