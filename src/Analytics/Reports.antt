-- ===== src/Analytics/Reports.antt =====
-- What a report says of one database.
use mathlib.Core.Path.{subst}
use ats_project_management_b.Prelude.{
  Bool-cases, List, Option, arith, count, count-filter, count_disjoint, count_ext, filter, inl, inr,
  length, length-filter, length-take, map, nat_eq_iff, none, option_eq, refl, some, string_eq, ℕ,
  ℕ_eq, ◌&&◌, ◌+◌, ◌<◌, ◌==◌, ◌≡◌, ◌≤◌, ◌⊎◌,
}
use ats_project_management_b.Analytics.Counts.{from_keys, total_of, update_counts}
use ats_project_management_b.Analytics.Repository.{
  completed_count, count_overdue, count_projects, count_tasks, count_users, is_done, is_overdue,
  projects_by_status, recent_projects, recent_tasks, reported, task_statuses, tasks_by_priority,
  tasks_by_status, tasks_per_member, upcoming_deadlines,
}
use ats_project_management_b.Analytics.Service.{
  DashboardReport, ProjectAnalytics, completion, dashboard, project_analytics,
}
use ats_project_management_b.Analytics.Totals.{
  last_or, priority_total, project_status_total, task_status_counts, task_status_total,
}
use ats_project_management_b.Core.Session.{Session, ok, ◌>>=◌}
use ats_project_management_b.Models.{Task, task_is_live}
use ats_project_management_b.Platform.{Platform}
use ats_project_management_b.Shared.Enums.{TaskStatus, project_status_eq, task_status_eq}

-- The value of `done` in a dict of task statuses.
abbrev pub done_in : List (TaskStatus × ℕ) → ℕ
done_in counts = last_or 0 (filter (λ r. r.0 == TaskStatus.done) counts)

module _ ⦃x : Platform⦄ where
  -- An overdue task is a reported task that is not done.
  overdue_or_done :
      (day : ℕ) (project_id : Option ℕ) (t : List (Task x.Float))
      → done_in (
            map
              (λ status. (status, count (λ r. r.status == status) (filter (reported project_id) t)))
              task_statuses)
          + length (filter (is_overdue day project_id) t)
        ≤ length (filter (reported project_id) t)
  overdue_or_done day project_id t =
      rw
        (
          count-filter (λ r. r.status == TaskStatus.done) (reported project_id) t,
          length-filter (is_overdue day project_id) t,
          length-filter (reported project_id) t,
        )
        (count_disjoint _ _ _ t (λ r. ground arith))

  done_or_overdue :
      (day : ℕ) (project_id : Option ℕ) (t : List (Task x.Float))
      → done_in (
            update_counts ◌==◌
              (x.group_count ◌==◌ (λ r. r.status) (x.select (reported project_id) t))
              (from_keys task_statuses))
          + x.count_rows (x.select (is_overdue day project_id) t)
        ≤ x.count_rows (x.select (reported project_id) t)
  done_or_overdue day project_id t =
      rw
        (
          task_status_counts (x.select (reported project_id) t),
          x.count_rows_lem (x.select (is_overdue day project_id) t),
          x.count_rows_lem (x.select (reported project_id) t),
          x.select_lem (is_overdue day project_id) t,
          x.select_lem (reported project_id) t,
        )
        (overdue_or_done day project_id t)

  limited : {A : Type 0} (n : ℕ) (t : List A) → length (x.offset_limit 0 n t) ≤ n
  limited n t = rw (x.offset_limit_lem 0 n t) (length-take n t)

  -- The two queries for the done tasks of a project give one number.
  completed :
      (project_id : ℕ) (t : List (Task x.Float))
      → x.count_rows (x.select (λ r. r.project_id == project_id && task_is_live r && is_done r) t)
        ≡ done_in (
            update_counts ◌==◌
              (x.group_count ◌==◌ (λ r. r.status) (x.select (reported (some project_id)) t))
              (from_keys task_statuses))
  completed project_id t =
      rw
        (
          task_status_counts (x.select (reported (some project_id)) t),
          x.count_rows_lem
              (x.select (λ r. r.project_id == project_id && task_is_live r && is_done r) t),
          x.select_lem (λ r. r.project_id == project_id && task_is_live r && is_done r) t,
          x.select_lem (reported (some project_id)) t,
          length-filter (λ r. r.project_id == project_id && task_is_live r && is_done r) t,
          count-filter (λ r. r.status == TaskStatus.done) (reported (some project_id)) t,
        )
        (count_ext _ _ t (λ r. ground arith))

  -- The dashboard is computed without a change of the database, and its numbers agree: the counts
  -- by status and by priority each sum to the number of tasks, the counts of projects by status to
  -- the number of projects, the done and the overdue tasks are no more than all tasks, and no list
  -- is longer than five.
  pub dashboard_consistent :
      (s : Session x.Float)
      → (r : DashboardReport x.Float) × (s' : Session x.Float) × (dashboard s ≡ (ok r, s'))
        × (s'.current ≡ s.current)
        × (total_of r.tasks_by_status ≡ r.total_tasks)
        × (total_of r.tasks_by_priority ≡ r.total_tasks)
        × (total_of r.projects_by_status ≡ r.total_projects)
        × (done_in r.tasks_by_status + r.overdue_tasks ≤ r.total_tasks)
        × (length r.recent_projects ≤ 5)
        × (length r.recent_tasks ≤ 5)
        × (length r.upcoming_deadlines ≤ 5)
  unfolding dashboard ◌>>=◌ count_projects count_tasks count_users projects_by_status
      tasks_by_status tasks_by_priority count_overdue recent_projects recent_tasks
      upcoming_deadlines
  dashboard_consistent s = (
    _,
    _,
    refl,
    refl,
    task_status_total _,
    priority_total _,
    project_status_total _,
    done_or_overdue _ none s.current.tasks,
    limited 5 _,
    limited 5 _,
    limited 5 _,
  )

  -- The rounded percentage of the done tasks; 0 where there is no task to divide by.
  abbrev pub IsPercentage : ℕ → ℕ → x.Float → Type 0
  IsPercentage done total p =
      ((total ≡ 0) × (p ≡ x.to_float 0))
      ⊎ ((0 < total) × (p ≡ x.round_float (x.mul_float (x.true_div done total) (x.to_float 100)) 1))

  completion-IsPercentage : (done total : ℕ) → IsPercentage done total (completion done total)
  completion-IsPercentage done total = elim (Bool-cases (total == 0)) [
    | inl e ↦ inl ((nat_eq_iff total 0).0 e, rw e refl)
    | inr e ↦ inr (ground arith, rw e refl)
  ]

  -- The analytics of a project are computed without a change of the database, and their numbers
  -- agree: the counts by status and by priority each sum to the number of the project's tasks, and
  -- the done and the overdue tasks are no more than those. Where the project has tasks, the
  -- percentage is the quotient of the tasks whose status is counted as done by all tasks, times 100
  -- and rounded to one digit; where it has none, the percentage is 0.
  pub project_analytics_consistent :
      (project_id : ℕ) (s : Session x.Float)
      → (r : ProjectAnalytics x.Float) × (s' : Session x.Float) × (project_analytics project_id s
          ≡ (ok r, s'))
        × (s'.current ≡ s.current)
        × (r.project_id ≡ project_id)
        × (total_of r.tasks_by_status ≡ r.total_tasks)
        × (total_of r.tasks_by_priority ≡ r.total_tasks)
        × (done_in r.tasks_by_status + r.overdue_tasks ≤ r.total_tasks)
        × IsPercentage (done_in r.tasks_by_status) r.total_tasks r.completion_percent
  unfolding project_analytics ◌>>=◌ count_tasks completed_count tasks_by_status tasks_by_priority
      tasks_per_member count_overdue
  project_analytics_consistent project_id s =
      let total = x.count_rows (x.select (reported (some project_id)) s.current.tasks) in
      (
        _,
        _,
        refl,
        refl,
        refl,
        task_status_total _,
        priority_total _,
        done_or_overdue _ (some project_id) s.current.tasks,
        subst
            (λ n. IsPercentage n total (
              completion
                (x.count_rows (
                  x.select (λ r. r.project_id == project_id && task_is_live r && is_done r)
                    s.current.tasks))
                total))
            (completed project_id s.current.tasks) (completion-IsPercentage _ total),
      )
