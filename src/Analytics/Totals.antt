-- ===== src/Analytics/Totals.antt =====
-- The counts by a key of an enum, and what the reports say of one set of rows.
use ats_project_management_b.Prelude.{
  Bool, Bool-cases, List, [], any, any-count, ap, arith, count, filter, if◌then◌else◌, inl, inr,
  length, map, refl, string_eq, suc, true, ℕ, ℕ_eq, ◌+◌, ◌==◌, ◌↔◌, ◌∙◌, ◌∷◌, ◌≡◌,
}
use ats_project_management_b.Analytics.Counts.{from_keys, total_of, update_counts}
use ats_project_management_b.Analytics.Repository.{project_statuses, task_priorities, task_statuses}
use ats_project_management_b.Models.{Project, Task}
use ats_project_management_b.Platform.{Platform}
use ats_project_management_b.Shared.Enums.{
  ProjectStatus, TaskPriority, TaskStatus, project_status_beq_iff, project_status_eq,
  task_priority_beq_iff, task_priority_eq, task_status_beq_iff, task_status_eq,
}

-- The value of a key after the rows of an update: the last row's.
abbrev pub last_or : {K : Type 0} → ℕ → List (K × ℕ) → ℕ
last_or n [] = n
last_or n ((key, m) ∷ rows) = last_or m rows

abbrev task_status_rows : TaskStatus → List (TaskStatus × ℕ) → List (TaskStatus × ℕ)
task_status_rows status = filter (λ r. r.0 == status)

abbrev priority_rows : TaskPriority → List (TaskPriority × ℕ) → List (TaskPriority × ℕ)
priority_rows priority = filter (λ r. r.0 == priority)

abbrev project_status_rows : ProjectStatus → List (ProjectStatus × ℕ) → List (ProjectStatus × ℕ)
project_status_rows status = filter (λ r. r.0 == status)

update_task_statuses :
    (rows : List (TaskStatus × ℕ)) (a b c d : ℕ)
    → update_counts ◌==◌ rows (
        (TaskStatus.todo, a)
        ∷ (TaskStatus.in_progress, b)
        ∷ (TaskStatus.in_review, c)
        ∷ (TaskStatus.done, d)
        ∷ [])
      ≡ (TaskStatus.todo, last_or a (task_status_rows TaskStatus.todo rows))
        ∷ (TaskStatus.in_progress, last_or b (task_status_rows TaskStatus.in_progress rows))
        ∷ (TaskStatus.in_review, last_or c (task_status_rows TaskStatus.in_review rows))
        ∷ (TaskStatus.done, last_or d (task_status_rows TaskStatus.done rows))
        ∷ []
unfolding update_counts
update_task_statuses [] a b c d = refl
update_task_statuses ((TaskStatus.todo, n) ∷ rows) a b c d = update_task_statuses rows n b c d
update_task_statuses ((TaskStatus.in_progress, n) ∷ rows) a b c d =
    update_task_statuses rows a n c d
update_task_statuses ((TaskStatus.in_review, n) ∷ rows) a b c d = update_task_statuses rows a b n d
update_task_statuses ((TaskStatus.done, n) ∷ rows) a b c d = update_task_statuses rows a b c n

update_priorities :
    (rows : List (TaskPriority × ℕ)) (a b c d : ℕ)
    → update_counts ◌==◌ rows (
        (TaskPriority.low, a)
        ∷ (TaskPriority.medium, b)
        ∷ (TaskPriority.high, c)
        ∷ (TaskPriority.urgent, d)
        ∷ [])
      ≡ (TaskPriority.low, last_or a (priority_rows TaskPriority.low rows))
        ∷ (TaskPriority.medium, last_or b (priority_rows TaskPriority.medium rows))
        ∷ (TaskPriority.high, last_or c (priority_rows TaskPriority.high rows))
        ∷ (TaskPriority.urgent, last_or d (priority_rows TaskPriority.urgent rows))
        ∷ []
unfolding update_counts
update_priorities [] a b c d = refl
update_priorities ((TaskPriority.low, n) ∷ rows) a b c d = update_priorities rows n b c d
update_priorities ((TaskPriority.medium, n) ∷ rows) a b c d = update_priorities rows a n c d
update_priorities ((TaskPriority.high, n) ∷ rows) a b c d = update_priorities rows a b n d
update_priorities ((TaskPriority.urgent, n) ∷ rows) a b c d = update_priorities rows a b c n

update_project_statuses :
    (rows : List (ProjectStatus × ℕ)) (a b c d e : ℕ)
    → update_counts ◌==◌ rows (
        (ProjectStatus.planning, a)
        ∷ (ProjectStatus.active, b)
        ∷ (ProjectStatus.on_hold, c)
        ∷ (ProjectStatus.completed, d)
        ∷ (ProjectStatus.archived, e)
        ∷ [])
      ≡ (ProjectStatus.planning, last_or a (project_status_rows ProjectStatus.planning rows))
        ∷ (ProjectStatus.active, last_or b (project_status_rows ProjectStatus.active rows))
        ∷ (ProjectStatus.on_hold, last_or c (project_status_rows ProjectStatus.on_hold rows))
        ∷ (ProjectStatus.completed, last_or d (project_status_rows ProjectStatus.completed rows))
        ∷ (ProjectStatus.archived, last_or e (project_status_rows ProjectStatus.archived rows))
        ∷ []
unfolding update_counts
update_project_statuses [] a b c d e = refl
update_project_statuses ((ProjectStatus.planning, n) ∷ rows) a b c d e =
    update_project_statuses rows n b c d e
update_project_statuses ((ProjectStatus.active, n) ∷ rows) a b c d e =
    update_project_statuses rows a n c d e
update_project_statuses ((ProjectStatus.on_hold, n) ∷ rows) a b c d e =
    update_project_statuses rows a b n d e
update_project_statuses ((ProjectStatus.completed, n) ∷ rows) a b c d e =
    update_project_statuses rows a b c n e
update_project_statuses ((ProjectStatus.archived, n) ∷ rows) a b c d e =
    update_project_statuses rows a b c d n

-- One more row is counted at one status.
one_task_status :
    (s : TaskStatus) (a b c d : ℕ)
    → ((if s == TaskStatus.todo then 1 else 0) + a)
        + (((if s == TaskStatus.in_progress then 1 else 0) + b)
            + (((if s == TaskStatus.in_review then 1 else 0) + c)
                + (((if s == TaskStatus.done then 1 else 0) + d) + 0)))
      ≡ suc (a + (b + (c + (d + 0))))
one_task_status TaskStatus.todo a b c d = omega arith
one_task_status TaskStatus.in_progress a b c d = omega arith
one_task_status TaskStatus.in_review a b c d = omega arith
one_task_status TaskStatus.done a b c d = omega arith

-- One more row is counted at one priority.
one_priority :
    (s : TaskPriority) (a b c d : ℕ)
    → ((if s == TaskPriority.low then 1 else 0) + a)
        + (((if s == TaskPriority.medium then 1 else 0) + b)
            + (((if s == TaskPriority.high then 1 else 0) + c)
                + (((if s == TaskPriority.urgent then 1 else 0) + d) + 0)))
      ≡ suc (a + (b + (c + (d + 0))))
one_priority TaskPriority.low a b c d = omega arith
one_priority TaskPriority.medium a b c d = omega arith
one_priority TaskPriority.high a b c d = omega arith
one_priority TaskPriority.urgent a b c d = omega arith

-- One more row is counted at one status.
one_project_status :
    (s : ProjectStatus) (a b c d e : ℕ)
    → ((if s == ProjectStatus.planning then 1 else 0) + a)
        + (((if s == ProjectStatus.active then 1 else 0) + b)
            + (((if s == ProjectStatus.on_hold then 1 else 0) + c)
                + (((if s == ProjectStatus.completed then 1 else 0) + d)
                    + (((if s == ProjectStatus.archived then 1 else 0) + e) + 0))))
      ≡ suc (a + (b + (c + (d + (e + 0)))))
one_project_status ProjectStatus.planning a b c d e = omega arith
one_project_status ProjectStatus.active a b c d e = omega arith
one_project_status ProjectStatus.on_hold a b c d e = omega arith
one_project_status ProjectStatus.completed a b c d e = omega arith
one_project_status ProjectStatus.archived a b c d e = omega arith

module _ ⦃x : Platform⦄ where
  -- The value of a key after the update with the groups of a query.
  last_or-group_count :
      {A K : Type 0} (same : K → K → Bool) (f : A → K) (k : K) (t : List A)
      → ((i j : K) → (same i j ≡ true) ↔ (i ≡ j))
      → last_or 0 (filter (λ r. same r.0 k) (x.group_count same f t)) ≡ count (λ a. same (f a) k) t
  last_or-group_count same f k t same_iff =
      rw (x.group_count_lem same f k t same_iff) (elim (Bool-cases (any (λ a. same (f a) k) t)) [
        | inl e ↦ rw e refl
        | inr e ↦ rw (e, any-count (λ a. same (f a) k) t e) refl
      ])

  -- Counting the values of a key one by one counts the rows.
  total_task_statuses :
      (t : List (Task x.Float))
      → count (λ r. r.status == TaskStatus.todo) t
          + (count (λ r. r.status == TaskStatus.in_progress) t
              + (count (λ r. r.status == TaskStatus.in_review) t
                  + (count (λ r. r.status == TaskStatus.done) t + 0)))
        ≡ length t
  total_task_statuses [] = omega arith
  total_task_statuses (r ∷ t) =
      one_task_status r.status (count (λ r. r.status == TaskStatus.todo) t)
        (count (λ r. r.status == TaskStatus.in_progress) t)
        (count (λ r. r.status == TaskStatus.in_review) t)
        (count (λ r. r.status == TaskStatus.done) t)
      ∙ (ap suc (total_task_statuses t))

  total_priorities :
      (t : List (Task x.Float))
      → count (λ r. r.priority == TaskPriority.low) t
          + (count (λ r. r.priority == TaskPriority.medium) t
              + (count (λ r. r.priority == TaskPriority.high) t
                  + (count (λ r. r.priority == TaskPriority.urgent) t + 0)))
        ≡ length t
  total_priorities [] = omega arith
  total_priorities (r ∷ t) =
      one_priority r.priority (count (λ r. r.priority == TaskPriority.low) t)
        (count (λ r. r.priority == TaskPriority.medium) t)
        (count (λ r. r.priority == TaskPriority.high) t)
        (count (λ r. r.priority == TaskPriority.urgent) t)
      ∙ (ap suc (total_priorities t))

  total_project_statuses :
      (t : List (Project))
      → count (λ r. r.status == ProjectStatus.planning) t
          + (count (λ r. r.status == ProjectStatus.active) t
              + (count (λ r. r.status == ProjectStatus.on_hold) t
                  + (count (λ r. r.status == ProjectStatus.completed) t
                      + (count (λ r. r.status == ProjectStatus.archived) t + 0))))
        ≡ length t
  total_project_statuses [] = omega arith
  total_project_statuses (r ∷ t) =
      one_project_status r.status (count (λ r. r.status == ProjectStatus.planning) t)
        (count (λ r. r.status == ProjectStatus.active) t)
        (count (λ r. r.status == ProjectStatus.on_hold) t)
        (count (λ r. r.status == ProjectStatus.completed) t)
        (count (λ r. r.status == ProjectStatus.archived) t)
      ∙ (ap suc (total_project_statuses t))

  -- The dicts of a table, as the counts of the rows of each key.
  pub task_status_counts :
      (t : List (Task x.Float))
      → update_counts ◌==◌ (x.group_count ◌==◌ (λ r. r.status) t) (from_keys task_statuses)
        ≡ map (λ status. (status, count (λ r. r.status == status) t)) task_statuses
  task_status_counts t =
      update_task_statuses (x.group_count ◌==◌ (λ r. r.status) t) 0 0 0 0
      ∙ (rw
          (
            last_or-group_count ◌==◌ (λ r. r.status) TaskStatus.todo t task_status_beq_iff,
            last_or-group_count ◌==◌ (λ r. r.status) TaskStatus.in_progress t task_status_beq_iff,
            last_or-group_count ◌==◌ (λ r. r.status) TaskStatus.in_review t task_status_beq_iff,
            last_or-group_count ◌==◌ (λ r. r.status) TaskStatus.done t task_status_beq_iff,
          )
          refl)

  priority_counts :
      (t : List (Task x.Float))
      → update_counts ◌==◌ (x.group_count ◌==◌ (λ r. r.priority) t) (from_keys task_priorities)
        ≡ map (λ priority. (priority, count (λ r. r.priority == priority) t)) task_priorities
  priority_counts t =
      update_priorities (x.group_count ◌==◌ (λ r. r.priority) t) 0 0 0 0
      ∙ (rw
          (
            last_or-group_count ◌==◌ (λ r. r.priority) TaskPriority.low t task_priority_beq_iff,
            last_or-group_count ◌==◌ (λ r. r.priority) TaskPriority.medium t task_priority_beq_iff,
            last_or-group_count ◌==◌ (λ r. r.priority) TaskPriority.high t task_priority_beq_iff,
            last_or-group_count ◌==◌ (λ r. r.priority) TaskPriority.urgent t task_priority_beq_iff,
          )
          refl)

  project_status_counts :
      (t : List Project)
      → update_counts ◌==◌ (x.group_count ◌==◌ (λ r. r.status) t) (from_keys project_statuses)
        ≡ map (λ status. (status, count (λ r. r.status == status) t)) project_statuses
  project_status_counts t =
      update_project_statuses (x.group_count ◌==◌ (λ r. r.status) t) 0 0 0 0 0
      ∙ (rw
          (
            last_or-group_count ◌==◌ (λ r. r.status) ProjectStatus.planning t
                project_status_beq_iff,
            last_or-group_count ◌==◌ (λ r. r.status) ProjectStatus.active t project_status_beq_iff,
            last_or-group_count ◌==◌ (λ r. r.status) ProjectStatus.on_hold t project_status_beq_iff,
            last_or-group_count ◌==◌ (λ r. r.status) ProjectStatus.completed t
                project_status_beq_iff,
            last_or-group_count ◌==◌ (λ r. r.status) ProjectStatus.archived t
                project_status_beq_iff,
          )
          refl)

  pub task_status_total :
      (t : List (Task x.Float))
      → total_of
          (update_counts ◌==◌ (x.group_count ◌==◌ (λ r. r.status) t) (from_keys task_statuses))
        ≡ x.count_rows t
  task_status_total t = rw (task_status_counts t, x.count_rows_lem t) (total_task_statuses t)

  pub priority_total :
      (t : List (Task x.Float))
      → total_of
          (update_counts ◌==◌ (x.group_count ◌==◌ (λ r. r.priority) t) (from_keys task_priorities))
        ≡ x.count_rows t
  priority_total t = rw (priority_counts t, x.count_rows_lem t) (total_priorities t)

  pub project_status_total :
      (t : List Project)
      → total_of
          (update_counts ◌==◌ (x.group_count ◌==◌ (λ r. r.status) t) (from_keys project_statuses))
        ≡ x.count_rows t
  project_status_total t =
      rw (project_status_counts t, x.count_rows_lem t) (total_project_statuses t)
