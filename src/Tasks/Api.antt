-- ===== src/Tasks/Api.antt =====
-- app/modules/tasks/api.py.
use ats_project_management_b.Prelude.{Bool, List, if◌then◌else◌, not, true, ℕ}
use ats_project_management_b.Auth.Dependencies.{get_current_user}
use ats_project_management_b.Core.Config.{Settings}
use ats_project_management_b.Core.Session.{Exec, pure, raise_if, ◌>>=◌, ◌>>◌}
use ats_project_management_b.Models.{Task, User}
use ats_project_management_b.Platform.{Platform}
use ats_project_management_b.Projects.Api.{require_project_view}
use ats_project_management_b.Projects.Permissions.{not_a_member}
use ats_project_management_b.Projects.Repository.{is_member}
use ats_project_management_b.Shared.Enums.{is_admin}
use ats_project_management_b.Shared.Events.{EventBus}
use ats_project_management_b.Shared.Pagination.{PageParams}
use ats_project_management_b.Shared.Responses.{
  ApiResponse, Reply, created, no_content, ok_data, ok_message, ok_page,
}
use ats_project_management_b.Tasks.Service.{
  Board, TaskCreate, TaskStatusUpdate, TaskUpdate, create_task, delete_task, get_accessible_task,
  kanban_board, list_tasks, update_status, update_task,
}

module _ ⦃x : Platform⦄ where
  -- The access check of `create_task`; for an admin, no membership is read.
  unfoldable pub may_create : User → ℕ → Exec Bool
  may_create actor project_id =
      if is_admin actor.role then pure true else is_member project_id actor.id

module _ ⦃x : Platform⦄ (settings : Settings) (token : x.Jwt) where
  unfoldable pub list_project_tasks_route :
      ℕ → PageParams → Exec (Reply (ApiResponse (List (Task x.Float))))
  list_project_tasks_route project_id params = do
    require_project_view settings token project_id
    page ← list_tasks project_id params
    pure (ok_page page)

  unfoldable pub kanban_board_route : ℕ → Exec (Reply (ApiResponse Board))
  kanban_board_route project_id = do
    require_project_view settings token project_id
    board ← kanban_board project_id
    pure (ok_data board)

  unfoldable pub create_task_route :
      EventBus → TaskCreate → Exec (Reply (ApiResponse (Task x.Float)))
  create_task_route event_bus payload = do
    actor ← get_current_user token settings
    allowed ← may_create actor payload.project_id
    raise_if (not allowed) not_a_member
    task ← create_task event_bus payload actor
    pure (created "Task created" task)

  -- `AccessibleTaskDep`
  unfoldable pub accessible_task : ℕ → Exec (Task x.Float × User)
  accessible_task task_id = do
    user ← get_current_user token settings
    task ← get_accessible_task task_id user
    pure (task, user)

  unfoldable pub get_task_route : ℕ → Exec (Reply (ApiResponse (Task x.Float)))
  get_task_route task_id = do found_task ← accessible_task task_id; pure (ok_data found_task.0)

  unfoldable pub update_task_route :
      EventBus → ℕ → TaskUpdate → Exec (Reply (ApiResponse (Task x.Float)))
  update_task_route event_bus task_id payload = do
    found_task ← accessible_task task_id
    updated ← update_task event_bus found_task.0 payload found_task.1
    pure (ok_message "Task updated" updated)

  unfoldable pub update_task_status_route :
      ℕ → TaskStatusUpdate x.Float → Exec (Reply (ApiResponse (Task x.Float)))
  update_task_status_route task_id payload = do
    found_task ← accessible_task task_id
    updated ← update_status found_task.0 payload
    pure (ok_message "Task status updated" updated)

  unfoldable pub delete_task_route : ℕ → Exec (Reply (Unit {0}))
  delete_task_route task_id = do
    found_task ← accessible_task task_id
    delete_task found_task.0
    pure no_content
