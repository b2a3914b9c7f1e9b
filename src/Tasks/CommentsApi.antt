-- ===== src/Tasks/CommentsApi.antt =====
-- app/modules/tasks/comments_api.py.
use ats_project_management_b.Prelude.{List, String, ℕ}
use ats_project_management_b.Auth.Dependencies.{get_current_user}
use ats_project_management_b.Core.Config.{Settings}
use ats_project_management_b.Core.Session.{Exec, pure, ◌>>=◌, ◌>>◌}
use ats_project_management_b.Models.{Comment}
use ats_project_management_b.Platform.{Platform}
use ats_project_management_b.Shared.Pagination.{PageParams}
use ats_project_management_b.Shared.Responses.{
  ApiResponse, Reply, created, no_content, ok_message, ok_page,
}
use ats_project_management_b.Tasks.Api.{accessible_task}
use ats_project_management_b.Tasks.Comments.{
  create_comment, delete_comment, get_comment, list_comments, update_comment,
}
use ats_project_management_b.Tasks.Service.{get_accessible_task}

module _ ⦃x : Platform⦄ (settings : Settings) (token : x.Jwt) where
  unfoldable pub list_comments_route : ℕ → PageParams → Exec (Reply (ApiResponse (List Comment)))
  list_comments_route task_id params = do
    found_task ← accessible_task settings token task_id
    page ← list_comments found_task.0.id params
    pure (ok_page page)

  unfoldable pub create_comment_route : ℕ → String → Exec (Reply (ApiResponse Comment))
  create_comment_route task_id content = do
    found_task ← accessible_task settings token task_id
    comment ← create_comment found_task.0.id content found_task.1
    pure (created "Comment added" comment)

  unfoldable pub update_comment_route : ℕ → String → Exec (Reply (ApiResponse Comment))
  update_comment_route comment_id content = do
    actor ← get_current_user token settings
    comment ← get_comment comment_id
    get_accessible_task comment.task_id actor
    updated ← update_comment comment_id content actor
    pure (ok_message "Comment updated" updated)

  unfoldable pub delete_comment_route : ℕ → Exec (Reply (Unit {0}))
  delete_comment_route comment_id = do
    actor ← get_current_user token settings
    comment ← get_comment comment_id
    get_accessible_task comment.task_id actor
    delete_comment comment_id actor
    pure no_content
