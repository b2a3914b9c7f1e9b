-- ===== src/Notifications/Api.antt =====
-- app/modules/notifications/api.py.
use ats_project_management_b.Prelude.{List, ℕ}
use ats_project_management_b.Auth.Dependencies.{get_current_user}
use ats_project_management_b.Core.Config.{Settings}
use ats_project_management_b.Core.Session.{Exec, pure, ◌>>=◌, ◌>>◌}
use ats_project_management_b.Models.{Notification}
use ats_project_management_b.Notifications.Service.{list_for_user, mark_all_read, mark_read}
use ats_project_management_b.Platform.{Platform}
use ats_project_management_b.Shared.Pagination.{PageParams}
use ats_project_management_b.Shared.Responses.{ApiResponse, Reply, no_content, ok_message, ok_page}

module _ ⦃x : Platform⦄ (settings : Settings) (token : x.Jwt) where
  unfoldable pub list_notifications_route :
      PageParams → Exec (Reply (ApiResponse (List Notification)))
  list_notifications_route params = do
    user ← get_current_user token settings
    page ← list_for_user user.id params
    pure (ok_page page)

  unfoldable pub mark_read_route : ℕ → Exec (Reply (ApiResponse Notification))
  mark_read_route notification_id = do
    user ← get_current_user token settings
    notification ← mark_read notification_id user.id
    pure (ok_message "Notification read" notification)

  unfoldable pub mark_all_read_route : Exec (Reply (Unit {0}))
  mark_all_read_route = do
    user ← get_current_user token settings
    mark_all_read user.id
    pure no_content
