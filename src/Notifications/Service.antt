-- ===== src/Notifications/Service.antt =====
-- `NotificationService` of app/modules/notifications/service.py and its repository.
use ats_project_management_b.Prelude.{
  Bool, List, String, false, leb, not, some, string_eq, true, ℕ, ℕ_eq, ◌&&◌, ◌==◌, ◌||◌,
}
use ats_project_management_b.Core.Exceptions.{AppException, Kind, plain}
use ats_project_management_b.Core.Repository.{add, get, notification_model, save, update_where}
use ats_project_management_b.Core.Session.{Exec, draw, or_raise, pure, raise_if, ◌>>=◌, ◌>>◌}
use ats_project_management_b.Models.{Notification}
use ats_project_management_b.Platform.{Platform}
use ats_project_management_b.Shared.Enums.{NotificationType}
use ats_project_management_b.Shared.Pagination.{PageParams, PaginationMeta, Statement, paginate}

abbrev pub notification_not_found : AppException
notification_not_found = plain Kind.not_found "Notification not found"

abbrev pub not_yours : AppException
not_yours = plain Kind.forbidden "Not your notification"

abbrev pub mark_notification : Notification → Notification
mark_notification n = record n { is_read = true }

-- The WHERE clause of the bulk update.
abbrev pub unread_of : ℕ → Notification → Bool
unread_of user_id n = n.user_id == user_id && not n.is_read

-- `list_for_user_query(user_id, unread_only=…)`, newest first.
unfoldable pub list_for_user_query : ℕ → Bool → Statement Notification
list_for_user_query user_id unread_only = record {
  where_clause = λ n. n.user_id == user_id && (not unread_only || not n.is_read);
  ordering = some (λ a b. leb b.created_at a.created_at);
}

module _ ⦃x : Platform⦄ where
  unfoldable pub list_for_user : ℕ → PageParams → Exec (List Notification × PaginationMeta)
  list_for_user user_id params =
      paginate notification_model (list_for_user_query user_id false) params

  unfoldable pub mark_read : ℕ → ℕ → Exec Notification
  mark_read notification_id user_id = do
    existing ← get notification_model notification_id
    notification ← or_raise existing notification_not_found
    raise_if (not (notification.user_id == user_id)) not_yours
    save notification_model notification mark_notification
    pure (mark_notification notification)

  unfoldable pub mark_all_read : ℕ → Exec (Unit {0})
  mark_all_read user_id = update_where notification_model (unread_of user_id) mark_notification

  unfoldable pub create : ℕ → String → String → NotificationType → Exec Notification
  create user_id title message type = do
    id ← draw x.uuid7
    now ← draw x.utcnow
    add notification_model (record {
      id = id;
      created_at = now;
      user_id = user_id;
      type = type;
      title = title;
      message = message;
      is_read = false;
    })
