-- ===== src/Models/Notifications.antt =====
-- app/modules/notifications/models.py.
use ats_project_management_b.Prelude.{ℕ, String, Bool, ◌==◌, ℕ_eq}
use ats_project_management_b.Shared.Enums.{NotificationType}

pub record Notification : Type 0 where
  pub id : ℕ
  pub created_at : ℕ
  pub user_id : ℕ
  pub type : NotificationType
  pub title : String
  pub message : String
  pub is_read : Bool

abbrev pub notifications_clash : Notification → Notification → Bool
notifications_clash a b = a.id == b.id
