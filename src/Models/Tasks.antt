-- ===== src/Models/Tasks.antt =====
-- app/modules/tasks/models.py. The type of `position`, a float, is a parameter `F`.
use ats_project_management_b.Prelude.{
  ℕ, String, Bool, not, ◌||◌, Option, ◌==◌, ℕ_eq, string_eq, is_some,
}
use ats_project_management_b.Shared.Enums.{TaskStatus, TaskPriority}

pub record Task (F : Type 0) : Type 0 where
  pub id : ℕ
  pub created_at : ℕ
  pub deleted_at : Option ℕ
  pub project_id : ℕ
  pub title : String
  pub description : Option String
  pub status : TaskStatus
  pub priority : TaskPriority
  pub assignee_id : Option ℕ
  pub due_date : Option ℕ
  pub position : F
  pub created_by : ℕ
  pub version : ℕ

pub record Comment : Type 0 where
  pub id : ℕ
  pub created_at : ℕ
  pub deleted_at : Option ℕ
  pub task_id : ℕ
  pub user_id : ℕ
  pub content : String

pub record FileAttachment : Type 0 where
  pub id : ℕ
  pub created_at : ℕ
  pub task_id : ℕ
  pub uploaded_by : ℕ
  pub original_filename : String
  pub stored_filename : String
  pub content_type : Option String
  pub size_bytes : ℕ

abbrev pub task_is_live : {F : Type 0} → Task F → Bool
task_is_live t = not (is_some t.deleted_at)

abbrev pub comment_is_live : Comment → Bool
comment_is_live c = not (is_some c.deleted_at)

abbrev pub tasks_clash : {F : Type 0} → Task F → Task F → Bool
tasks_clash a b = a.id == b.id

abbrev pub comments_clash : Comment → Comment → Bool
comments_clash a b = a.id == b.id

-- The primary key, and the unique stored filename.
abbrev pub files_clash : FileAttachment → FileAttachment → Bool
files_clash a b = a.id == b.id || a.stored_filename == b.stored_filename
