-- ===== src/Models/Users.antt =====
-- app/modules/users/models.py, with the mixins of app/core/database.py.
-- Identifiers (UUIDs) and times (microseconds) are natural numbers: they are compared only.
use ats_project_management_b.Prelude.{
  ℕ, String, Bool, not, ◌&&◌, Option, ◌==◌, string_eq, ℕ_eq, ◌||◌, is_some,
}
use ats_project_management_b.Shared.Enums.{UserRole}

pub record User : Type 0 where
  pub id : ℕ
  pub created_at : ℕ
  pub deleted_at : Option ℕ
  pub email : String
  pub hashed_password : String
  pub full_name : String
  pub role : UserRole
  pub is_active : Bool

-- `SoftDeleteMixin.is_deleted`, negated: the row is live.
abbrev pub user_is_live : User → Bool
user_is_live u = not (is_some u.deleted_at)

-- Two rows that the primary key, or the unique index on the e-mail of live rows, excludes.
abbrev pub users_clash : User → User → Bool
users_clash a b = a.id == b.id || (user_is_live a && user_is_live b && a.email == b.email)
