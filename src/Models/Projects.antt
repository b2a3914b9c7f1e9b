-- ===== src/Models/Projects.antt =====
-- app/modules/projects/models.py.
use ats_project_management_b.Prelude.{ℕ, String, Bool, not, ◌&&◌, ◌||◌, Option, ◌==◌, ℕ_eq, is_some}
use ats_project_management_b.Shared.Enums.{ProjectStatus, MemberRole}

-- Dates are day numbers.
pub record Project : Type 0 where
  pub id : ℕ
  pub created_at : ℕ
  pub deleted_at : Option ℕ
  pub name : String
  pub description : Option String
  pub status : ProjectStatus
  pub start_date : Option ℕ
  pub end_date : Option ℕ
  pub created_by : ℕ

pub record ProjectMember : Type 0 where
  pub id : ℕ
  pub created_at : ℕ
  pub project_id : ℕ
  pub user_id : ℕ
  pub role : MemberRole

abbrev pub project_is_live : Project → Bool
project_is_live p = not (is_some p.deleted_at)

abbrev pub projects_clash : Project → Project → Bool
projects_clash a b = a.id == b.id

-- The primary key, and `uq_project_member`.
abbrev pub members_clash : ProjectMember → ProjectMember → Bool
members_clash a b = a.id == b.id || (a.project_id == b.project_id && a.user_id == b.user_id)
