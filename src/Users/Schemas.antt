-- ===== src/Users/Schemas.antt =====
-- `UserOut` of app/modules/users/schemas.py, without the column `updated_at`: what a response says
-- of a user.
use ats_project_management_b.Prelude.{Bool, String, ℕ}
use ats_project_management_b.Models.{User}
use ats_project_management_b.Platform.{Platform}
use ats_project_management_b.Shared.Enums.{UserRole}

pub record UserOut : Type 0 where
  pub id : ℕ
  pub email : String
  pub full_name : String
  pub role : UserRole
  pub is_active : Bool
  pub created_at : ℕ

module _ ⦃x : Platform⦄ where
  -- `UserOut.model_validate(user)`, with `email: EmailStr`.
  abbrev pub user_out : User → UserOut
  user_out user = record {
    id = user.id;
    email = x.normalize_email user.email;
    full_name = user.full_name;
    role = user.role;
    is_active = user.is_active;
    created_at = user.created_at;
  }
