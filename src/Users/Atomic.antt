-- ===== src/Users/Atomic.antt =====
-- The operations of the users leave the committed database to the request.
use ats_project_management_b.Prelude.{List, String, ℕ}
use ats_project_management_b.Auth.Dependencies.{get_current_user, require_admin, require_role}
use ats_project_management_b.Auth.Service.Atomic.{auth_rules}
use ats_project_management_b.Core.Config.{Settings}
use ats_project_management_b.Core.Security.{decode_access_token}
use ats_project_management_b.Core.Session.Keeps.{IsUncommitted}
use ats_project_management_b.Models.{User}
use ats_project_management_b.Platform.{Platform}
use ats_project_management_b.Shared.Atomic.{shared_rules}
use ats_project_management_b.Shared.Enums.{UserRole}
use ats_project_management_b.Shared.Fields.{Field}
use ats_project_management_b.Shared.Pagination.{PageParams}
use ats_project_management_b.Users.Service.{
  UserCreate, UserUpdate, create_user, delete_user, email_taken, get_user, list_users, save_user,
  update_role, update_user,
}

module _ ⦃x : Platform⦄ where
  pub get_current_user-IsUncommitted :
      (a : x.Jwt) (b : Settings) → IsUncommitted (get_current_user a b)
  unfolding get_current_user decode_access_token
  get_current_user-IsUncommitted a b db = search (auth_rules, shared_rules) depth 16

  pub require_role-IsUncommitted :
      (a : List UserRole) (b : String) (c : User) → IsUncommitted (require_role a b c)
  unfolding require_role
  require_role-IsUncommitted a b c db = search (auth_rules, shared_rules) depth 16

  pub require_admin-IsUncommitted : (a : x.Jwt) (b : Settings) → IsUncommitted (require_admin a b)
  unfolding require_admin
  require_admin-IsUncommitted a b db =
      search (auth_rules, shared_rules, get_current_user-IsUncommitted, require_role-IsUncommitted)
        depth 16

  pub list_users-IsUncommitted : (a : PageParams) → IsUncommitted (list_users a)
  unfolding list_users
  list_users-IsUncommitted a db = search (auth_rules, shared_rules) depth 16

  pub get_user-IsUncommitted : (a : ℕ) (b : User) → IsUncommitted (get_user a b)
  unfolding get_user
  get_user-IsUncommitted a b db = search (auth_rules, shared_rules) depth 16

  pub create_user-IsUncommitted : (a : UserCreate) (b : Settings) → IsUncommitted (create_user a b)
  unfolding create_user
  create_user-IsUncommitted a b db = search (auth_rules, shared_rules) depth 16

  pub email_taken-IsUncommitted : (a : Field String) (b : User) → IsUncommitted (email_taken a b)
  unfolding email_taken
  email_taken-IsUncommitted Field.unset b db = search auth_rules
  email_taken-IsUncommitted Field.null b db = search auth_rules
  email_taken-IsUncommitted (Field.value c) b db = search auth_rules depth 12

  pub save_user-IsUncommitted : (a : User) (b : UserUpdate) → IsUncommitted (save_user a b)
  unfolding save_user
  save_user-IsUncommitted a b db = search (auth_rules, shared_rules) depth 16

  pub update_user-IsUncommitted :
      (a : ℕ) (b : UserUpdate) (c : User) → IsUncommitted (update_user a b c)
  unfolding update_user
  update_user-IsUncommitted a b c db =
      search (auth_rules, shared_rules, email_taken-IsUncommitted, save_user-IsUncommitted) depth 16

  pub update_role-IsUncommitted : (a : ℕ) (b : UserRole) → IsUncommitted (update_role a b)
  unfolding update_role
  update_role-IsUncommitted a b db = search (auth_rules, shared_rules) depth 16

  pub delete_user-IsUncommitted : (a : ℕ) (b : User) → IsUncommitted (delete_user a b)
  unfolding delete_user
  delete_user-IsUncommitted a b db = search (auth_rules, shared_rules) depth 16

  pub ruleset user_rules = (
    auth_rules, shared_rules, get_current_user-IsUncommitted, require_role-IsUncommitted,
    require_admin-IsUncommitted, list_users-IsUncommitted, get_user-IsUncommitted,
    create_user-IsUncommitted, email_taken-IsUncommitted, save_user-IsUncommitted,
    update_user-IsUncommitted, update_role-IsUncommitted, delete_user-IsUncommitted,
  )
