-- ===== src/Auth/Service/Atomic.antt =====
-- All operations of `AuthService` but `refresh` leave the committed database to the request.
use ats_project_management_b.Prelude.{Option, String, none, some, ℕ}
use ats_project_management_b.Auth.Repository.{get_by_hash, revoke, revoke_all_for_user}
use ats_project_management_b.Auth.Service.{
  ChangePassword, UserRegister, change_password, issue_pair, login, logout, logout_token, register,
}
use ats_project_management_b.Core.Config.{Settings}
use ats_project_management_b.Core.Repository.Laws.{uncommitted_rules}
use ats_project_management_b.Core.Security.{
  create_access_token, generate_refresh_token, hash_password,
}
use ats_project_management_b.Core.Session.Keeps.{IsUncommitted}
use ats_project_management_b.Models.{RefreshToken, User}
use ats_project_management_b.Platform.{Platform}
use ats_project_management_b.Shared.Enums.{UserRole}
use ats_project_management_b.Users.Repository.{add_user, get_by_email}

module _ ⦃x : Platform⦄ where
  pub add_user-IsUncommitted :
      (email hashed full_name : String) (role : UserRole)
      → IsUncommitted (add_user email hashed full_name role)
  unfolding add_user
  add_user-IsUncommitted email hashed full_name role db = search uncommitted_rules

  pub hash_password-IsUncommitted : (password : String) → IsUncommitted (hash_password password)
  unfolding hash_password
  hash_password-IsUncommitted password db = search uncommitted_rules

  pub get_by_email-IsUncommitted : (email : String) → IsUncommitted (get_by_email email)
  unfolding get_by_email
  get_by_email-IsUncommitted email db = search uncommitted_rules

  pub get_by_hash-IsUncommitted : (token_hash : String) → IsUncommitted (get_by_hash token_hash)
  unfolding get_by_hash
  get_by_hash-IsUncommitted token_hash db = search uncommitted_rules

  pub revoke-IsUncommitted :
      (token : RefreshToken) (replaced_by : Option ℕ) → IsUncommitted (revoke token replaced_by)
  unfolding revoke
  revoke-IsUncommitted token replaced_by db = search uncommitted_rules

  pub revoke_all_for_user-IsUncommitted :
      (user_id : ℕ) → IsUncommitted (revoke_all_for_user user_id)
  unfolding revoke_all_for_user
  revoke_all_for_user-IsUncommitted user_id db = search uncommitted_rules

  pub issue_pair-IsUncommitted :
      (user : User) (family_id : ℕ) (settings : Settings)
      → IsUncommitted (issue_pair user family_id settings)
  unfolding issue_pair create_access_token generate_refresh_token
  issue_pair-IsUncommitted user family_id settings db = search uncommitted_rules depth 15

  pub logout_token-IsUncommitted : (o : Option RefreshToken) → IsUncommitted (logout_token o)
  logout_token-IsUncommitted none db = search uncommitted_rules
  logout_token-IsUncommitted (some t) db = search (uncommitted_rules, revoke-IsUncommitted)

  pub ruleset auth_rules = (
    uncommitted_rules, add_user-IsUncommitted, hash_password-IsUncommitted,
    get_by_email-IsUncommitted, get_by_hash-IsUncommitted, revoke-IsUncommitted,
    revoke_all_for_user-IsUncommitted, issue_pair-IsUncommitted, logout_token-IsUncommitted,
  )

  pub register-IsUncommitted :
      (payload : UserRegister) (settings : Settings) → IsUncommitted (register payload settings)
  unfolding register
  register-IsUncommitted payload settings db = search auth_rules depth 12

  pub login-IsUncommitted :
      (email password : String) (settings : Settings)
      → IsUncommitted (login email password settings)
  unfolding login
  login-IsUncommitted email password settings db = search auth_rules depth 12

  pub logout-IsUncommitted : (token : String) → IsUncommitted (logout token)
  unfolding logout
  logout-IsUncommitted token db = search auth_rules

  pub change_password-IsUncommitted :
      (user : User) (payload : ChangePassword) (settings : Settings)
      → IsUncommitted (change_password user payload settings)
  unfolding change_password
  change_password-IsUncommitted user payload settings db = search auth_rules depth 12
