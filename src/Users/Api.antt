-- ===== src/Users/Api.antt =====
-- app/modules/users/api.py. The dependencies of a route run before its code: those declared on the
-- route first, then those among its parameters; the current user is resolved once.
use ats_project_management_b.Prelude.{List, map, ℕ}
use ats_project_management_b.Auth.Dependencies.{get_current_user, require_admin}
use ats_project_management_b.Core.Config.{Settings}
use ats_project_management_b.Core.Session.{Exec, pure, ◌>>=◌, ◌>>◌}
use ats_project_management_b.Platform.{Platform}
use ats_project_management_b.Shared.Enums.{UserRole}
use ats_project_management_b.Shared.Fields.{map_field}
use ats_project_management_b.Shared.Pagination.{PageParams}
use ats_project_management_b.Shared.Responses.{
  ApiResponse, Reply, created, no_content, ok_data, ok_message, ok_page,
}
use ats_project_management_b.Users.Schemas.{UserOut, user_out}
use ats_project_management_b.Users.Service.{
  UserCreate, UserUpdate, create_user, delete_user, get_user, list_users, update_role, update_user,
}

module _ ⦃x : Platform⦄ where
  -- `email: EmailStr` of the bodies.
  abbrev pub normalized : UserCreate → UserCreate
  normalized payload = record payload { email = x.normalize_email payload.email }

  abbrev pub normalized_update : UserUpdate → UserUpdate
  normalized_update payload = record payload { email = map_field x.normalize_email payload.email }

module _ ⦃x : Platform⦄ (settings : Settings) (token : x.Jwt) where
  unfoldable pub list_users_route : PageParams → Exec (Reply (ApiResponse (List UserOut)))
  list_users_route params = do
    require_admin token settings
    page ← list_users params
    pure (ok_page (map user_out page.0, page.1))

  unfoldable pub create_user_route : UserCreate → Exec (Reply (ApiResponse UserOut))
  create_user_route payload = do
    require_admin token settings
    user ← create_user (normalized payload) settings
    pure (created "User created" (user_out user))

  unfoldable pub get_user_route : ℕ → Exec (Reply (ApiResponse UserOut))
  get_user_route user_id = do
    actor ← get_current_user token settings
    user ← get_user user_id actor
    pure (ok_data (user_out user))

  unfoldable pub update_user_route : ℕ → UserUpdate → Exec (Reply (ApiResponse UserOut))
  update_user_route user_id payload = do
    actor ← get_current_user token settings
    user ← update_user user_id (normalized_update payload) actor
    pure (ok_message "User updated" (user_out user))

  unfoldable pub update_role_route : ℕ → UserRole → Exec (Reply (ApiResponse UserOut))
  update_role_route user_id role = do
    require_admin token settings
    user ← update_role user_id role
    pure (ok_message "Role updated" (user_out user))

  unfoldable pub delete_user_route : ℕ → Exec (Reply (Unit {0}))
  delete_user_route user_id = do
    actor ← require_admin token settings
    delete_user user_id actor
    pure no_content
