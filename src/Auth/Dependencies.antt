-- ===== src/Auth/Dependencies.antt =====
-- `get_current_user` of app/modules/auth/dependencies.py and `RequireRole` of
-- app/core/permissions.py.
use mathlib.Core.Option
use ats_project_management_b.Prelude.{List, String, [], any, not, string_eq, ℕ_eq, ◌==◌, ◌∷◌}
use ats_project_management_b.Auth.Service.{only_active}
use ats_project_management_b.Core.Config.{Settings}
use ats_project_management_b.Core.Constants.{ErrorCode}
use ats_project_management_b.Core.Exceptions.{AppException, Kind, coded, plain}
use ats_project_management_b.Core.Repository.{get, user_model}
use ats_project_management_b.Core.Security.{decode_access_token}
use ats_project_management_b.Core.Session.{Exec, or_raise, pure, raise_if, ◌>>=◌, ◌>>◌}
use ats_project_management_b.Models.{User}
use ats_project_management_b.Platform.{Platform}
use ats_project_management_b.Shared.Enums.{UserRole, member_role_eq, user_role_eq}

abbrev pub bad_token : AppException
bad_token = coded Kind.unauthorized "Invalid or expired token" ErrorCode.invalid_token

abbrev pub bad_subject : AppException
bad_subject = coded Kind.unauthorized "Invalid token subject" ErrorCode.invalid_token

abbrev pub account_unavailable : AppException
account_unavailable =
    coded Kind.unauthorized "Account not found or inactive" ErrorCode.inactive_account

module _ ⦃x : Platform⦄ where
  -- A missing `sub` is the text "None", which is no UUID.
  unfoldable pub get_current_user : x.Jwt → Settings → Exec User
  unfolding Option.bind
  get_current_user token settings = do
    decoded ← decode_access_token token settings
    payload ← or_raise decoded bad_token
    user_id ← or_raise (Option.bind payload.sub x.parse_uuid) bad_subject
    existing ← get user_model user_id
    or_raise (only_active existing) account_unavailable

  -- `RequireRole(*roles, detail=…)`, applied to the current user.
  unfoldable pub require_role : List UserRole → String → User → Exec User
  require_role roles detail user =
      raise_if (not (any (λ role. user.role == role) roles)) (plain Kind.forbidden detail)
      >> pure user

  -- `require_admin` as a dependency of a route.
  unfoldable pub require_admin : x.Jwt → Settings → Exec User
  require_admin token settings = do
    user ← get_current_user token settings
    require_role (UserRole.admin ∷ []) "Admin access required" user
