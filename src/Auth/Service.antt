-- ===== src/Auth/Service.antt =====
-- `AuthService` of app/modules/auth/service.py. What pydantic checks of a payload
-- (app/modules/auth/schemas.py) is checked before the service is called.
pub mod Refresh
pub mod Rotation
pub mod Sessions
pub mod Atomic
use mathlib.Core.Option
use ats_project_management_b.Prelude.{
  Option, String, false, if◌then◌else◌, is_some, none, not, some, ℕ, ◌+◌,
}
use ats_project_management_b.Auth.Repository.{
  get_by_hash, is_valid, revoke, revoke_all_for_user, revoke_family,
}
use ats_project_management_b.Core.Config.{Settings}
use ats_project_management_b.Core.Constants.{ErrorCode}
use ats_project_management_b.Core.Exceptions.{AppException, Exception, Kind, coded}
use ats_project_management_b.Core.Repository.{add, get, save, token_model, user_model}
use ats_project_management_b.Core.Security.{
  create_access_token, days, enforce_password_policy, generate_refresh_token, hash_password,
  hash_refresh_token, verify_password,
}
use ats_project_management_b.Core.Session.{
  Exec, commit, draw, lift, or_raise, pure, raise, raise_if, ◌>>=◌, ◌>>◌,
}
use ats_project_management_b.Models.{RefreshToken, User}
use ats_project_management_b.Platform.{Platform}
use ats_project_management_b.Shared.Enums.{UserRole, role_value}
use ats_project_management_b.Users.Repository.{add_user, duplicate_email, get_by_email}

pub record UserRegister : Type 0 where
  pub email : String
  pub password : String
  pub full_name : String

pub record ChangePassword : Type 0 where
  pub current_password : String
  pub new_password : String

abbrev pub bad_credentials : AppException
bad_credentials =
    coded Kind.unauthorized "Incorrect email or password" ErrorCode.invalid_credentials

abbrev pub inactive : AppException
inactive = coded Kind.unauthorized "Account is inactive" ErrorCode.inactive_account

abbrev pub invalid_refresh : AppException
invalid_refresh = coded Kind.unauthorized "Invalid refresh token" ErrorCode.invalid_token

abbrev pub expired_refresh : AppException
expired_refresh = coded Kind.unauthorized "Refresh token expired" ErrorCode.invalid_token

abbrev pub reuse_detected : AppException
reuse_detected =
    coded Kind.unauthorized "Refresh token reuse detected; all sessions revoked"
      ErrorCode.token_reuse_detected

abbrev pub wrong_current_password : AppException
wrong_current_password =
    coded Kind.unauthorized "Current password is incorrect" ErrorCode.invalid_credentials

-- `user is None or not user.is_active` raises.
abbrev pub only_active : Option User → Option User
only_active none = none
only_active (some u) = if u.is_active then some u else none

module _ ⦃x : Platform⦄ where
  unfoldable pub register : UserRegister → Settings → Exec User
  register payload settings = do
    lift (enforce_password_policy payload.password settings)
    existing ← get_by_email payload.email
    raise_if (is_some existing) duplicate_email
    hashed ← hash_password payload.password
    add_user payload.email hashed payload.full_name UserRole.employee

  unfoldable pub issue_pair : User → ℕ → Settings → Exec (x.Jwt × String)
  issue_pair user family_id settings = do
    access ← create_access_token user.id (role_value user.role) settings
    refresh ← generate_refresh_token
    now ← draw x.utcnow
    id ← draw x.uuid7
    created ← draw x.utcnow
    add token_model (record {
      id = id;
      created_at = created;
      token_hash = hash_refresh_token refresh;
      user_id = user.id;
      family_id = family_id;
      expires_at = now + days settings.refresh_token_expire_days;
      revoked = false;
      replaced_by_id = none;
    })
    pure (access, refresh)

  -- `user is None or not verify_password(…)` raises.
  abbrev pub verified : Option User → String → Option User
  verified none password = none
  verified (some u) password = if verify_password password u.hashed_password then some u else none

  unfoldable pub login : String → String → Settings → Exec (x.Jwt × String × User)
  login email password settings = do
    existing ← get_by_email email
    user ← or_raise (verified existing password) bad_credentials
    raise_if (not user.is_active) inactive
    family_id ← draw x.uuid7
    pair ← issue_pair user family_id settings
    pure (pair.0, pair.1, user)

  -- The branch of `refresh` for a token that was already rotated: the revocation is committed
  -- before the request fails.
  unfoldable pub punish : RefreshToken → Exec (x.Jwt × String)
  punish token = do revoke_family token.family_id; commit; raise (Exception.app reuse_detected)

  -- The rest of `refresh`.
  unfoldable pub rotate : RefreshToken → Settings → Exec (x.Jwt × String)
  rotate token settings = do
    valid ← is_valid token
    raise_if (not valid) expired_refresh
    existing ← get user_model token.user_id
    user ← or_raise (only_active existing) inactive
    pair ← issue_pair user token.family_id settings
    new_token ← get_by_hash (hash_refresh_token pair.1)
    revoke token (Option.map (λ t. t.id) new_token)
    pure pair

  unfoldable pub refresh : String → Settings → Exec (x.Jwt × String)
  refresh refresh_token settings = do
    existing ← get_by_hash (hash_refresh_token refresh_token)
    token ← or_raise existing invalid_refresh
    if token.revoked then punish token else rotate token settings

  abbrev pub logout_token : Option RefreshToken → Exec (Unit {0})
  logout_token none = pure tt
  logout_token (some t) = if t.revoked then pure tt else revoke t none

  unfoldable pub logout : String → Exec (Unit {0})
  logout refresh_token = do
    existing ← get_by_hash (hash_refresh_token refresh_token)
    logout_token existing

  unfoldable pub change_password : User → ChangePassword → Settings → Exec (Unit {0})
  change_password user payload settings = do
    raise_if (not (verify_password payload.current_password user.hashed_password))
        wrong_current_password
    lift (enforce_password_policy payload.new_password settings)
    hashed ← hash_password payload.new_password
    revoke_all_for_user user.id
    save user_model user (λ u. record u { hashed_password = hashed })
