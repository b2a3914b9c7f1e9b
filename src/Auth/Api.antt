-- ===== src/Auth/Api.antt =====
-- app/modules/auth/api.py. The texts of the token type stand for themselves.
use ats_project_management_b.Prelude.{Option, String, none, some}
use ats_project_management_b.Auth.Dependencies.{get_current_user}
use ats_project_management_b.Auth.Service.{
  ChangePassword, UserRegister, change_password, login, logout, refresh, register,
}
use ats_project_management_b.Core.Config.{Settings}
use ats_project_management_b.Core.RateLimit.{Limiter, limit}
use ats_project_management_b.Core.Session.{Exec, pure, ◌>>=◌, ◌>>◌}
use ats_project_management_b.Models.{User}
use ats_project_management_b.Platform.{Platform}
use ats_project_management_b.Shared.Responses.{
  ApiResponse, Reply, created, no_content, ok_body, ok_data, ok_message,
}
use ats_project_management_b.Users.Schemas.{UserOut, user_out}

pub record TokenPair (J : Type 0) : Type 0 where
  pub access_token : J
  pub refresh_token : String
  pub token_type : String

pub record LoginData (J : Type 0) : Type 0 where
  pub access_token : J
  pub refresh_token : String
  pub token_type : String
  pub user : UserOut

-- `LoginResponse`: the envelope, with the token at the top level too.
pub record LoginResponse (J : Type 0) : Type 0 where
  pub envelope : ApiResponse (LoginData J)
  pub access_token : J
  pub token_type : String

module _ ⦃x : Platform⦄ where
  -- `email: EmailStr` of the body.
  abbrev pub validated : UserRegister → UserRegister
  validated payload = record payload { email = x.normalize_email payload.email }

  abbrev pub login_body : x.Jwt × String × User → LoginResponse x.Jwt
  login_body pair = record {
    envelope =
        ok_body
          (some (record {
            access_token = pair.0;
            refresh_token = pair.1;
            token_type = "bearer";
            user = user_out pair.2;
          }))
          (some "Login successful") none;
    access_token = pair.0;
    token_type = "bearer";
  }

  abbrev token_pair : x.Jwt × String → TokenPair x.Jwt
  token_pair pair = record { access_token = pair.0; refresh_token = pair.1; token_type = "bearer" }

module _ ⦃x : Platform⦄ (settings : Settings) where
  module _ (hits : String → Option String) (limiter : Limiter) where
    unfoldable pub register_route : UserRegister → Exec (Reply (ApiResponse UserOut))
    register_route payload = do
      limit hits limiter
      user ← register (validated payload) settings
      pure (created "Registration successful" (user_out user))

    unfoldable pub login_route : String → String → Exec (Reply (LoginResponse x.Jwt))
    login_route username password = do
      limit hits limiter
      pair ← login username password settings
      pure (record { status = 200; body = login_body pair })

    unfoldable pub refresh_route : String → Exec (Reply (ApiResponse (TokenPair x.Jwt)))
    refresh_route refresh_token = do
      limit hits limiter
      pair ← refresh refresh_token settings
      pure (ok_message "Token refreshed" (token_pair pair))

  unfoldable pub logout_route : String → Exec (Reply (Unit {0}))
  logout_route refresh_token = do logout refresh_token; pure no_content

  unfoldable pub me_route : x.Jwt → Exec (Reply (ApiResponse UserOut))
  me_route token = do user ← get_current_user token settings; pure (ok_data (user_out user))

  unfoldable pub change_password_route : x.Jwt → ChangePassword → Exec (Reply (Unit {0}))
  change_password_route token payload = do
    user ← get_current_user token settings
    change_password user payload settings
    pure no_content
