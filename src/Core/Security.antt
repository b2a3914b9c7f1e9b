-- ===== src/Core/Security.antt =====
-- app/core/security.py: passwords, access tokens, refresh tokens.
pub mod Policy
use ats_project_management_b.Prelude.{
  ℕ, ◌+◌, ◌*◌, ◌/◌, String, ◌<>◌, Bool, true, false, not, ◌&&◌, Option, none, some, List, [], ◌∷◌,
  ◌++◌, any, ltb, leb, ◌==◌, string_eq, option_eq, codes, text_length, decimal, join, if◌then◌else◌,
}
use ats_project_management_b.Platform.{Platform, Claims}
use ats_project_management_b.Shared.Enums.{UserRole}
use ats_project_management_b.Core.Config.{Settings}
use ats_project_management_b.Core.Constants.{ErrorCode}
use ats_project_management_b.Core.Exceptions.{Exception, Kind}
use ats_project_management_b.Core.Session.{Result, ok, raised, Exec, asserted, draw, pure, ◌>>=◌}

-- `[A-Z]` and `[a-z]`.
abbrev pub is_upper : ℕ → Bool
is_upper c = leb 65 c && leb c 90

abbrev pub is_lower : ℕ → Bool
is_lower c = leb 97 c && leb c 122

-- `if test: problems.append(text)`
abbrev pub problem : Bool → String → List String
problem test text = if test then text ∷ [] else []

-- A timedelta in microseconds.
abbrev pub minutes : ℕ → ℕ
minutes n = n * 60000000

abbrev pub days : ℕ → ℕ
days n = n * 86400000000

module _ ⦃x : Platform⦄ where
  -- A ValueError of bcrypt is not caught: the request fails with 500.
  unfoldable pub hash_password : String → Exec String
  hash_password password = do hashed ← draw (x.hashpw password); asserted hashed

  abbrev pub or_false : Option Bool → Bool
  or_false none = false
  or_false (some b) = b

  -- `_verify_password_sync`: a ValueError counts as a mismatch.
  unfoldable pub verify_password : String → String → Bool
  verify_password password hashed = or_false (x.checkpw password hashed)

  unfoldable pub password_problems : String → Settings → List String
  password_problems password settings =
      problem (ltb (text_length password) settings.password_min_length)
        ("at least " <> (decimal settings.password_min_length <> " characters"))
      ++ (problem (ltb settings.password_max_length (text_length password))
            ("at most " <> (decimal settings.password_max_length <> " characters"))
          ++ (problem (not (any is_upper (codes password))) "an uppercase letter"
              ++ (problem (not (any is_lower (codes password))) "a lowercase letter"
                  ++ problem (not (any x.is_decimal (codes password))) "a digit")))

  abbrev pub reject : List String → Result (Unit {0})
  reject [] = ok tt
  reject (p ∷ problems) = raised (
      Exception.app (record {
        kind = Kind.validation;
        detail = "Password must contain " <> join ", " (p ∷ problems);
        code = ErrorCode.weak_password;
        field = some "password";
      }))

  unfoldable pub enforce_password_policy : String → Settings → Result (Unit {0})
  unfolding password_problems
  enforce_password_policy password settings = reject (password_problems password settings)

  -- `iat` is in seconds; the time is read twice.
  unfoldable pub create_access_token : ℕ → String → Settings → Exec x.Jwt
  create_access_token user_id role settings = do
    now ← draw x.utcnow
    issued ← draw x.utcnow
    pure (
        x.jwt_encode
          (record {
            sub = some (x.uuid_text user_id);
            role = some role;
            type = some "access";
            iat = issued / 1000000;
            exp = now + minutes settings.access_token_expire_minutes;
          })
          settings.jwt_secret_key settings.jwt_algorithm)

  abbrev pub only_access : Option Claims → Option Claims
  only_access none = none
  only_access (some c) = if c.type == some "access" then some c else none

  -- The library compares `exp` with its own reading of the clock.
  unfoldable pub decode_access_token : x.Jwt → Settings → Exec (Option Claims)
  decode_access_token token settings = do
    now ← draw x.utcnow
    pure (only_access (x.jwt_decode token settings.jwt_secret_key settings.jwt_algorithm now))

  unfoldable pub generate_refresh_token : Exec String
  generate_refresh_token = draw (x.token_urlsafe 64)

  abbrev pub hash_refresh_token : String → String
  hash_refresh_token token = x.sha256 token
