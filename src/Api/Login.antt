-- ===== src/Api/Login.antt =====
-- How the routes resolve the current user.
use mathlib.Core.Option
use ats_project_management_b.Prelude.{Option, ap, none, refl, some, true, ℕ, ◌+◌, ◌≡◌}
use ats_project_management_b.Auth.Dependencies.{
  account_unavailable, bad_subject, bad_token, get_current_user,
}
use ats_project_management_b.Auth.Service.{only_active}
use ats_project_management_b.Auth.Service.Refresh.{opened}
use ats_project_management_b.Auth.Service.Rotation.{only_active_lem, stored_user}
use ats_project_management_b.Core.Config.{Settings}
use ats_project_management_b.Core.Exceptions.{AppException, Exception, handle}
use ats_project_management_b.Core.Repository.{user_model}
use ats_project_management_b.Core.Repository.Laws.{get_lem}
use ats_project_management_b.Core.Security.{decode_access_token, only_access}
use ats_project_management_b.Core.Session.{Exec, Session, ok, raised, with_session, ◌>>=◌}
use ats_project_management_b.Models.{Database, User}
use ats_project_management_b.Platform.{Claims, Platform}
use ats_project_management_b.Shared.Responses.{Reply, Response, respond}

module _ ⦃x : Platform⦄ where
  -- The first part of a request raises, with nothing committed: the handler answers.
  pub refused :
      {A B : Type 0} (m : Exec A) (f : A → Exec (Reply B)) (db : Database x.Float) (tick : ℕ)
      (e : Exception) (s' : Session x.Float)
      → m (opened db tick) ≡ (raised e, s')
      → s'.committed ≡ db
      → respond (m >>= f) db tick ≡ (Response.failed (handle e), db)
  unfolding respond with_session ◌>>=◌
  refused m f db tick e s' h k = rw h (ap (λ d. (Response.failed (handle e), d)) k)

  -- The first part of a sequence raises.
  pub bind_raised :
      {A B : Type 0} (m : Exec A) (f : A → Exec B) (s s' : Session x.Float) (e : Exception)
      → m s ≡ (raised e, s')
      → (m >>= f) s ≡ (raised e, s')
  unfolding ◌>>=◌
  bind_raised m f s s' e h = rw h refl

  module _ (settings : Settings) (token : x.Jwt) (db : Database x.Float) (tick : ℕ) where
    -- The token is an access token of a live and active user that has not expired.
    pub record SignedIn (user : User) : Type 0 where
      pub claims : Claims
      pub decoded :
          only_access
            (x.jwt_decode token settings.jwt_secret_key settings.jwt_algorithm (x.utcnow tick))
          ≡ some claims
      pub subject : Option.bind claims.sub x.parse_uuid ≡ some user.id
      pub known : stored_user user.id db.users ≡ ok (some user)
      pub active : user.is_active ≡ true

    pub current_user_lem :
        (user : User)
        → SignedIn user
        → get_current_user token settings (opened db tick) ≡ (ok user, opened db (tick + 1))
    unfolding get_current_user decode_access_token ◌>>=◌
    current_user_lem user h = rw h.decoded (
        rw h.subject
          (rw (get_lem user_model) (rw h.known (rw (only_active_lem user h.active) refl))))

    -- Why a request with the token is not signed in, with the exception that says so.
    pub data IsRejected : AppException → Type 0 where
      no_access_token :
          only_access
              (x.jwt_decode token settings.jwt_secret_key settings.jwt_algorithm (x.utcnow tick))
            ≡ none
          → IsRejected bad_token
      no_subject :
          (claims : Claims)
          → only_access
              (x.jwt_decode token settings.jwt_secret_key settings.jwt_algorithm (x.utcnow tick))
            ≡ some claims
          → Option.bind claims.sub x.parse_uuid ≡ none
          → IsRejected bad_subject
      no_account :
          (claims : Claims) (user_id : ℕ) (existing : Option User)
          → only_access
              (x.jwt_decode token settings.jwt_secret_key settings.jwt_algorithm (x.utcnow tick))
            ≡ some claims
          → Option.bind claims.sub x.parse_uuid ≡ some user_id
          → stored_user user_id db.users ≡ ok existing
          → only_active existing ≡ none
          → IsRejected account_unavailable

    pub rejected_lem :
        (e : AppException)
        → IsRejected e
        → get_current_user token settings (opened db tick)
          ≡ (raised (Exception.app e), opened db (tick + 1))
    unfolding get_current_user decode_access_token ◌>>=◌
    rejected_lem e (IsRejected.no_access_token h) = rw h refl
    rejected_lem e (IsRejected.no_subject claims h k) = rw h (rw k refl)
    rejected_lem e (IsRejected.no_account claims user_id existing h k l m) =
        rw h (rw k (rw (get_lem user_model) (rw l (rw m refl))))
