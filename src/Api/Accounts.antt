-- ===== src/Api/Accounts.antt =====
-- A user from the registration to the first signed-in request, as the endpoints answer.
use mathlib.Core.Path.{subst}
use ats_project_management_b.Prelude.{
  Bool, Bool-cases, Option, String, [], any, ap, arith, false, filter, filter-any, filter-append,
  inl, inr, nat_eq_iff, none, refl, some, string_eq, ℕ, ℕ_eq, ◌&&◌, ◌++◌, ◌+◌, ◌==◌, ◌∙◌, ◌∷◌, ◌≡◌,
  ◌≤◌, ◌⊎◌,
}
use ats_project_management_b.Auth.Api.{login_body, login_route, me_route, register_route, validated}
use ats_project_management_b.Auth.Service.{UserRegister, register}
use ats_project_management_b.Auth.Service.Refresh.{opened}
use ats_project_management_b.Auth.Service.Rotation.{new_access, new_token, stored_user}
use ats_project_management_b.Auth.Service.Sessions.{
  CanLogin, access_authenticates, login_row, login_run,
}
use ats_project_management_b.Core.Config.{Settings}
use ats_project_management_b.Core.RateLimit.{Limiter, auth_rate_limit, limit}
use ats_project_management_b.Core.Repository.{scalar_one_or_none}
use ats_project_management_b.Core.Security.{minutes}
use ats_project_management_b.Core.Session.{
  Exec, Result, Session, found, lift, ok, pure, raised, settle, with_session, ◌>>=◌,
}
use ats_project_management_b.Models.{Database, User, tokens_clash, user_is_live, users_clash}
use ats_project_management_b.Platform.{Platform}
use ats_project_management_b.Shared.Enums.{UserRole}
use ats_project_management_b.Shared.Responses.{Reply, Response, answer, created, ok_data, respond}
use ats_project_management_b.Users.Lifecycle.{
  CanCreate, create_user_run, created_is_found, created_row, lookup_email,
}
use ats_project_management_b.Users.Schemas.{user_out}
use ats_project_management_b.Users.Service.{UserCreate, create_user}

module _ ⦃x : Platform⦄ where
  -- The limiter lets a request pass: it is disabled, or no limit is exceeded.
  abbrev pub IsWithinLimit : (String → Option String) → Limiter → Type 0
  IsWithinLimit hits limiter = (limiter.enabled ≡ false) ⊎ (hits (auth_rate_limit limiter) ≡ none)

  limit_lem :
      (hits : String → Option String) (limiter : Limiter) (s : Session x.Float)
      → IsWithinLimit hits limiter
      → limit hits limiter s ≡ (ok tt, s)
  unfolding limit
  limit_lem hits limiter s (inl off) = rw off refl
  limit_lem hits limiter s (inr free) = elim (Bool-cases limiter.enabled) [
    | inl e ↦ rw e (rw free refl)
    | inr e ↦ rw e refl
  ]

  after_limit :
      {A : Type 0} (hits : String → Option String) (limiter : Limiter) (m : Exec (Reply A))
      (db : Database x.Float) (tick : ℕ)
      → IsWithinLimit hits limiter
      → respond (limit hits limiter >>= λ _. m) db tick ≡ respond m db tick
  unfolding respond with_session ◌>>=◌
  after_limit hits limiter m db tick h = rw (limit_lem hits limiter (opened db tick) h) refl

  module _ {A B : Type 0} (g : A → Reply B) (a : A) (db' : Database x.Float) where
    replies :
        (o : Result A × Session x.Float)
        → settle o ≡ (ok a, db')
        → settle ((lift o.0 >>= λ r. pure (g r)) o.1) ≡ (ok (g a), db')
    unfolding ◌>>=◌
    replies (ok b, s) h = ap (λ r. (elim r.0 [ ok c ↦ ok (g c) | raised e ↦ raised e ], r.1)) h
    replies (raised e, s) h = cc

    -- A request that returns a value replies with its schema.
    pub respond_value :
        (m : Exec A) (db : Database x.Float) (tick : ℕ)
        → with_session m db tick ≡ (ok a, db')
        → respond (m >>= λ r. pure (g r)) db tick ≡ (Response.replied (g a), db')
    unfolding respond with_session ◌>>=◌
    respond_value m db tick h = ap (λ r. (answer r.0, r.1)) (replies (m (opened db tick)) h)

  abbrev pub as_employee : UserRegister → UserCreate
  as_employee payload = record {
    email = payload.email;
    password = payload.password;
    full_name = payload.full_name;
    role = UserRole.employee;
  }

  -- To register is to create an employee.
  register_lem :
      (payload : UserRegister) (settings : Settings)
      → register payload settings ≡ create_user (as_employee payload) settings
  unfolding register create_user
  register_lem payload settings = refl

  module _ (payload : UserRegister) (hashed : String) (settings : Settings) (db : Database x.Float)
      (tick later : ℕ) where
    abbrev pub new_user : User
    new_user = created_row tick (as_employee payload) hashed

    -- The database after the registration, and after the login.
    abbrev pub registered : Database x.Float
    registered = record db { users = db.users ++ new_user ∷ [] }

    abbrev pub logged_in : Database x.Float
    logged_in = record registered {
      tokens =
          db.tokens
          ++ login_row payload.email payload.password settings registered later new_user ∷ [];
    }

    -- The registration is possible, and the login's token row is new.
    pub record CanSignUp : Type 0 where
      pub creates : CanCreate (as_employee payload) hashed settings db tick
      pub token_distinct :
          any
            (tokens_clash
              (login_row payload.email payload.password settings registered later new_user))
            db.tokens
          ≡ false

    found_by_id :
        any (users_clash new_user) db.users ≡ false
        → stored_user new_user.id registered.users ≡ ok (some new_user)
    unfolding scalar_one_or_none
    found_by_id distinct =
        let p : User → Bool = λ u. user_is_live u && u.id == new_user.id in
        let others : filter p db.users ≡ [] =
          filter-any (users_clash new_user) p db.users (λ r h. ground arith) distinct in
        rw
          (
            filter-append p db.users (new_user ∷ []),
            others,
            (nat_eq_iff new_user.id new_user.id).1 refl,
          )
          refl

    can_login :
        CanSignUp → CanLogin payload.email payload.password settings registered later new_user
    can_login c =
        let (a, b, verifies, found) =
          created_is_found (as_employee payload) hashed settings db tick c.creates in
        record {
          known =
              subst (λ o. lookup_email payload.email o.1.users ≡ ok (some new_user))
                (create_user_run (as_employee payload) hashed settings db tick c.creates) found;
          matches = verifies;
          active = refl;
          distinct = c.token_distinct;
        }

  module _ (given : UserRegister) (hashed : String) (settings : Settings) (db : Database x.Float)
      (tick later : ℕ) (hits : String → Option String) (limiter : Limiter) (last : ℕ) where
    abbrev pub stored_email : String
    stored_email = (validated given).email

    abbrev pub account : User
    account = new_user (validated given) hashed settings db tick later

    abbrev pub after_registration : Database x.Float
    after_registration = registered (validated given) hashed settings db tick later

    abbrev pub after_login : Database x.Float
    after_login = logged_in (validated given) hashed settings db tick later

    -- A visitor who registers with a free e-mail and an acceptable password that bcrypt can hash, and
    -- then logs in with that password and the e-mail as the validation of the registration has
    -- normalized it, both within the rate limit and with rows that clash with none, gets an access
    -- token that, until it expires, signs them in: the three responses show the same new employee,
    -- and the database has one more user and one more refresh token.
    pub sign_up_round_trip :
        CanSignUp (validated given) hashed settings db tick later
        → IsWithinLimit hits limiter
        → x.utcnow last ≤ x.utcnow (later + 1) + minutes settings.access_token_expire_minutes
        → let access = new_access (later + 1) account settings in
          (respond (register_route settings hits limiter given) db tick ≡ (
            Response.replied (created "Registration successful" (user_out account)),
            after_registration,
          ))
          × (respond
                (login_route settings hits limiter stored_email given.password)
                after_registration
                later
              ≡ (
                Response.replied (record {
                  status = 200;
                  body = login_body (access, new_token (later + 1), account);
                }),
                after_login,
              ))
          × (respond (me_route settings access) after_login last
              ≡ (Response.replied (ok_data (user_out account)), after_login))
    unfolding register_route login_route me_route
    sign_up_round_trip c h fresh = (
      after_limit hits limiter _ db tick h
          ∙ respond_value (λ u. created "Registration successful" (user_out u)) account
              after_registration (register (validated given) settings) db tick
              (rw (register_lem (validated given) settings) (
                create_user_run (as_employee (validated given)) hashed settings db tick c.creates)),
      after_limit hits limiter _ after_registration later h
          ∙ respond_value (λ p. record { status = 200; body = login_body p }) _ after_login _
              after_registration later
              (login_run stored_email given.password settings after_registration later account
                (can_login (validated given) hashed settings db tick later c)),
      respond_value (λ u. ok_data (user_out u)) account after_login _ after_login last
          (access_authenticates (later + 1) settings account after_login last
            (found_by_id (validated given) hashed settings db tick later c.creates.distinct) refl
            fresh),
    )
