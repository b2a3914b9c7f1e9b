-- ===== src/Users/Emails.antt =====
-- An e-mail has one live account: what the three operations that set an e-mail do with one that is
-- taken.
use mathlib.Core.Path.{subst}
use ats_project_management_b.Prelude.{
  Option, String, [], ap, false, not, refl, some, string_eq, ℕ, ℕ_eq, ◌&&◌, ◌++◌, ◌==◌, ◌∙◌, ◌∷◌,
  ◌≡◌,
}
use ats_project_management_b.Auth.Service.{UserRegister, register}
use ats_project_management_b.Auth.Service.Rotation.{stored_user}
use ats_project_management_b.Core.Config.{Settings}
use ats_project_management_b.Core.Exceptions.{Exception}
use ats_project_management_b.Core.Repository.{stored, user_model}
use ats_project_management_b.Core.Repository.Laws.{find_lem, get_lem}
use ats_project_management_b.Core.Security.{enforce_password_policy}
use ats_project_management_b.Core.Session.{Result, ok, raised, with_session, ◌>>=◌}
use ats_project_management_b.Models.{Database, User}
use ats_project_management_b.Platform.{Platform}
use ats_project_management_b.Shared.Enums.{is_admin}
use ats_project_management_b.Shared.Fields.{Field, is_set}
use ats_project_management_b.Users.Lifecycle.{
  CanCreate, create_user_run, created_is_found, created_row, lookup_email,
}
use ats_project_management_b.Users.Repository.{duplicate_email, get_by_email}
use ats_project_management_b.Users.Service.{
  UserCreate, UserUpdate, create_user, email_taken, is_stranger, update_user,
}

module _ ⦃x : Platform⦄ where
  register_taken :
      (signup : UserRegister) (settings : Settings) (db : Database x.Float) (k : ℕ) (u : User)
      → enforce_password_policy signup.password settings ≡ ok tt
      → lookup_email signup.email db.users ≡ ok (some u)
      → with_session (register signup settings) db k ≡ (raised (Exception.app duplicate_email), db)
  unfolding with_session register get_by_email ◌>>=◌
  register_taken signup settings db k u strong known = rw strong (rw find_lem (rw known refl))

  create_taken :
      (payload : UserCreate) (settings : Settings) (db : Database x.Float) (k : ℕ) (u : User)
      → enforce_password_policy payload.password settings ≡ ok tt
      → lookup_email payload.email db.users ≡ ok (some u)
      → with_session (create_user payload settings) db k
        ≡ (raised (Exception.app duplicate_email), db)
  unfolding with_session create_user get_by_email ◌>>=◌
  create_taken payload settings db k u strong known = rw strong (rw find_lem (rw known refl))

  -- The actor may update the account as the fields say.
  abbrev pub MayUpdate : User → User → UserUpdate → Type 0
  MayUpdate actor user update =
      (is_stranger actor user.id ≡ false)
      × ((is_set update.is_active && not (is_admin actor.role)) ≡ false)

  update_taken :
      (email : String) (update : UserUpdate) (actor user : User) (db : Database x.Float) (k : ℕ)
      (u : User)
      → MayUpdate actor user update
      → stored_user user.id db.users ≡ ok (some user)
      → update.email ≡ Field.value email
      → (email == user.email) ≡ false
      → lookup_email email db.users ≡ ok (some u)
      → with_session (update_user user.id update actor) db k
        ≡ (raised (Exception.app duplicate_email), db)
  unfolding with_session update_user email_taken get_by_email ◌>>=◌
  update_taken email update actor user db k u may stored given other known = rw may.0 (
      rw (get_lem user_model)
        (rw stored (rw may.1 (rw given (rw other (rw find_lem (rw known refl)))))))

  module _ (payload : UserCreate) (hashed : String) (settings : Settings) (db : Database x.Float)
      (tick : ℕ) where
    abbrev pub with_account : Database x.Float
    with_account = record db { users = db.users ++ created_row tick payload hashed ∷ [] }

    -- Once an account has been created, its e-mail is taken: a registration and a creation with that
    -- e-mail and an acceptable password, and an update by a permitted actor that gives that e-mail
    -- to a live account with another one, are each refused with DUPLICATE_EMAIL, and leave the
    -- database as the creation left it.
    pub created_email_is_taken :
        (signup : UserRegister) (other : UserCreate) (update : UserUpdate) (actor user : User)
        (k : ℕ)
        → CanCreate payload hashed settings db tick
        → enforce_password_policy signup.password settings ≡ ok tt
        → signup.email ≡ payload.email
        → enforce_password_policy other.password settings ≡ ok tt
        → other.email ≡ payload.email
        → MayUpdate actor user update
        → stored_user user.id with_account.users ≡ ok (some user)
        → update.email ≡ Field.value payload.email
        → (payload.email == user.email) ≡ false
        → (with_session (create_user payload settings) db tick
            ≡ (ok (created_row tick payload hashed), with_account))
          × (with_session (register signup settings) with_account k
              ≡ (raised (Exception.app duplicate_email), with_account))
          × (with_session (create_user other settings) with_account k
              ≡ (raised (Exception.app duplicate_email), with_account))
          × (with_session (update_user user.id update actor) with_account k
              ≡ (raised (Exception.app duplicate_email), with_account))
    created_email_is_taken signup other update actor user k c s1 e1 s2 e2 may stored given differs =
        let u = created_row tick payload hashed in
        let run = create_user_run payload hashed settings db tick c in
        let found : lookup_email payload.email with_account.users ≡ ok (some u) =
          subst (λ o. lookup_email payload.email o.1.users ≡ ok (some u)) run
            (created_is_found payload hashed settings db tick c).3 in
        let at : String → Result (Option User) = λ e. lookup_email e with_account.users in
        (
          run,
          register_taken signup settings with_account k u s1 (ap at e1 ∙ found),
          create_taken other settings with_account k u s2 (ap at e2 ∙ found),
          update_taken payload.email update actor user with_account k u may stored given differs
              found,
        )
