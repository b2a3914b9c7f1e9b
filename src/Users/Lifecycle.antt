-- ===== src/Users/Lifecycle.antt =====
-- An account from its creation to its deletion, as the lookups see it.
use text.Mathlib.TextPositions.{eq_refl}
use ats_project_management_b.Prelude.{
  Bool, List, Option, String, [], any, ap, arith, change_where, false, filter, filter-append,
  nat_eq_iff, none, refl, some, string_eq, true, ℕ, ℕ_eq, ◌&&◌, ◌++◌, ◌+◌, ◌==◌, ◌∷◌, ◌≡◌,
}
use ats_project_management_b.Auth.Service.Rotation.{stored_user}
use ats_project_management_b.Core.Config.{Settings}
use ats_project_management_b.Core.Repository.{delete, save, scalar_one_or_none, user_model}
use ats_project_management_b.Core.Repository.Laws.{
  add_lem, find_lem, get_lem, scalar-eq-none, scalar-eq-some,
}
use ats_project_management_b.Core.Security.{
  enforce_password_policy, hash_password, or_false, verify_password,
}
use ats_project_management_b.Core.Session.{Result, ok, with_session, ◌>>=◌}
use ats_project_management_b.Models.{Database, User, user_is_live, users_clash}
use ats_project_management_b.Platform.{Platform}
use ats_project_management_b.Users.Repository.{add_user, get_by_email}
use ats_project_management_b.Users.Service.{UserCreate, create_user, delete_user}

module _ {A : Type 0} (p q : A → Bool) (f : A → A) (gone : (r : A) → p (f r) ≡ false) where
  filter-change_where_none : (xs : List A) → filter p xs ≡ [] → filter p (change_where q f xs) ≡ []
  filter-change_where_none [] h = refl
  filter-change_where_none (x ∷ xs) h = ground (arith, filter-change_where_none xs, gone x)

  -- The only row that passes a test no longer passes it.
  filter-change_where_single :
      (xs : List A) {u : A}
      → filter p xs ≡ u ∷ []
      → q u ≡ true
      → filter p (change_where q f xs) ≡ []
  filter-change_where_single [] h k = refl
  filter-change_where_single (x ∷ xs) {u} h k =
      ground (arith, filter-change_where_single xs {u = u}, filter-change_where_none xs, gone x)

module _ ⦃x : Platform⦄ where
  -- The row that `create_user` stores when `n` answers have been drawn, with the password's hash.
  abbrev pub created_row : ℕ → UserCreate → String → User
  created_row n payload hashed = record {
    id = x.uuid7 (n + 1);
    created_at = x.utcnow (n + 1 + 1);
    deleted_at = none;
    email = payload.email;
    hashed_password = hashed;
    full_name = payload.full_name;
    role = payload.role;
    is_active = true;
  }

  abbrev pub lookup_email : String → List User → Result (Option User)
  lookup_email email users =
      scalar_one_or_none (filter (λ u. user_is_live u && u.email == email) users)

  pub record CanCreate (payload : UserCreate) (hashed : String) (settings : Settings)
      (db : Database x.Float) (tick : ℕ) : Type 0 where
    pub hashes : x.hashpw payload.password tick ≡ some hashed
    pub strong : enforce_password_policy payload.password settings ≡ ok tt
    pub free : lookup_email payload.email db.users ≡ ok none
    pub distinct : any (users_clash (created_row tick payload hashed)) db.users ≡ false

  pub create_user_run :
      (payload : UserCreate) (hashed : String) (settings : Settings) (db : Database x.Float)
      (tick : ℕ)
      → CanCreate payload hashed settings db tick
      → with_session (create_user payload settings) db tick ≡ (
        ok (created_row tick payload hashed),
        record db { users = db.users ++ created_row tick payload hashed ∷ [] },
      )
  unfolding with_session create_user get_by_email hash_password add_user ◌>>=◌
  create_user_run payload hashed settings db tick c =
      rw c.strong (rw find_lem (rw c.free (rw c.hashes (rw add_lem (rw c.distinct refl)))))

  -- With an acceptable password that bcrypt can hash, an e-mail that no live account has, and a row
  -- that clashes with none, `create_user` succeeds: the account is active, has the role and the
  -- hash, against which the password verifies, and is the one that its e-mail then leads to; nothing else changes.
  pub created_is_found :
      (payload : UserCreate) (hashed : String) (settings : Settings) (db : Database x.Float)
      (tick : ℕ)
      → CanCreate payload hashed settings db tick
      → let (r, db') = with_session (create_user payload settings) db tick in
        let u = created_row tick payload hashed in
        (r ≡ ok u)
        × (db' ≡ record db { users = db.users ++ u ∷ [] })
        × (verify_password payload.password u.hashed_password ≡ true)
        × (lookup_email payload.email db'.users ≡ ok (some u))
  unfolding verify_password scalar_one_or_none
  created_is_found payload hashed settings db tick c =
      rw (create_user_run payload hashed settings db tick c) (
        refl,
        refl,
        ap or_false (x.checkpw_hashpw payload.password hashed tick c.hashes),
        rw
            (
              filter-append (λ u. user_is_live u && u.email == payload.email) db.users
                  (created_row tick payload hashed ∷ []),
              scalar-eq-none _ c.free,
              eq_refl payload.email,
            )
            refl,
      )

  delete_user_run :
      (user_id : ℕ) (actor user : User) (db : Database x.Float) (tick : ℕ)
      → (user_id == actor.id) ≡ false
      → stored_user user_id db.users ≡ ok (some user)
      → with_session (delete_user user_id actor) db tick ≡ (
        ok tt,
        record db {
          users =
              change_where
                (λ u. u.id == user.id)
                (λ u. record u { deleted_at = some (x.utcnow tick) })
                db.users;
        },
      )
  unfolding with_session delete_user delete save ◌>>=◌
  delete_user_run user_id actor user db tick h known =
      rw h (rw (get_lem user_model) (rw known (rw x.update_lem refl)))

  -- A deletion of another's account succeeds and keeps the row: it only marks the account as
  -- deleted, so that neither its id nor its e-mail leads to it any more.
  pub deleted_is_not_found :
      (user_id : ℕ) (actor user : User) (db : Database x.Float) (tick : ℕ)
      → (user_id == actor.id) ≡ false
      → stored_user user_id db.users ≡ ok (some user)
      → lookup_email user.email db.users ≡ ok (some user)
      → let (r, db') = with_session (delete_user user_id actor) db tick in
        (r ≡ ok tt)
        × (db' ≡ record db {
          users =
              change_where
                (λ u. u.id == user.id)
                (λ u. record u { deleted_at = some (x.utcnow tick) })
                db.users;
        })
        × (stored_user user_id db'.users ≡ ok none)
        × (lookup_email user.email db'.users ≡ ok none)
  unfolding scalar_one_or_none
  deleted_is_not_found user_id actor user db tick h known mail =
      let same = (nat_eq_iff user.id user.id).1 refl in
      rw (delete_user_run user_id actor user db tick h known) (
        refl,
        refl,
        ap scalar_one_or_none (
            filter-change_where_single (λ u. user_is_live u && u.id == user_id)
              (λ u. u.id == user.id) (λ u. record u { deleted_at = some (x.utcnow tick) })
              (λ r. refl) db.users (scalar-eq-some _ known) same),
        ap scalar_one_or_none (
            filter-change_where_single (λ u. user_is_live u && u.email == user.email)
              (λ u. u.id == user.id) (λ u. record u { deleted_at = some (x.utcnow tick) })
              (λ r. refl) db.users (scalar-eq-some _ mail) same),
      )
