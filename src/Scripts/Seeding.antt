-- ===== src/Scripts/Seeding.antt =====
-- What the seeding of the admin leaves.
use text.Mathlib.TextPositions.{eq_refl}
use ats_project_management_b.Prelude.{
  String, [], any, ap, false, filter-append, none, refl, some, string_eq, true, ℕ, ℕ_eq, ◌&&◌, ◌++◌,
  ◌==◌, ◌∷◌, ◌≡◌,
}
use ats_project_management_b.Core.Repository.{scalar_one_or_none}
use ats_project_management_b.Core.Repository.Laws.{add_lem, find_lem, scalar-eq-none}
use ats_project_management_b.Core.Security.{hash_password, or_false, verify_password}
use ats_project_management_b.Core.Session.{ok, ◌>>=◌}
use ats_project_management_b.Models.{Database, User, user_is_live, users_clash}
use ats_project_management_b.Platform.{Platform}
use ats_project_management_b.Scripts.{Seeded, run_script, seed_admin, seed_missing}
use ats_project_management_b.Shared.Enums.{UserRole}
use ats_project_management_b.Users.Lifecycle.{created_row, lookup_email}
use ats_project_management_b.Users.Repository.{add_user, get_by_email}
use ats_project_management_b.Users.Service.{UserCreate}

module _ ⦃x : Platform⦄ (email password full_name hashed : String) (db : Database x.Float)
    (tick : ℕ) where
  abbrev pub as_admin : UserCreate
  as_admin = record {
    email = email;
    password = password;
    full_name = full_name;
    role = UserRole.admin;
  }

  abbrev pub admin_row : User
  admin_row = created_row tick as_admin hashed

  abbrev pub seeded : Database x.Float
  seeded = record db { users = db.users ++ admin_row ∷ [] }

  first_run :
      x.hashpw password tick ≡ some hashed
      → lookup_email email db.users ≡ ok none
      → any (users_clash admin_row) db.users ≡ false
      → run_script (seed_admin email password full_name) db tick
        ≡ (ok (Seeded.created_admin email), seeded)
  unfolding run_script seed_admin seed_missing get_by_email hash_password add_user ◌>>=◌
  first_run hashes free distinct = rw find_lem (rw free (rw hashes (rw add_lem (rw distinct refl))))

  known_after :
      lookup_email email db.users ≡ ok none → lookup_email email seeded.users ≡ ok (some admin_row)
  unfolding scalar_one_or_none
  known_after free =
      rw
        (
          filter-append (λ u. user_is_live u && u.email == email) db.users (admin_row ∷ []),
          scalar-eq-none _ free,
          eq_refl email,
        )
        refl

  later_run :
      (next : ℕ) (other_password other_name : String) (user : User) (db' : Database x.Float)
      → lookup_email email db'.users ≡ ok (some user)
      → run_script (seed_admin email other_password other_name) db' next
        ≡ (ok (Seeded.already_exists email), db')
  unfolding run_script seed_admin seed_missing get_by_email ◌>>=◌
  later_run next other_password other_name user db' known = rw find_lem (rw known refl)

  -- Seeding an e-mail that no live account has, with a password that bcrypt can hash and a row that
  -- clashes with none, stores one active admin with the hash, against which the password verifies,
  -- and nothing else; seeding the e-mail again, whatever
  -- the password and the name, finds the account and changes nothing.
  pub seeding_is_idempotent :
      (next : ℕ) (other_password other_name : String)
      → x.hashpw password tick ≡ some hashed
      → lookup_email email db.users ≡ ok none
      → any (users_clash admin_row) db.users ≡ false
      → (run_script (seed_admin email password full_name) db tick
          ≡ (ok (Seeded.created_admin email), seeded))
        × (lookup_email email seeded.users ≡ ok (some admin_row))
        × (verify_password password admin_row.hashed_password ≡ true)
        × (run_script (seed_admin email other_password other_name) seeded next
            ≡ (ok (Seeded.already_exists email), seeded))
  unfolding verify_password
  seeding_is_idempotent next other_password other_name hashes free distinct = (
    first_run hashes free distinct,
    known_after free,
    ap or_false (x.checkpw_hashpw password hashed tick hashes),
    later_run next other_password other_name admin_row seeded (known_after free),
  )
