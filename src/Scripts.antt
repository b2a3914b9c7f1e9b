-- ===== src/Scripts.antt =====
-- scripts/seed_admin.py: the initial admin account.
pub mod Seeding
pub mod Tests
use ats_project_management_b.Prelude.{List, Option, String, [], none, some, ℕ, ◌∷◌}
use ats_project_management_b.Core.Security.{hash_password}
use ats_project_management_b.Core.Session.{Exec, Result, commit, pure, ◌>>=◌, ◌>>◌}
use ats_project_management_b.Models.{Database, User}
use ats_project_management_b.Platform.{Platform}
use ats_project_management_b.Shared.Enums.{UserRole}
use ats_project_management_b.Users.Repository.{add_user, get_by_email}

module _ ⦃x : Platform⦄ where
  -- The text that is printed.
  pub data Seeded : Type 0 where
    already_exists : String → Seeded
    created_admin : String → Seeded

  -- The rest of `main` after the lookup.
  unfoldable pub seed_missing : String → String → String → Option User → Exec Seeded
  seed_missing email password full_name (some user) = pure (Seeded.already_exists email)
  seed_missing email password full_name none = do
    hashed ← hash_password password
    add_user email hashed full_name UserRole.admin
    commit
    pure (Seeded.created_admin email)

  -- `main`, given its arguments or their defaults.
  unfoldable pub seed_admin : String → String → String → Exec Seeded
  seed_admin email password full_name = do
    existing ← get_by_email email
    seed_missing email password full_name existing

  -- `sys.argv[1] if len(sys.argv) > 1 else "admin@ats.com"`, and so on.
  unfoldable pub main : List String → Exec Seeded
  unfolding seed_admin
  main [] = seed_admin "admin@ats.com" "Admin@12345" "System Administrator"
  main (email ∷ []) = seed_admin email "Admin@12345" "System Administrator"
  main (email ∷ password ∷ []) = seed_admin email password "System Administrator"
  main (email ∷ password ∷ full_name ∷ rest) = seed_admin email password full_name

  -- A session that is left without a commit keeps what was committed only.
  unfoldable pub run_script :
      {A : Type 0} → Exec A → Database x.Float → ℕ → Result A × Database x.Float
  run_script m db tick =
      let (r, s) = m (record { committed = db; current = db; tick = tick }) in (r, s.committed)
