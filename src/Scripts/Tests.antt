-- ===== src/Scripts/Tests.antt =====
-- Seeding an empty database.
use ats_project_management_b.Prelude.{[], none, refl, some, true, ℕ, ◌∷◌, ◌≡◌}
use ats_project_management_b.Core.Repository.{scalar_one_or_none}
use ats_project_management_b.Core.Security.{verify_password}
use ats_project_management_b.Core.Session.{ok}
use ats_project_management_b.Models.{Database, User}
use ats_project_management_b.Platform.Memory.{memory}
use ats_project_management_b.Scripts.{Seeded, run_script, seed_admin}
use ats_project_management_b.Scripts.Seeding.{seeding_is_idempotent}
use ats_project_management_b.Shared.Enums.{UserRole}
use ats_project_management_b.Users.Lifecycle.{lookup_email}

abbrev fresh_db : Database ℕ
fresh_db = record {
  users = [];
  tokens = [];
  projects = [];
  members = [];
  tasks = [];
  comments = [];
  files = [];
  notifications = [];
}

abbrev the_admin : User
the_admin = record {
  id = 1001;
  created_at = 2000000;
  deleted_at = none;
  email = "admin@ats.com";
  hashed_password = "#Admin@12345";
  full_name = "System Administrator";
  role = UserRole.admin;
  is_active = true;
}

seeding_is_idempotent_example :
    (run_script (seed_admin "admin@ats.com" "Admin@12345" "System Administrator") fresh_db 0
      ≡ (ok (Seeded.created_admin "admin@ats.com"), record fresh_db { users = the_admin ∷ [] }))
    × (lookup_email "admin@ats.com" (the_admin ∷ []) ≡ ok (some the_admin))
    × (verify_password "Admin@12345" "#Admin@12345" ≡ true)
    × (run_script
          (seed_admin "admin@ats.com" "Other" "Other")
          (record fresh_db { users = the_admin ∷ [] })
          5
        ≡ (ok (Seeded.already_exists "admin@ats.com"), record fresh_db { users = the_admin ∷ [] }))
unfolding scalar_one_or_none
seeding_is_idempotent_example =
    seeding_is_idempotent ⦃x = memory⦄ "admin@ats.com" "Admin@12345" "System Administrator"
      "#Admin@12345" fresh_db 0 5 "Other" "Other" refl refl refl
