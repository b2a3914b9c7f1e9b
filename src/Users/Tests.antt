-- ===== src/Users/Tests.antt =====
-- The theorems on accounts at concrete rows of the in-memory platform.
use ats_project_management_b.Prelude.{String, [], false, none, refl, some, true, ℕ, ◌∷◌, ◌≡◌}
use ats_project_management_b.Auth.Service.{ChangePassword, UserRegister, register}
use ats_project_management_b.Auth.Service.Rotation.{stored_user}
use ats_project_management_b.Core.Config.{default_settings}
use ats_project_management_b.Core.Exceptions.{Exception}
use ats_project_management_b.Core.Repository.{get, save_unique, scalar_one_or_none}
use ats_project_management_b.Core.Security.{enforce_password_policy, verify_password}
use ats_project_management_b.Core.Session.{ok, raised, with_session, ◌>>=◌}
use ats_project_management_b.Models.{Database, User}
use ats_project_management_b.Platform.Memory.{memory}
use ats_project_management_b.Shared.Enums.{UserRole}
use ats_project_management_b.Shared.Fields.{Field, is_set}
use ats_project_management_b.Users.Emails.{created_email_is_taken, with_account}
use ats_project_management_b.Users.Guards.{employee_updates_self}
use ats_project_management_b.Users.Lifecycle.{
  CanCreate, created_is_found, created_row, deleted_is_not_found, lookup_email,
}
use ats_project_management_b.Users.Repository.{duplicate_email, get_by_email}
use ats_project_management_b.Users.Service.{
  UserCreate, UserUpdate, apply_update, create_user, delete_user, email_taken, save_user,
  update_user,
}

abbrev person : ℕ → String → UserRole → User
person id email role = record {
  id = id;
  created_at = 0;
  deleted_at = none;
  email = email;
  hashed_password = "#Passw0rd";
  full_name = "A Person";
  role = role;
  is_active = true;
}

abbrev ann : User
ann = person 1 "ann@test.com" UserRole.admin

abbrev bob : User
bob = person 2 "bob@test.com" UserRole.employee

abbrev people : Database ℕ
people = record {
  users = ann ∷ bob ∷ [];
  tokens = [];
  projects = [];
  members = [];
  tasks = [];
  comments = [];
  files = [];
  notifications = [];
}

abbrev hire : UserCreate
hire = record {
  email = "eve@test.com";
  password = "Passw0rd";
  full_name = "Eve";
  role = UserRole.employee;
}

abbrev rename : UserUpdate
rename = record {
  email = Field.value "robert@test.com";
  full_name = Field.value "Robert";
  is_active = Field.unset;
}

employee_updates_self_example :
    (2 ≡ bob.id)
    × (is_set rename.is_active ≡ false)
    × ((with_session (update_user 2 rename bob) people 0).1 ≡ record people {
      users = ann ∷ record bob { email = "robert@test.com"; full_name = "Robert" } ∷ [];
    })
unfolding update_user email_taken get_by_email save_user scalar_one_or_none save_unique get
    with_session ◌>>=◌
employee_updates_self_example =
    employee_updates_self 2 rename bob (apply_update rename bob) people 0 refl refl

can_create : CanCreate hire "#Passw0rd" default_settings people 0
unfolding scalar_one_or_none enforce_password_policy
can_create = record { hashes = refl; strong = refl; free = refl; distinct = refl }

created_is_found_example :
    let (r, db') = with_session (create_user hire default_settings) people 0 in
    let u = created_row 0 hire "#Passw0rd" in
    (r ≡ ok u)
    × (db' ≡ record people { users = ann ∷ bob ∷ u ∷ [] })
    × (verify_password "Passw0rd" u.hashed_password ≡ true)
    × (lookup_email "eve@test.com" db'.users ≡ ok (some u))
created_is_found_example = created_is_found hire "#Passw0rd" default_settings people 0 can_create

deleted_is_not_found_example :
    let (r, db') = with_session (delete_user 2 ann) people 5 in
    (r ≡ ok tt)
    × (db' ≡ record people { users = ann ∷ record bob { deleted_at = some 5000000 } ∷ [] })
    × (stored_user 2 db'.users ≡ ok none)
    × (lookup_email "bob@test.com" db'.users ≡ ok none)
unfolding scalar_one_or_none
deleted_is_not_found_example = deleted_is_not_found 2 ann bob people 5 refl refl refl

abbrev eves_signup : UserRegister
eves_signup = record { email = "eve@test.com"; password = "Passw0rd"; full_name = "Other" }

abbrev to_eve : UserUpdate
to_eve = record {
  email = Field.value "eve@test.com";
  full_name = Field.unset;
  is_active = Field.unset;
}

created_email_is_taken_example :
    let db' = with_account hire "#Passw0rd" default_settings people 0 in
    (with_session (create_user hire default_settings) people 0
      ≡ (ok (created_row 0 hire "#Passw0rd"), db'))
    × (with_session (register eves_signup default_settings) db' 5
        ≡ (raised (Exception.app duplicate_email), db'))
    × (with_session (create_user hire default_settings) db' 5
        ≡ (raised (Exception.app duplicate_email), db'))
    × (with_session (update_user 2 to_eve bob) db' 5
        ≡ (raised (Exception.app duplicate_email), db'))
unfolding scalar_one_or_none enforce_password_policy
created_email_is_taken_example =
    created_email_is_taken hire "#Passw0rd" default_settings people 0 eves_signup hire to_eve bob
      bob 5 can_create refl refl refl refl (refl, refl) refl refl refl

-- A password of 76 characters.
abbrev long_password : String
long_password = "Passw0rdPassw0rdPassw0rdPassw0rdPassw0rdPassw0rdPassw0rdPassw0rdPassw0rd1234"

abbrev long_hire : UserCreate
long_hire = record hire { password = long_password }

abbrev long_signup : UserRegister
long_signup = record eves_signup { password = long_password }

abbrev long_change : ChangePassword
long_change = record { current_password = "Passw0rd"; new_password = long_password }
