-- ===== src/Auth/Tests.antt =====
-- The theorems on tokens at concrete rows of the in-memory platform.
use ats_project_management_b.Prelude.{
  Bool, String, [], arith, count, false, inr, none, refl, some, true, ℕ, ◌++◌, ◌↔◌, ◌∷◌, ◌≡◌,
}
use ats_project_management_b.Auth.Dependencies.{get_current_user}
use ats_project_management_b.Auth.Repository.{open_in_family}
use ats_project_management_b.Auth.Service.{
  ChangePassword, bad_credentials, change_password, login, logout, refresh, reuse_detected,
}
use ats_project_management_b.Auth.Service.Refresh.{
  FamilyRevoked, reuse_revokes_family, stored_token,
}
use ats_project_management_b.Auth.Service.Rotation.{
  CanRotate, new_access, new_row, new_token, refresh_rotates, replay_ends_family,
}
use ats_project_management_b.Auth.Service.Sessions.{
  CanLogin, access_authenticates, change_password_ends_sessions, login_opens_family, login_refuses,
  logout_revokes,
}
use ats_project_management_b.Core.Config.{default_settings}
use ats_project_management_b.Core.Exceptions.{Exception}
use ats_project_management_b.Core.Repository.{scalar_one_or_none}
use ats_project_management_b.Core.Security.{enforce_password_policy, verify_password}
use ats_project_management_b.Core.Security.Policy.{IsStrong, enforce_password_policy_iff}
use ats_project_management_b.Core.Session.{ok, raised, with_session}
use ats_project_management_b.Models.{Database, RefreshToken, User}
use ats_project_management_b.Platform.Memory.{memory}
use ats_project_management_b.Shared.Enums.{UserRole}

abbrev ann : User
ann = record {
  id = 1;
  created_at = 0;
  deleted_at = none;
  email = "ann@test.com";
  hashed_password = "#Passw0rd";
  full_name = "Ann";
  role = UserRole.employee;
  is_active = true;
}

abbrev token_row : ℕ → String → Bool → RefreshToken
token_row id hash revoked = record {
  id = id;
  created_at = 0;
  token_hash = hash;
  user_id = 1;
  family_id = 7;
  expires_at = 90000000000;
  revoked = revoked;
  replaced_by_id = none;
}

abbrev db : Database ℕ
db = record {
  users = ann ∷ [];
  tokens = token_row 1 "#first" true ∷ token_row 2 "#second" false ∷ [];
  projects = [];
  members = [];
  tasks = [];
  comments = [];
  files = [];
  notifications = [];
}

reuse_revokes_family_example :
    let (r, db') = with_session (refresh "first" default_settings) db 0 in
    (r ≡ raised (Exception.app reuse_detected)) × FamilyRevoked 7 db db'
unfolding scalar_one_or_none
reuse_revokes_family_example =
    reuse_revokes_family "first" default_settings db 0 (token_row 1 "#first" true) refl refl

can_rotate : CanRotate "second" default_settings db 3 (token_row 2 "#second" false) ann
unfolding scalar_one_or_none
can_rotate = record {
  known = refl;
  open_row = refl;
  unexpired = omega arith;
  owner = refl;
  active = refl;
  distinct = refl;
}

refresh_rotates_example :
    let (r, db') = with_session (refresh "second" default_settings) db 3 in
    (r ≡ ok (new_access 4 ann default_settings, new_token 4))
    × (stored_token "second" db'.tokens
        ≡ ok (
            some (record (token_row 2 "#second" false) {
              revoked = true;
              replaced_by_id = some 1008;
            })))
    × (stored_token (new_token 4) db'.tokens ≡ ok (some (new_row 4 1 7 default_settings)))
    × (record db' { tokens = db.tokens } ≡ db)
refresh_rotates_example =
    refresh_rotates "second" default_settings db 3 (token_row 2 "#second" false) ann can_rotate

replay_ends_family_example :
    let (_, db') = with_session (refresh "second" default_settings) db 3 in
    let (r, db'') = with_session (refresh "second" default_settings) db' 20 in
    (r ≡ raised (Exception.app reuse_detected))
    × (count (open_in_family 7) db''.tokens ≡ 0)
    × ((with_session (refresh (new_token 4) default_settings) db'' 30).0
        ≡ raised (Exception.app reuse_detected))
replay_ends_family_example =
    replay_ends_family "second" default_settings db 3 (token_row 2 "#second" false) ann can_rotate
      20 30

login_refuses_example :
    with_session (login "ann@test.com" "guess" default_settings) db 0
    ≡ (raised (Exception.app bad_credentials), db)
unfolding scalar_one_or_none verify_password
login_refuses_example =
    login_refuses "ann@test.com" "guess" default_settings db 0 (inr (ann, refl, refl))

can_login : CanLogin "ann@test.com" "Passw0rd" default_settings db 0 ann
unfolding scalar_one_or_none verify_password
can_login = record { known = refl; matches = refl; active = refl; distinct = refl }

login_opens_family_example :
    let (r, db') = with_session (login "ann@test.com" "Passw0rd" default_settings) db 0 in
    (r ≡ ok (new_access 1 ann default_settings, new_token 1, ann))
    × (stored_token (new_token 1) db'.tokens ≡ ok (some (new_row 1 1 1000 default_settings)))
    × (db' ≡ record db { tokens = db.tokens ++ new_row 1 1 1000 default_settings ∷ [] })
login_opens_family_example =
    login_opens_family "ann@test.com" "Passw0rd" default_settings db 0 ann can_login

access_authenticates_example :
    with_session (get_current_user (new_access 1 ann default_settings) default_settings) db 9
    ≡ (ok ann, db)
unfolding scalar_one_or_none
access_authenticates_example =
    access_authenticates 1 default_settings ann db 9 refl refl (omega arith)

abbrev new_passwords : ChangePassword
new_passwords = record { current_password = "Passw0rd"; new_password = "N3wPassword" }

change_password_ends_sessions_example :
    let (r, db') = with_session (change_password ann new_passwords default_settings) db 0 in
    (r ≡ ok tt)
    × (db'.users ≡ record ann { hashed_password = "#N3wPassword" } ∷ [])
    × (verify_password "N3wPassword" "#N3wPassword" ≡ true)
    × ((token : String) (row : RefreshToken)
        → stored_token token db'.tokens ≡ ok (some row)
        → row.user_id ≡ 1
        → (with_session (refresh token default_settings) db' 5).0
          ≡ raised (Exception.app reuse_detected))
unfolding verify_password enforce_password_policy
change_password_ends_sessions_example =
    change_password_ends_sessions ann new_passwords "#N3wPassword" default_settings db 0 5 refl refl
      refl

logout_revokes_example :
    let (r, db') = with_session (logout "second") db 0 in
    (r ≡ ok tt)
    × (db'.tokens ≡ token_row 1 "#first" true ∷ token_row 2 "#second" true ∷ [])
    × ((with_session (refresh "second" default_settings) db' 5).0
        ≡ raised (Exception.app reuse_detected))
unfolding scalar_one_or_none
logout_revokes_example =
    logout_revokes "second" default_settings db 0 5 (token_row 2 "#second" false) refl refl

enforce_password_policy_iff_example :
    (enforce_password_policy "Passw0rd" default_settings ≡ ok tt)
    ↔ IsStrong "Passw0rd" default_settings
enforce_password_policy_iff_example = enforce_password_policy_iff "Passw0rd" default_settings
