-- ===== src/Projects/Tests.antt =====
-- The theorems on projects at concrete rows of the in-memory platform.
use ats_project_management_b.Prelude.{String, [], none, refl, some, true, ℕ, ◌↔◌, ◌∷◌, ◌≡◌}
use ats_project_management_b.Core.Exceptions.{Exception}
use ats_project_management_b.Core.Repository.{scalar_one_or_none}
use ats_project_management_b.Core.Session.{ok, raised, with_session}
use ats_project_management_b.Models.{Database, Project, ProjectMember, User}
use ats_project_management_b.Platform.Memory.{memory}
use ats_project_management_b.Projects.Access.{IsAllowed, lookup_project, project_access_iff}
use ats_project_management_b.Projects.Membership.{
  CanAdd, added_member_has_access, added_note, app_bus, member_added_once, member_row,
  removed_member_has_no_access,
}
use ats_project_management_b.Projects.Permissions.{not_a_member, project_access}
use ats_project_management_b.Projects.Service.{MemberAdd, add_member, already_member, remove_member}
use ats_project_management_b.Shared.Enums.{MemberRole, ProjectStatus, UserRole}

abbrev person : ℕ → String → UserRole → User
person id email role = record {
  id = id;
  created_at = 0;
  deleted_at = none;
  email = email;
  hashed_password = "";
  full_name = "A Person";
  role = role;
  is_active = true;
}

abbrev ann : User
ann = person 1 "ann@test.com" UserRole.admin

abbrev bob : User
bob = person 2 "bob@test.com" UserRole.employee

abbrev eve : User
eve = person 3 "eve@test.com" UserRole.employee

abbrev hiring : Project
hiring = record {
  id = 10;
  created_at = 0;
  deleted_at = none;
  name = "Hiring";
  description = none;
  status = ProjectStatus.active;
  start_date = none;
  end_date = none;
  created_by = 1;
}

abbrev bob_leads : ProjectMember
bob_leads = record { id = 20; created_at = 0; project_id = 10; user_id = 2; role = MemberRole.lead }

abbrev db : Database ℕ
db = record {
  users = ann ∷ bob ∷ eve ∷ [];
  tokens = [];
  projects = hiring ∷ [];
  members = bob_leads ∷ [];
  tasks = [];
  comments = [];
  files = [];
  notifications = [];
}

project_access_iff_example :
    (with_session (project_access (some MemberRole.lead) 10 bob) db 0 ≡ (ok hiring, db)) ↔ (
      (lookup_project 10 db.projects ≡ ok (some hiring))
      × IsAllowed (some MemberRole.lead) 10 bob db.members)
project_access_iff_example = project_access_iff (some MemberRole.lead) 10 bob hiring db 0

abbrev add_eve : MemberAdd
add_eve = record { user_id = 3; role = MemberRole.contributor }

can_add : CanAdd 10 add_eve db 0 hiring eve
unfolding scalar_one_or_none
can_add = record {
  known = refl;
  existing = refl;
  outside = refl;
  distinct = refl;
  distinct_note = refl;
}

added_member_has_access_example :
    let (r, db') = with_session (add_member app_bus 10 add_eve ann) db 0 in
    (r ≡ ok (member_row 0 10 add_eve))
    × (db' ≡ record db {
      members = bob_leads ∷ member_row 0 10 add_eve ∷ [];
      notifications = added_note 0 hiring add_eve ∷ [];
    })
    × (with_session (project_access none 10 eve) db' 9 ≡ (ok hiring, db'))
added_member_has_access_example =
    added_member_has_access 10 add_eve db 0 hiring eve ann eve 9 can_add refl

abbrev as_lead : MemberAdd
as_lead = record { user_id = 3; role = MemberRole.lead }

member_added_once_example :
    let (r, db') = with_session (add_member app_bus 10 add_eve ann) db 0 in
    (r ≡ ok (member_row 0 10 add_eve))
    × (with_session (add_member app_bus 10 as_lead bob) db' 9
        ≡ (raised (Exception.app already_member), db'))
member_added_once_example =
    member_added_once 10 add_eve db 0 hiring eve ann bob as_lead 9 can_add refl

removed_member_has_no_access_example :
    let (r, db') = with_session (remove_member 10 2) db 0 in
    (r ≡ ok tt)
    × (db' ≡ record db { members = [] })
    × (with_session (project_access none 10 bob) db' 5 ≡ (raised (Exception.app not_a_member), db'))
unfolding scalar_one_or_none
removed_member_has_no_access_example =
    removed_member_has_no_access 10 bob bob_leads hiring none db 0 5 refl refl refl
