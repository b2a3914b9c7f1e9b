-- ===== src/Api/Tests.antt =====
-- The theorems on the endpoints at concrete requests.
use mathlib.Core.Option
use ats_project_management_b.Prelude.{
  String, [], ap, arith, inr, none, refl, some, suc, true, ℕ, ◌∷◌, ◌≡◌,
}
use ats_project_management_b.Api.Accounts.{
  CanSignUp, logged_in, new_user, registered, sign_up_round_trip,
}
use ats_project_management_b.Api.Admin.{admin_access_required, admin_required_refuses}
use ats_project_management_b.Api.Atomic.{endpoint-IsAtomic}
use ats_project_management_b.Api.Guards.{login_required_refuses}
use ats_project_management_b.Api.Login.{IsRejected, SignedIn}
use ats_project_management_b.Api.Routes.{AppState, Endpoint, route, storage_after}
use ats_project_management_b.Api.Strangers.{IsAbout, IsStranger, IsTaskOf, strangers_refused}
use ats_project_management_b.Auth.Api.{login_body, login_route, me_route, register_route}
use ats_project_management_b.Auth.Dependencies.{bad_token}
use ats_project_management_b.Auth.Service.{UserRegister}
use ats_project_management_b.Auth.Service.Refresh.{opened}
use ats_project_management_b.Auth.Service.Rotation.{new_access, new_token}
use ats_project_management_b.Core.Config.{default_settings}
use ats_project_management_b.Core.Exceptions.{Exception, handle}
use ats_project_management_b.Core.RateLimit.{configure}
use ats_project_management_b.Core.Repository.{scalar_one_or_none}
use ats_project_management_b.Core.Security.{enforce_password_policy}
use ats_project_management_b.Core.Session.{ok}
use ats_project_management_b.Infrastructure.Storage.{StorageBackend, Upload}
use ats_project_management_b.Models.{Database, Project, Task, User}
use ats_project_management_b.Notifications.Atomic.{register_handlers-IsUncommittedBus}
use ats_project_management_b.Notifications.Handlers.{register_handlers}
use ats_project_management_b.Platform.{Claims}
use ats_project_management_b.Platform.Memory.{memory, uuid_text}
use ats_project_management_b.Projects.Permissions.{not_a_member}
use ats_project_management_b.Shared.Enums.{ProjectStatus, TaskPriority, TaskStatus, UserRole}
use ats_project_management_b.Shared.Events.{new_bus}
use ats_project_management_b.Shared.Responses.{Response, created, ok_data, respond}
use ats_project_management_b.Users.Schemas.{user_out}

abbrev user_of : ℕ → String → UserRole → User
user_of id name role = record {
  id = id;
  created_at = 1;
  deleted_at = none;
  email = name;
  hashed_password = "#";
  full_name = name;
  role = role;
  is_active = true;
}

abbrev apollo : Project
apollo = record {
  id = 7;
  created_at = 1;
  deleted_at = none;
  name = "Apollo";
  description = none;
  status = ProjectStatus.active;
  start_date = none;
  end_date = none;
  created_by = 1;
}

abbrev launch : Task ℕ
launch = record {
  id = 11;
  created_at = 1;
  deleted_at = none;
  project_id = 7;
  title = "Launch";
  description = none;
  status = TaskStatus.todo;
  priority = TaskPriority.high;
  assignee_id = none;
  due_date = none;
  position = 1000;
  created_by = 1;
  version = 1;
}

abbrev api_db : Database ℕ
api_db = record {
  users = user_of 1 "Ann" UserRole.admin ∷ user_of 2 "Bob" UserRole.employee ∷ [];
  tokens = [];
  projects = apollo ∷ [];
  members = [];
  tasks = launch ∷ [];
  comments = [];
  files = [];
  notifications = [];
}

-- A storage without files.
abbrev no_storage : StorageBackend ℕ
no_storage = record {
  save = λ key upload limit n. (ok (record { key = "k"; size_bytes = 0 }), suc n);
  remove = λ key n. (ok tt, n);
  local_path = λ key n. none;
}

abbrev api_state : AppState memory ℕ
api_state = record {
  settings = default_settings;
  event_bus = register_handlers new_bus;
  limiter = configure default_settings;
  hits = λ rate. none;
  storage = no_storage;
  stored_files = 0;
}

abbrev claims_of : ℕ → Claims
claims_of id = record {
  sub = some (uuid_text id);
  role = some "employee";
  type = some "access";
  iat = 0;
  exp = 9000000;
}

abbrev bearer : ℕ → Claims × String × String
bearer id = (claims_of id, default_settings.jwt_secret_key, default_settings.jwt_algorithm)

bob-SignedIn :
    SignedIn ⦃x = memory⦄ default_settings (bearer 2) api_db 3 (user_of 2 "Bob" UserRole.employee)
unfolding scalar_one_or_none Option.bind
bob-SignedIn = record {
  claims = claims_of 2;
  decoded = refl;
  subject = refl;
  known = refl;
  active = refl;
}

admin_required_refuses_example :
    respond (route api_state (bearer 2) (Endpoint.delete_project 7)) api_db 3
    ≡ (Response.failed (handle (Exception.app admin_access_required)), api_db)
admin_required_refuses_example =
    admin_required_refuses ⦃x = memory⦄ api_state (bearer 2) api_db 3 (Endpoint.delete_project 7)
      (user_of 2 "Bob" UserRole.employee) refl bob-SignedIn refl

abbrev photo : Upload
photo = record { filename = some "a.png"; content_type = none; content = 1 ∷ 2 ∷ [] }

login_required_refuses_example :
    (respond (route api_state (bearer 2) (Endpoint.upload_file 11 photo)) api_db 10
      ≡ (Response.failed (handle (Exception.app bad_token)), api_db))
    × (storage_after api_state (bearer 2) (Endpoint.upload_file 11 photo) (opened api_db 10) ≡ 0)
login_required_refuses_example =
    login_required_refuses ⦃x = memory⦄ api_state (bearer 2) api_db 10
      (Endpoint.upload_file 11 photo) bad_token refl (IsRejected.no_access_token refl)

bob-IsStranger :
    IsStranger ⦃x = memory⦄ api_state (bearer 2) api_db 3 (user_of 2 "Bob" UserRole.employee) 7
unfolding scalar_one_or_none Option.bind
bob-IsStranger = record {
  signed_in = bob-SignedIn;
  employee = refl;
  project = apollo;
  live = refl;
  no_member = refl;
}

launch-IsTaskOf : IsTaskOf api_db 7 11
unfolding scalar_one_or_none Option.bind
launch-IsTaskOf = record { task = launch; stored_task = refl; of_that = refl }

strangers_refused_example :
    (respond (route api_state (bearer 2) (Endpoint.upload_file 11 photo)) api_db 3
      ≡ (Response.failed (handle (Exception.app not_a_member)), api_db))
    × (storage_after api_state (bearer 2) (Endpoint.upload_file 11 photo) (opened api_db 3) ≡ 0)
strangers_refused_example =
    strangers_refused ⦃x = memory⦄ api_state (bearer 2) api_db 3 (user_of 2 "Bob" UserRole.employee)
      7 bob-IsStranger (Endpoint.upload_file 11 photo)
      (IsAbout.upload_file 11 photo launch-IsTaskOf)

abbrev sign_up : UserRegister
sign_up = record { email = "carl@test.com"; password = "Passw0rd"; full_name = "Carl" }

sign_up-CanSignUp : CanSignUp ⦃x = memory⦄ sign_up "#Passw0rd" default_settings api_db 0 5
unfolding enforce_password_policy scalar_one_or_none
sign_up-CanSignUp = record {
  creates = record { hashes = refl; strong = refl; free = refl; distinct = refl };
  token_distinct = refl;
}

sign_up_round_trip_example :
    let access =
      new_access 6 (new_user sign_up "#Passw0rd" default_settings api_db 0 5) default_settings in
    (respond
        (register_route default_settings (λ rate. none) (configure default_settings) sign_up)
        api_db
        0
      ≡ (
        Response.replied (
            created "Registration successful"
              (user_out (new_user sign_up "#Passw0rd" default_settings api_db 0 5))),
        registered sign_up "#Passw0rd" default_settings api_db 0 5,
      ))
    × (respond
          (login_route default_settings
            (λ rate. none)
            (configure default_settings)
            "carl@test.com"
            "Passw0rd")
          (registered sign_up "#Passw0rd" default_settings api_db 0 5)
          5
        ≡ (
          Response.replied (record {
            status = 200;
            body =
                login_body
                  (access, new_token 6, new_user sign_up "#Passw0rd" default_settings api_db 0 5);
          }),
          logged_in sign_up "#Passw0rd" default_settings api_db 0 5,
        ))
    × (respond
          (me_route default_settings access)
          (logged_in sign_up "#Passw0rd" default_settings api_db 0 5)
          9
        ≡ (
          Response.replied
              (ok_data (user_out (new_user sign_up "#Passw0rd" default_settings api_db 0 5))),
          logged_in sign_up "#Passw0rd" default_settings api_db 0 5,
        ))
sign_up_round_trip_example =
    sign_up_round_trip ⦃x = memory⦄ sign_up "#Passw0rd" default_settings api_db 0 5 (λ rate. none)
      (configure default_settings) 9 sign_up-CanSignUp (inr refl) (omega arith)

endpoint-IsAtomic_example :
    (respond (route api_state (bearer 2) (Endpoint.upload_file 11 photo)) api_db 3).1 ≡ api_db
endpoint-IsAtomic_example =
    endpoint-IsAtomic ⦃x = memory⦄ api_state (bearer 2) register_handlers-IsUncommittedBus
      (Endpoint.upload_file 11 photo) api_db 3 (handle (Exception.app not_a_member)) refl
      (ap (λ o. o.0)
        ((strangers_refused ⦃x = memory⦄ api_state (bearer 2) api_db 3
          (user_of 2 "Bob" UserRole.employee) 7 bob-IsStranger (Endpoint.upload_file 11 photo)
          (IsAbout.upload_file 11 photo launch-IsTaskOf)).0))
