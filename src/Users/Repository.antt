-- ===== src/Users/Repository.antt =====
-- app/modules/users/repository.py.

use ats_project_management_b.Prelude.{
  Bool, Option, String, false, none, some, string_eq, true, ℕ_eq, ◌&&◌, ◌<>◌, ◌==◌, ◌||◌,
}
use ats_project_management_b.Core.Constants.{ErrorCode}
use ats_project_management_b.Core.Exceptions.{AppException, Kind, coded}
use ats_project_management_b.Core.Repository.{add, find, query, user_model}
use ats_project_management_b.Core.Session.{Exec, draw, ◌>>=◌}
use ats_project_management_b.Models.{User}
use ats_project_management_b.Platform.{Platform}
use ats_project_management_b.Shared.Enums.{UserRole}
use ats_project_management_b.Shared.Pagination.{Statement, search_term}

abbrev pub duplicate_email : AppException
duplicate_email = coded Kind.conflict "Email already registered" ErrorCode.duplicate_email

module _ ⦃x : Platform⦄ where
  unfoldable pub get_by_email : String → Exec (Option User)
  get_by_email email = find user_model (λ u. u.email == email)

  abbrev pub matches_user : Option String → User → Bool
  matches_user none u = true
  matches_user (some term) u =
      let pattern = "%" <> term <> "%" in x.ilike u.email pattern || x.ilike u.full_name pattern

  unfoldable pub list_query : Option String → Statement User
  list_query search = record {
    where_clause =
        λ u. query (user_model {F = x.Float}) false u && matches_user (search_term search) u;
    ordering = none;
  }

  -- `users.add(User(…))`: the key and the timestamps are filled in as the row is stored.
  unfoldable pub add_user : String → String → String → UserRole → Exec User
  add_user email hashed_password full_name role = do
    id ← draw x.uuid7
    now ← draw x.utcnow
    add user_model (record {
      id = id;
      created_at = now;
      deleted_at = none;
      email = email;
      hashed_password = hashed_password;
      full_name = full_name;
      role = role;
      is_active = true;
    })
