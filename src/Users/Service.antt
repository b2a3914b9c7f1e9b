-- ===== src/Users/Service.antt =====
-- `UserService` of app/modules/users/service.py.
use ats_project_management_b.Prelude.{
  Bool, List, String, [], false, if◌then◌else◌, is_some, leb, not, string_eq, ℕ, ℕ_eq, ◌&&◌, ◌==◌,
  ◌||◌, ◌∷◌,
}
use ats_project_management_b.Core.Config.{Settings}
use ats_project_management_b.Core.Exceptions.{AppException, Exception, Kind, plain}
use ats_project_management_b.Core.Repository.{delete, get, save, save_unique, user_model}
use ats_project_management_b.Core.Security.{enforce_password_policy, hash_password}
use ats_project_management_b.Core.Session.{Exec, lift, or_raise, pure, raise, raise_if, ◌>>=◌, ◌>>◌}
use ats_project_management_b.Models.{User}
use ats_project_management_b.Platform.{Platform}
use ats_project_management_b.Shared.Enums.{UserRole, is_admin, role_value}
use ats_project_management_b.Shared.Fields.{Field, is_null, is_set, set_field}
use ats_project_management_b.Shared.Pagination.{PageParams, PaginationMeta, apply_sort, paginate}
use ats_project_management_b.Users.Repository.{add_user, duplicate_email, get_by_email, list_query}

pub record UserCreate : Type 0 where
  pub email : String
  pub password : String
  pub full_name : String
  pub role : UserRole

pub record UserUpdate : Type 0 where
  pub email : Field String
  pub full_name : Field String
  pub is_active : Field Bool

-- A null in one of the three columns, all NOT NULL, fails at the flush.
abbrev pub null_columns : UserUpdate → Bool
null_columns payload =
    is_null payload.email || is_null payload.full_name || is_null payload.is_active

abbrev pub apply_update : UserUpdate → User → User
apply_update payload u = record u {
  email = set_field payload.email u.email;
  full_name = set_field payload.full_name u.full_name;
  is_active = set_field payload.is_active u.is_active;
}

-- `actor.role != UserRole.admin and actor.id != user_id`
abbrev pub is_stranger : User → ℕ → Bool
is_stranger actor user_id = not (is_admin actor.role) && not (actor.id == user_id)

abbrev pub only_view : AppException
only_view = plain Kind.forbidden "You can only view your own profile"

abbrev pub only_update : AppException
only_update = plain Kind.forbidden "You can only update your own profile"

abbrev pub only_admins : AppException
only_admins = plain Kind.forbidden "Only admins can change account status"

abbrev pub no_self_delete : AppException
no_self_delete = plain Kind.forbidden "You cannot delete your own account"

abbrev pub user_not_found : AppException
user_not_found = plain Kind.not_found "User not found"

module _ ⦃x : Platform⦄ where
  abbrev pub by_email : User → User → Bool
  by_email a b = x.collate a.email b.email

  abbrev pub by_full_name : User → User → Bool
  by_full_name a b = x.collate a.full_name b.full_name

  abbrev pub by_created_at : User → User → Bool
  by_created_at a b = leb a.created_at b.created_at

  abbrev pub by_role : User → User → Bool
  by_role a b = x.collate (role_value a.role) (role_value b.role)

  unfoldable pub list_users : PageParams → Exec (List User × PaginationMeta)
  list_users params =
      paginate user_model
        (apply_sort (list_query params.search) params
          (("email", by_email)
            ∷ ("full_name", by_full_name)
            ∷ ("created_at", by_created_at)
            ∷ ("role", by_role)
            ∷ [])
          by_created_at)
        params

  unfoldable pub get_user : ℕ → User → Exec User
  get_user user_id actor = do
    raise_if (is_stranger actor user_id) only_view
    existing ← get user_model user_id
    or_raise existing user_not_found

  unfoldable pub create_user : UserCreate → Settings → Exec User
  create_user payload settings = do
    lift (enforce_password_policy payload.password settings)
    existing ← get_by_email payload.email
    raise_if (is_some existing) duplicate_email
    hashed ← hash_password payload.password
    add_user payload.email hashed payload.full_name payload.role

  -- Whether the e-mail is set to another one, and another account has it. No account has a null.
  unfoldable pub email_taken : Field String → User → Exec Bool
  email_taken Field.unset user = pure false
  email_taken Field.null user = pure false
  email_taken (Field.value email) user =
      if email == user.email
      then pure false
      else (get_by_email email >>= λ existing. pure (is_some existing))

  -- The flush of the assignments.
  unfoldable pub save_user : User → UserUpdate → Exec (Unit {0})
  save_user user payload =
      if null_columns payload
      then raise Exception.integrity
      else save_unique user_model user (apply_update payload)

  unfoldable pub update_user : ℕ → UserUpdate → User → Exec User
  update_user user_id payload actor = do
    raise_if (is_stranger actor user_id) only_update
    existing ← get user_model user_id
    user ← or_raise existing user_not_found
    raise_if (is_set payload.is_active && not (is_admin actor.role)) only_admins
    taken ← email_taken payload.email user
    raise_if taken duplicate_email
    save_user user payload
    pure (apply_update payload user)

  unfoldable pub update_role : ℕ → UserRole → Exec User
  update_role user_id role = do
    existing ← get user_model user_id
    user ← or_raise existing user_not_found
    save user_model user (λ u. record u { role = role })
    pure (record user { role = role })

  unfoldable pub delete_user : ℕ → User → Exec (Unit {0})
  delete_user user_id actor = do
    raise_if (user_id == actor.id) no_self_delete
    existing ← get user_model user_id
    user ← or_raise existing user_not_found
    delete user_model user
