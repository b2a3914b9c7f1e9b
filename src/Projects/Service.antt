-- ===== src/Projects/Service.antt =====
-- `ProjectService` of app/modules/projects/service.py.
use ats_project_management_b.Prelude.{
  Bool, List, Option, String, [], if◌then◌else◌, is_some, leb, none, some, ℕ, ◌||◌, ◌∷◌,
}
use ats_project_management_b.Core.Constants.{ErrorCode}
use ats_project_management_b.Core.Exceptions.{AppException, Exception, Kind, coded, plain}
use ats_project_management_b.Core.Repository.{add, delete, get, project_model, save, user_model}
use ats_project_management_b.Core.Session.{
  Exec, asserted, draw, or_raise, raise, raise_if, ◌>>=◌, ◌>>◌,
}
use ats_project_management_b.Models.{Project, ProjectMember, User}
use ats_project_management_b.Platform.{Platform}
use ats_project_management_b.Projects.Permissions.{project_not_found}
use ats_project_management_b.Projects.Repository.{
  ProjectDetail, delete_member, get_member, get_with_members, insert_member, is_member,
  list_projects_query,
}
use ats_project_management_b.Shared.Enums.{
  MemberRole, ProjectStatus, is_admin, project_status_value,
}
use ats_project_management_b.Shared.Events.{DomainEvent, EventBus, publish}
use ats_project_management_b.Shared.Fields.{Field, is_null, set_field, set_nullable}
use ats_project_management_b.Shared.Pagination.{
  PageParams, PaginationMeta, Statement, apply_sort, paginate,
}
use ats_project_management_b.Users.Service.{user_not_found}

pub record ProjectCreate : Type 0 where
  pub name : String
  pub description : Option String
  pub status : ProjectStatus
  pub start_date : Option ℕ
  pub end_date : Option ℕ

pub record ProjectUpdate : Type 0 where
  pub name : Field String
  pub description : Field String
  pub status : Field ProjectStatus
  pub start_date : Field ℕ
  pub end_date : Field ℕ

pub record MemberAdd : Type 0 where
  pub user_id : ℕ
  pub role : MemberRole

abbrev pub member_not_found : AppException
member_not_found = plain Kind.not_found "Member not found"

abbrev pub already_member : AppException
already_member =
    coded Kind.conflict "User is already a member of this project" ErrorCode.already_member

-- A null in one of the two columns that are NOT NULL fails at the flush.
abbrev pub null_project_columns : ProjectUpdate → Bool
null_project_columns payload = is_null payload.name || is_null payload.status

abbrev pub apply_project_update : ProjectUpdate → Project → Project
apply_project_update payload p = record p {
  name = set_field payload.name p.name;
  description = set_nullable payload.description p.description;
  status = set_field payload.status p.status;
  start_date = set_nullable payload.start_date p.start_date;
  end_date = set_nullable payload.end_date p.end_date;
}

module _ ⦃x : Platform⦄ where
  abbrev pub by_name : Project → Project → Bool
  by_name a b = x.collate a.name b.name

  abbrev pub by_status : Project → Project → Bool
  by_status a b = x.collate (project_status_value a.status) (project_status_value b.status)

  abbrev pub by_start_date : Project → Project → Bool
  by_start_date a b = x.nullable_le a.start_date b.start_date

  abbrev pub by_end_date : Project → Project → Bool
  by_end_date a b = x.nullable_le a.end_date b.end_date

  abbrev pub by_creation : Project → Project → Bool
  by_creation a b = leb a.created_at b.created_at

  -- `None if actor.role == UserRole.admin else actor.id`
  abbrev pub scope_user : User → Option ℕ
  scope_user actor = if is_admin actor.role then none else some actor.id

  -- Without a sort key: the newest first.
  abbrev pub sort_projects : PageParams → Statement Project → Statement Project
  sort_projects params stmt =
      if is_some params.sort
      then apply_sort stmt params
          (("name", by_name)
            ∷ ("status", by_status)
            ∷ ("start_date", by_start_date)
            ∷ ("end_date", by_end_date)
            ∷ ("created_at", by_creation)
            ∷ [])
          by_creation
      else record stmt { ordering = some (λ a b. by_creation b a) }

  unfoldable pub list_projects : User → PageParams → Exec (List Project × PaginationMeta)
  list_projects actor params s =
      paginate project_model
        (sort_projects params
          (list_projects_query s.current.members (scope_user actor) params.search))
        params s

  unfoldable pub get_project_detail : ℕ → Exec ProjectDetail
  get_project_detail project_id = do
    existing ← get_with_members project_id
    or_raise existing project_not_found

  unfoldable pub create_project : ProjectCreate → User → Exec Project
  create_project payload actor = do
    id ← draw x.uuid7
    now ← draw x.utcnow
    add project_model (record {
      id = id;
      created_at = now;
      deleted_at = none;
      name = payload.name;
      description = payload.description;
      status = payload.status;
      start_date = payload.start_date;
      end_date = payload.end_date;
      created_by = actor.id;
    })

  -- The flush of the assignments.
  unfoldable pub save_project : Project → ProjectUpdate → Exec (Unit {0})
  save_project project payload =
      if null_project_columns payload
      then raise Exception.integrity
      else save project_model project (apply_project_update payload)

  unfoldable pub update_project : ℕ → ProjectUpdate → Exec ProjectDetail
  update_project project_id payload = do
    existing ← get project_model project_id
    project ← or_raise existing project_not_found
    save_project project payload
    get_project_detail project_id

  unfoldable pub delete_project : ℕ → Exec (Unit {0})
  delete_project project_id = do
    existing ← get project_model project_id
    project ← or_raise existing project_not_found
    delete project_model project

  unfoldable pub add_member : EventBus → ℕ → MemberAdd → User → Exec ProjectMember
  add_member event_bus project_id payload actor = do
    existing ← get project_model project_id
    project ← or_raise existing project_not_found
    account ← get user_model payload.user_id
    or_raise account user_not_found
    known ← is_member project_id payload.user_id
    raise_if known already_member
    id ← draw x.uuid7
    now ← draw x.utcnow
    insert_member (record {
      id = id;
      created_at = now;
      project_id = project_id;
      user_id = payload.user_id;
      role = payload.role;
    })
    publish event_bus (
        DomainEvent.member_added (record {
          project_id = project_id;
          project_name = project.name;
          user_id = payload.user_id;
          actor_id = actor.id;
        }))
    loaded ← get_member project_id payload.user_id
    asserted loaded

  unfoldable pub remove_member : ℕ → ℕ → Exec (Unit {0})
  remove_member project_id user_id = do
    existing ← get_member project_id user_id
    member ← or_raise existing member_not_found
    delete_member member
