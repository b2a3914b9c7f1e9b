-- ===== src/Api/Strangers.antt =====
-- The endpoints about the contents of one project.
use ats_project_management_b.Prelude.{String, ap, none, not, refl, some, ℕ, ◌+◌, ◌∙◌, ◌≡◌}
use ats_project_management_b.Analytics.Api.{project_analytics_route}
use ats_project_management_b.Api.Login.{SignedIn, current_user_lem, refused}
use ats_project_management_b.Api.Routes.{AppState, Endpoint, route, storage_after}
use ats_project_management_b.Auth.Dependencies.{get_current_user}
use ats_project_management_b.Auth.Service.Refresh.{opened}
use ats_project_management_b.Core.Exceptions.{Exception, handle}
use ats_project_management_b.Core.Repository.{comment_model, file_model, project_model, task_model}
use ats_project_management_b.Core.Repository.Laws.{fetch_lem, get_lem}
use ats_project_management_b.Core.Session.{Exec, ok, raise_if, raised, with_session, ◌>>=◌}
use ats_project_management_b.Infrastructure.Storage.{Upload}
use ats_project_management_b.Models.{Comment, Database, FileAttachment, Project, Task, User}
use ats_project_management_b.Platform.{Platform}
use ats_project_management_b.Projects.Access.{lookup_member, lookup_project}
use ats_project_management_b.Projects.Api.{get_project_route, require_project_view}
use ats_project_management_b.Projects.Permissions.{not_a_member, project_access, require_member}
use ats_project_management_b.Projects.Repository.{get_member, is_member}
use ats_project_management_b.Shared.Enums.{UserRole}
use ats_project_management_b.Shared.Pagination.{PageParams}
use ats_project_management_b.Shared.Responses.{Reply, Response, respond}
use ats_project_management_b.Tasks.Api.{
  accessible_task, create_task_route, delete_task_route, get_task_route, kanban_board_route,
  list_project_tasks_route, may_create, update_task_route, update_task_status_route,
}
use ats_project_management_b.Tasks.Comments.{get_comment, lookup_comment}
use ats_project_management_b.Tasks.CommentsApi.{
  create_comment_route, delete_comment_route, list_comments_route, update_comment_route,
}
use ats_project_management_b.Tasks.Files.{get_attachment}
use ats_project_management_b.Tasks.Files.Roundtrip.{lookup_file}
use ats_project_management_b.Tasks.FilesApi.{
  download_file_route, list_files_route, upload_file_route,
}
use ats_project_management_b.Tasks.Service.{
  TaskCreate, TaskStatusUpdate, TaskUpdate, get_accessible_task, task_access,
}
use ats_project_management_b.Tasks.Versions.{lookup_task}

module _ {F : Type 0} (db : Database F) (project_id : ℕ) where
  -- The task is live and belongs to the project.
  pub record IsTaskOf (task_id : ℕ) : Type 0 where
    pub task : Task F
    pub stored_task : lookup_task task_id db.tasks ≡ ok (some task)
    pub of_that : task.project_id ≡ project_id

  -- What the endpoint reads or changes belongs to the project.
  pub data IsAbout : Endpoint F → Type 0 where
    get_project : IsAbout (Endpoint.get_project project_id)
    list_project_tasks :
        (params : PageParams) → IsAbout (Endpoint.list_project_tasks project_id params)
    kanban_board : IsAbout (Endpoint.kanban_board project_id)
    project_analytics : IsAbout (Endpoint.project_analytics project_id)
    create_task :
        (payload : TaskCreate)
        → payload.project_id ≡ project_id
        → IsAbout (Endpoint.create_task payload)
    get_task : (id : ℕ) → IsTaskOf id → IsAbout (Endpoint.get_task id)
    update_task :
        (id : ℕ) (payload : TaskUpdate) → IsTaskOf id → IsAbout (Endpoint.update_task id payload)
    update_task_status :
        (id : ℕ) (payload : TaskStatusUpdate F)
        → IsTaskOf id
        → IsAbout (Endpoint.update_task_status id payload)
    delete_task : (id : ℕ) → IsTaskOf id → IsAbout (Endpoint.delete_task id)
    list_comments :
        (id : ℕ) (params : PageParams) → IsTaskOf id → IsAbout (Endpoint.list_comments id params)
    create_comment :
        (id : ℕ) (content : String) → IsTaskOf id → IsAbout (Endpoint.create_comment id content)
    update_comment :
        (id : ℕ) (content : String) (c : Comment)
        → lookup_comment id db.comments ≡ ok (some c)
        → IsTaskOf c.task_id
        → IsAbout (Endpoint.update_comment id content)
    delete_comment :
        (id : ℕ) (c : Comment)
        → lookup_comment id db.comments ≡ ok (some c)
        → IsTaskOf c.task_id
        → IsAbout (Endpoint.delete_comment id)
    list_files : (id : ℕ) → IsTaskOf id → IsAbout (Endpoint.list_files id)
    upload_file : (id : ℕ) (file : Upload) → IsTaskOf id → IsAbout (Endpoint.upload_file id file)
    download_file :
        (id : ℕ) (f : FileAttachment)
        → lookup_file id db.files ≡ ok (some f)
        → IsTaskOf f.task_id
        → IsAbout (Endpoint.download_file id)

module _ ⦃x : Platform⦄ {S : Type 0} (app : AppState x S) (token : x.Jwt) (db : Database x.Float)
    (tick : ℕ) (user : User) (project_id : ℕ) where
  -- A signed-in employee who is no member of the live project.
  pub record IsStranger : Type 0 where
    pub signed_in : SignedIn app.settings token db tick user
    pub employee : user.role ≡ UserRole.employee
    pub project : Project
    pub live : lookup_project project_id db.projects ≡ ok (some project)
    pub no_member : lookup_member project_id user.id db.members ≡ ok none

  module _ (s : IsStranger) where
    view_refused :
        require_project_view app.settings token project_id (opened db tick)
        ≡ (raised (Exception.app not_a_member), opened db (tick + 1))
    unfolding require_project_view project_access require_member get_member ◌>>=◌
    view_refused = rw (current_user_lem app.settings token db tick user s.signed_in) (
        rw (get_lem project_model) (rw s.live (rw s.employee (rw fetch_lem (rw s.no_member refl)))))

    no_task_access :
        (id : ℕ)
        → IsTaskOf db project_id id
        → get_accessible_task id user (opened db (tick + 1))
          ≡ (raised (Exception.app not_a_member), opened db (tick + 1))
    unfolding get_accessible_task task_access is_member ◌>>=◌
    no_task_access id t =
        let absent : lookup_member t.task.project_id user.id db.members ≡ ok none =
          ap (λ p. lookup_member p user.id db.members) t.of_that ∙ s.no_member in
        rw (get_lem task_model) (rw t.stored_task (rw s.employee (rw fetch_lem (rw absent refl))))

    task_refused :
        (id : ℕ)
        → IsTaskOf db project_id id
        → accessible_task app.settings token id (opened db tick)
          ≡ (raised (Exception.app not_a_member), opened db (tick + 1))
    unfolding accessible_task ◌>>=◌
    task_refused id t =
        rw (current_user_lem app.settings token db tick user s.signed_in)
          (rw (no_task_access id t) refl)

    at_view :
        {A : Type 0} (f : Project → Exec (Reply A))
        → respond (require_project_view app.settings token project_id >>= f) db tick
          ≡ (Response.failed (handle (Exception.app not_a_member)), db)
    at_view f = refused _ f db tick _ _ view_refused refl

    at_task :
        {A : Type 0} (id : ℕ) (f : Task x.Float × User → Exec (Reply A))
        → IsTaskOf db project_id id
        → respond (accessible_task app.settings token id >>= f) db tick
          ≡ (Response.failed (handle (Exception.app not_a_member)), db)
    at_task id f t = refused _ f db tick _ _ (task_refused id t) refl

    at_creation :
        {A : Type 0} (payload : TaskCreate) (f : User → Exec (Reply A))
        → payload.project_id ≡ project_id
        → respond
            (get_current_user token app.settings >>= λ actor.
              may_create actor payload.project_id >>= λ allowed.
              raise_if (not allowed) not_a_member >>= λ _. f actor)
            db
            tick
          ≡ (Response.failed (handle (Exception.app not_a_member)), db)
    unfolding respond with_session may_create is_member ◌>>=◌
    at_creation payload f e =
        let absent : lookup_member payload.project_id user.id db.members ≡ ok none =
          ap (λ p. lookup_member p user.id db.members) e ∙ s.no_member in
        rw (current_user_lem app.settings token db tick user s.signed_in)
          (rw s.employee (rw fetch_lem (rw absent refl)))

    at_comment :
        {A : Type 0} (id : ℕ) (c : Comment) (f : User → Comment → Task x.Float → Exec (Reply A))
        → lookup_comment id db.comments ≡ ok (some c)
        → IsTaskOf db project_id c.task_id
        → respond
            (get_current_user token app.settings >>= λ actor. get_comment id >>= λ comment.
              get_accessible_task comment.task_id actor >>= λ t. f actor comment t)
            db
            tick
          ≡ (Response.failed (handle (Exception.app not_a_member)), db)
    unfolding respond with_session get_comment ◌>>=◌
    at_comment id c f known t =
        rw (current_user_lem app.settings token db tick user s.signed_in)
          (rw (get_lem comment_model) (rw known (rw (no_task_access c.task_id t) refl)))

    at_file :
        {A : Type 0} (id : ℕ) (a : FileAttachment)
        (f : User → FileAttachment → Task x.Float → Exec (Reply A))
        → lookup_file id db.files ≡ ok (some a)
        → IsTaskOf db project_id a.task_id
        → respond
            (get_current_user token app.settings >>= λ actor. get_attachment id >>= λ attachment.
              get_accessible_task attachment.task_id actor >>= λ t. f actor attachment t)
            db
            tick
          ≡ (Response.failed (handle (Exception.app not_a_member)), db)
    unfolding respond with_session get_attachment ◌>>=◌
    at_file id a f known t =
        rw (current_user_lem app.settings token db tick user s.signed_in)
          (rw (get_lem file_model) (rw known (rw (no_task_access a.task_id t) refl)))

    upload_checked_lem :
        (id : ℕ) (file : Upload)
        → IsTaskOf db project_id id
        → upload_file_route app.settings token app.storage id file app.stored_files (opened db tick)
          ≡ ((raised (Exception.app not_a_member), opened db (tick + 1)), app.stored_files)
    unfolding upload_file_route
    upload_checked_lem id file t = rw (task_refused id t) refl

    at_upload :
        (id : ℕ) (file : Upload)
        → IsTaskOf db project_id id
        → respond
            (λ s. (upload_file_route app.settings token app.storage id file app.stored_files s).0)
            db
            tick
          ≡ (Response.failed (handle (Exception.app not_a_member)), db)
    unfolding respond with_session
    at_upload id file t = rw (upload_checked_lem id file t) refl

    storage_kept :
        (c : Endpoint x.Float)
        → IsAbout db project_id c
        → storage_after app token c (opened db tick) ≡ app.stored_files
    storage_kept c IsAbout.get_project = refl
    storage_kept c (IsAbout.list_project_tasks params) = refl
    storage_kept c IsAbout.kanban_board = refl
    storage_kept c IsAbout.project_analytics = refl
    storage_kept c (IsAbout.create_task payload e) = refl
    storage_kept c (IsAbout.get_task id t) = refl
    storage_kept c (IsAbout.update_task id payload t) = refl
    storage_kept c (IsAbout.update_task_status id payload t) = refl
    storage_kept c (IsAbout.delete_task id t) = refl
    storage_kept c (IsAbout.list_comments id params t) = refl
    storage_kept c (IsAbout.create_comment id content t) = refl
    storage_kept c (IsAbout.update_comment id content k h t) = refl
    storage_kept c (IsAbout.delete_comment id k h t) = refl
    storage_kept c (IsAbout.list_files id t) = refl
    storage_kept c (IsAbout.upload_file id file t) = ap (λ o. o.1) (upload_checked_lem id file t)
    storage_kept c (IsAbout.download_file id f h t) = refl

    route_refused :
        (c : Endpoint x.Float)
        → IsAbout db project_id c
        → respond (route app token c) db tick
          ≡ (Response.failed (handle (Exception.app not_a_member)), db)
    unfolding route get_project_route list_project_tasks_route kanban_board_route
        project_analytics_route create_task_route get_task_route update_task_route
        update_task_status_route delete_task_route list_comments_route create_comment_route
        update_comment_route delete_comment_route list_files_route download_file_route
    route_refused c IsAbout.get_project = at_view _
    route_refused c (IsAbout.list_project_tasks params) = at_view _
    route_refused c IsAbout.kanban_board = at_view _
    route_refused c IsAbout.project_analytics = at_view _
    route_refused c (IsAbout.create_task payload e) = at_creation payload _ e
    route_refused c (IsAbout.get_task id t) = at_task id _ t
    route_refused c (IsAbout.update_task id payload t) = at_task id _ t
    route_refused c (IsAbout.update_task_status id payload t) = at_task id _ t
    route_refused c (IsAbout.delete_task id t) = at_task id _ t
    route_refused c (IsAbout.list_comments id params t) = at_task id _ t
    route_refused c (IsAbout.create_comment id content t) = at_task id _ t
    route_refused c (IsAbout.update_comment id content k h t) = at_comment id k _ h t
    route_refused c (IsAbout.delete_comment id k h t) = at_comment id k _ h t
    route_refused c (IsAbout.list_files id t) = at_task id _ t
    route_refused c (IsAbout.upload_file id file t) = at_upload id file t
    route_refused c (IsAbout.download_file id f h t) = at_file id f _ h t

    -- Whatever endpoint about a live project a signed-in employee calls who is no member of it (its
    -- detail, its tasks and board, its analytics, a task of it, the comments on such a task and its
    -- files, uploads included), the answer is 403, and neither the database nor the storage of the
    -- files is changed.
    pub strangers_refused :
        (c : Endpoint x.Float)
        → IsAbout db project_id c
        → (respond (route app token c) db tick
            ≡ (Response.failed (handle (Exception.app not_a_member)), db))
          × (storage_after app token c (opened db tick) ≡ app.stored_files)
    strangers_refused c h = (route_refused c h, storage_kept c h)
