-- ===== src/Api/Routes.antt =====
-- The routers that `create_app` of app/main.py includes, as one type of calls. The upload of a file
-- is the one call that changes the storage, which `storage_after` gives.
use ats_project_management_b.Prelude.{List, Option, String, none, some, ℕ}
use ats_project_management_b.Analytics.Api.{dashboard_route, project_analytics_route}
use ats_project_management_b.Analytics.Service.{DashboardReport, ProjectAnalytics}
use ats_project_management_b.Auth.Api.{
  LoginResponse, TokenPair, change_password_route, login_route, logout_route, me_route,
  refresh_route, register_route,
}
use ats_project_management_b.Auth.Service.{ChangePassword, UserRegister}
use ats_project_management_b.Core.Config.{Settings}
use ats_project_management_b.Core.RateLimit.{Limiter}
use ats_project_management_b.Core.Session.{Exec, Session}
use ats_project_management_b.Infrastructure.Storage.{StorageBackend, Upload}
use ats_project_management_b.Models.{
  Comment, FileAttachment, Notification, Project, ProjectMember, Task,
}
use ats_project_management_b.Notifications.Api.{
  list_notifications_route, mark_all_read_route, mark_read_route,
}
use ats_project_management_b.Platform.{Platform}
use ats_project_management_b.Projects.Api.{
  add_member_route, create_project_route, delete_project_route, get_project_route,
  list_projects_route, remove_member_route, update_project_route,
}
use ats_project_management_b.Projects.Repository.{ProjectDetail}
use ats_project_management_b.Projects.Service.{MemberAdd, ProjectCreate, ProjectUpdate}
use ats_project_management_b.Shared.Enums.{UserRole}
use ats_project_management_b.Shared.Events.{EventBus}
use ats_project_management_b.Shared.Pagination.{PageParams}
use ats_project_management_b.Shared.Responses.{ApiResponse, Reply}
use ats_project_management_b.Tasks.Api.{
  create_task_route, delete_task_route, get_task_route, kanban_board_route,
  list_project_tasks_route, update_task_route, update_task_status_route,
}
use ats_project_management_b.Tasks.CommentsApi.{
  create_comment_route, delete_comment_route, list_comments_route, update_comment_route,
}
use ats_project_management_b.Tasks.FilesApi.{
  FileResponse, download_file_route, list_files_route, upload_file_route,
}
use ats_project_management_b.Tasks.Service.{Board, TaskCreate, TaskStatusUpdate, TaskUpdate}
use ats_project_management_b.Users.Api.{
  create_user_route, delete_user_route, get_user_route, list_users_route, update_role_route,
  update_user_route,
}
use ats_project_management_b.Users.Schemas.{UserOut}
use ats_project_management_b.Users.Service.{UserCreate, UserUpdate}

-- An endpoint with its path parameters and its body.
pub data Endpoint (F : Type 0) : Type 0 where
  register : UserRegister → Endpoint F
  login : String → String → Endpoint F
  refresh : String → Endpoint F
  logout : String → Endpoint F
  me : Endpoint F
  change_password : ChangePassword → Endpoint F
  list_users : PageParams → Endpoint F
  create_user : UserCreate → Endpoint F
  get_user : ℕ → Endpoint F
  update_user : ℕ → UserUpdate → Endpoint F
  update_role : ℕ → UserRole → Endpoint F
  delete_user : ℕ → Endpoint F
  list_projects : PageParams → Endpoint F
  create_project : ProjectCreate → Endpoint F
  get_project : ℕ → Endpoint F
  update_project : ℕ → ProjectUpdate → Endpoint F
  delete_project : ℕ → Endpoint F
  add_member : ℕ → MemberAdd → Endpoint F
  remove_member : ℕ → ℕ → Endpoint F
  list_project_tasks : ℕ → PageParams → Endpoint F
  kanban_board : ℕ → Endpoint F
  create_task : TaskCreate → Endpoint F
  get_task : ℕ → Endpoint F
  update_task : ℕ → TaskUpdate → Endpoint F
  update_task_status : ℕ → TaskStatusUpdate F → Endpoint F
  delete_task : ℕ → Endpoint F
  list_comments : ℕ → PageParams → Endpoint F
  create_comment : ℕ → String → Endpoint F
  update_comment : ℕ → String → Endpoint F
  delete_comment : ℕ → Endpoint F
  list_files : ℕ → Endpoint F
  upload_file : ℕ → Upload → Endpoint F
  download_file : ℕ → Endpoint F
  list_notifications : PageParams → Endpoint F
  mark_read : ℕ → Endpoint F
  mark_all_read : Endpoint F
  dashboard : Endpoint F
  project_analytics : ℕ → Endpoint F

-- What the routes take from `app.state`, with the limiter's answers and the state of the storage.
pub record AppState (x : Platform) (S : Type 0) : Type 0 where
  pub settings : Settings
  pub event_bus : EventBus ⦃x = x⦄
  pub limiter : Limiter
  pub hits : String → Option String
  pub storage : StorageBackend S
  pub stored_files : S

-- What a call gives the storage to save.
abbrev pub upload_of : {F : Type 0} → Endpoint F → Option (ℕ × Upload)
upload_of (Endpoint.upload_file task_id upload) = some (task_id, upload)
upload_of c = none

module _ ⦃x : Platform⦄ where
  -- The body of a successful response.
  abbrev pub Body : Endpoint x.Float → Type 0
  Body (Endpoint.register payload) = ApiResponse UserOut
  Body (Endpoint.login username password) = LoginResponse x.Jwt
  Body (Endpoint.refresh refresh_token) = ApiResponse (TokenPair x.Jwt)
  Body (Endpoint.logout refresh_token) = Unit
  Body Endpoint.me = ApiResponse UserOut
  Body (Endpoint.change_password payload) = Unit
  Body (Endpoint.list_users params) = ApiResponse (List UserOut)
  Body (Endpoint.create_user payload) = ApiResponse UserOut
  Body (Endpoint.get_user user_id) = ApiResponse UserOut
  Body (Endpoint.update_user user_id payload) = ApiResponse UserOut
  Body (Endpoint.update_role user_id role) = ApiResponse UserOut
  Body (Endpoint.delete_user user_id) = Unit
  Body (Endpoint.list_projects params) = ApiResponse (List Project)
  Body (Endpoint.create_project payload) = ApiResponse Project
  Body (Endpoint.get_project project_id) = ApiResponse ProjectDetail
  Body (Endpoint.update_project project_id payload) = ApiResponse ProjectDetail
  Body (Endpoint.delete_project project_id) = Unit
  Body (Endpoint.add_member project_id payload) = ApiResponse ProjectMember
  Body (Endpoint.remove_member project_id user_id) = Unit
  Body (Endpoint.list_project_tasks project_id params) = ApiResponse (List (Task x.Float))
  Body (Endpoint.kanban_board project_id) = ApiResponse Board
  Body (Endpoint.create_task payload) = ApiResponse (Task x.Float)
  Body (Endpoint.get_task task_id) = ApiResponse (Task x.Float)
  Body (Endpoint.update_task task_id payload) = ApiResponse (Task x.Float)
  Body (Endpoint.update_task_status task_id payload) = ApiResponse (Task x.Float)
  Body (Endpoint.delete_task task_id) = Unit
  Body (Endpoint.list_comments task_id params) = ApiResponse (List Comment)
  Body (Endpoint.create_comment task_id content) = ApiResponse Comment
  Body (Endpoint.update_comment comment_id content) = ApiResponse Comment
  Body (Endpoint.delete_comment comment_id) = Unit
  Body (Endpoint.list_files task_id) = ApiResponse (List FileAttachment)
  Body (Endpoint.upload_file task_id upload) = ApiResponse FileAttachment
  Body (Endpoint.download_file file_id) = FileResponse
  Body (Endpoint.list_notifications params) = ApiResponse (List Notification)
  Body (Endpoint.mark_read notification_id) = ApiResponse Notification
  Body Endpoint.mark_all_read = Unit
  Body Endpoint.dashboard = ApiResponse (DashboardReport x.Float)
  Body (Endpoint.project_analytics project_id) = ApiResponse (ProjectAnalytics x.Float)

  module _ {S : Type 0} (app : AppState x S) (token : x.Jwt) where
    -- The route of an endpoint, for a request with a bearer token.
    unfoldable pub route : (c : Endpoint x.Float) → Exec (Reply (Body c))
    route (Endpoint.register payload) = register_route app.settings app.hits app.limiter payload
    route (Endpoint.login username password) =
        login_route app.settings app.hits app.limiter username password
    route (Endpoint.refresh refresh_token) =
        refresh_route app.settings app.hits app.limiter refresh_token
    route (Endpoint.logout refresh_token) = logout_route app.settings refresh_token
    route Endpoint.me = me_route app.settings token
    route (Endpoint.change_password payload) = change_password_route app.settings token payload
    route (Endpoint.list_users params) = list_users_route app.settings token params
    route (Endpoint.create_user payload) = create_user_route app.settings token payload
    route (Endpoint.get_user user_id) = get_user_route app.settings token user_id
    route (Endpoint.update_user user_id payload) =
        update_user_route app.settings token user_id payload
    route (Endpoint.update_role user_id role) = update_role_route app.settings token user_id role
    route (Endpoint.delete_user user_id) = delete_user_route app.settings token user_id
    route (Endpoint.list_projects params) = list_projects_route app.settings token params
    route (Endpoint.create_project payload) = create_project_route app.settings token payload
    route (Endpoint.get_project project_id) = get_project_route app.settings token project_id
    route (Endpoint.update_project project_id payload) =
        update_project_route app.settings token project_id payload
    route (Endpoint.delete_project project_id) = delete_project_route app.settings token project_id
    route (Endpoint.add_member project_id payload) =
        add_member_route app.settings token app.event_bus project_id payload
    route (Endpoint.remove_member project_id user_id) =
        remove_member_route app.settings token project_id user_id
    route (Endpoint.list_project_tasks project_id params) =
        list_project_tasks_route app.settings token project_id params
    route (Endpoint.kanban_board project_id) = kanban_board_route app.settings token project_id
    route (Endpoint.create_task payload) =
        create_task_route app.settings token app.event_bus payload
    route (Endpoint.get_task task_id) = get_task_route app.settings token task_id
    route (Endpoint.update_task task_id payload) =
        update_task_route app.settings token app.event_bus task_id payload
    route (Endpoint.update_task_status task_id payload) =
        update_task_status_route app.settings token task_id payload
    route (Endpoint.delete_task task_id) = delete_task_route app.settings token task_id
    route (Endpoint.list_comments task_id params) =
        list_comments_route app.settings token task_id params
    route (Endpoint.create_comment task_id content) =
        create_comment_route app.settings token task_id content
    route (Endpoint.update_comment comment_id content) =
        update_comment_route app.settings token comment_id content
    route (Endpoint.delete_comment comment_id) = delete_comment_route app.settings token comment_id
    route (Endpoint.list_files task_id) = list_files_route app.settings token task_id
    route (Endpoint.upload_file task_id upload) =
        λ s. (upload_file_route app.settings token app.storage task_id upload app.stored_files s).0
    route (Endpoint.download_file file_id) =
        download_file_route app.settings token app.storage file_id app.stored_files
    route (Endpoint.list_notifications params) = list_notifications_route app.settings token params
    route (Endpoint.mark_read notification_id) = mark_read_route app.settings token notification_id
    route Endpoint.mark_all_read = mark_all_read_route app.settings token
    route Endpoint.dashboard = dashboard_route app.settings token
    route (Endpoint.project_analytics project_id) =
        project_analytics_route app.settings token project_id

    -- The storage after a request, given its upload.
    abbrev pub after_upload : Option (ℕ × Upload) → Session x.Float → S
    after_upload none s = app.stored_files
    after_upload (some (task_id, upload)) s =
        (upload_file_route app.settings token app.storage task_id upload app.stored_files s).1

    abbrev pub storage_after : Endpoint x.Float → Session x.Float → S
    storage_after c s = after_upload (upload_of c) s
