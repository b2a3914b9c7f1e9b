-- ===== src/Api/Guards.antt =====
-- The endpoints that need a login.
use ats_project_management_b.Prelude.{Bool, Option, false, none, refl, some, true, ℕ, ◌+◌, ◌≡◌}
use ats_project_management_b.Analytics.Api.{dashboard_route, project_analytics_route}
use ats_project_management_b.Api.Login.{IsRejected, bind_raised, refused, rejected_lem}
use ats_project_management_b.Api.Routes.{
  AppState, Endpoint, after_upload, route, storage_after, upload_of,
}
use ats_project_management_b.Auth.Api.{
  change_password_route, login_route, logout_route, me_route, refresh_route, register_route,
}
use ats_project_management_b.Auth.Dependencies.{get_current_user, require_admin}
use ats_project_management_b.Auth.Service.Refresh.{opened}
use ats_project_management_b.Core.Config.{Settings}
use ats_project_management_b.Core.Exceptions.{AppException, Exception, handle}
use ats_project_management_b.Core.Session.{Exec, raised, with_session, ◌>>=◌}
use ats_project_management_b.Infrastructure.Storage.{StorageBackend, Upload}
use ats_project_management_b.Models.{Database, Project, Task, User}
use ats_project_management_b.Notifications.Api.{
  list_notifications_route, mark_all_read_route, mark_read_route,
}
use ats_project_management_b.Platform.{Platform}
use ats_project_management_b.Projects.Api.{
  add_member_route, create_project_route, delete_project_route, get_project_route,
  list_projects_route, remove_member_route, require_project_view, update_project_route,
}
use ats_project_management_b.Shared.Responses.{Reply, Response, respond}
use ats_project_management_b.Tasks.Api.{
  accessible_task, create_task_route, delete_task_route, get_task_route, kanban_board_route,
  list_project_tasks_route, update_task_route, update_task_status_route,
}
use ats_project_management_b.Tasks.CommentsApi.{
  create_comment_route, delete_comment_route, list_comments_route, update_comment_route,
}
use ats_project_management_b.Tasks.FilesApi.{
  download_file_route, list_files_route, upload_file_route,
}
use ats_project_management_b.Users.Api.{
  create_user_route, delete_user_route, get_user_route, list_users_route, update_role_route,
  update_user_route,
}

abbrev pub login_required : {F : Type 0} → Endpoint F → Bool
login_required (Endpoint.register payload) = false
login_required (Endpoint.login username password) = false
login_required (Endpoint.refresh t) = false
login_required (Endpoint.logout t) = false
login_required c = true

module _ ⦃x : Platform⦄ where
  module _ (settings : Settings) (token : x.Jwt) (db : Database x.Float) (tick : ℕ) where
    module _ (e : AppException) (r : IsRejected settings token db tick e) where
      out_user :
          {A : Type 0} (f : User → Exec (Reply A))
          → respond (get_current_user token settings >>= f) db tick
            ≡ (Response.failed (handle (Exception.app e)), db)
      out_user f = refused _ f db tick _ _ (rejected_lem settings token db tick e r) refl

      out_admin :
          {A : Type 0} (f : User → Exec (Reply A))
          → respond (require_admin token settings >>= f) db tick
            ≡ (Response.failed (handle (Exception.app e)), db)
      unfolding require_admin
      out_admin f =
          refused _ f db tick _ _ (bind_raised _ _ _ _ _ (rejected_lem settings token db tick e r))
            refl

      out_view :
          {A : Type 0} (project_id : ℕ) (f : Project → Exec (Reply A))
          → respond (require_project_view settings token project_id >>= f) db tick
            ≡ (Response.failed (handle (Exception.app e)), db)
      unfolding require_project_view
      out_view project_id f =
          refused _ f db tick _ _ (bind_raised _ _ _ _ _ (rejected_lem settings token db tick e r))
            refl

      out_task :
          {A : Type 0} (task_id : ℕ) (f : Task x.Float × User → Exec (Reply A))
          → respond (accessible_task settings token task_id >>= f) db tick
            ≡ (Response.failed (handle (Exception.app e)), db)
      unfolding accessible_task
      out_task task_id f =
          refused _ f db tick _ _ (bind_raised _ _ _ _ _ (rejected_lem settings token db tick e r))
            refl

      access_raised :
          (task_id : ℕ)
          → accessible_task settings token task_id (opened db tick)
            ≡ (raised (Exception.app e), opened db (tick + 1))
      unfolding accessible_task
      access_raised task_id = bind_raised _ _ _ _ _ (rejected_lem settings token db tick e r)

      out_upload :
          {S : Type 0} (storage : StorageBackend S) (task_id : ℕ) (upload : Upload) (state : S)
          → respond
              (λ s. (upload_file_route settings token storage task_id upload state s).0)
              db
              tick
            ≡ (Response.failed (handle (Exception.app e)), db)
      unfolding respond with_session upload_file_route
      out_upload storage task_id upload state = rw (access_raised task_id) refl

      upload_kept :
          {S : Type 0} (storage : StorageBackend S) (task_id : ℕ) (upload : Upload) (state : S)
          → (upload_file_route settings token storage task_id upload state (opened db tick)).1
            ≡ state
      unfolding upload_file_route
      upload_kept storage task_id upload state = rw (access_raised task_id) refl

  module _ {S : Type 0} (app : AppState x S) (token : x.Jwt) (db : Database x.Float)
      (tick : ℕ) where
    route_refuses :
        (c : Endpoint x.Float) (e : AppException)
        → login_required c ≡ true
        → IsRejected app.settings token db tick e
        → respond (route app token c) db tick ≡ (Response.failed (handle (Exception.app e)), db)
    unfolding route register_route login_route refresh_route logout_route me_route
        change_password_route list_users_route create_user_route get_user_route update_user_route
        update_role_route delete_user_route list_projects_route create_project_route
        get_project_route update_project_route delete_project_route add_member_route
        remove_member_route list_project_tasks_route kanban_board_route create_task_route
        get_task_route update_task_route update_task_status_route delete_task_route
        list_comments_route create_comment_route update_comment_route delete_comment_route
        list_files_route download_file_route list_notifications_route mark_read_route
        mark_all_read_route dashboard_route project_analytics_route
    route_refuses (Endpoint.register payload) e h r = cc
    route_refuses (Endpoint.login username password) e h r = cc
    route_refuses (Endpoint.refresh t) e h r = cc
    route_refuses (Endpoint.logout t) e h r = cc
    route_refuses Endpoint.me e h r = out_user app.settings token db tick e r _
    route_refuses (Endpoint.change_password payload) e h r =
        out_user app.settings token db tick e r _
    route_refuses (Endpoint.list_users params) e h r = out_admin app.settings token db tick e r _
    route_refuses (Endpoint.create_user payload) e h r = out_admin app.settings token db tick e r _
    route_refuses (Endpoint.get_user a) e h r = out_user app.settings token db tick e r _
    route_refuses (Endpoint.update_user a b) e h r = out_user app.settings token db tick e r _
    route_refuses (Endpoint.update_role a b) e h r = out_admin app.settings token db tick e r _
    route_refuses (Endpoint.delete_user a) e h r = out_admin app.settings token db tick e r _
    route_refuses (Endpoint.list_projects params) e h r = out_user app.settings token db tick e r _
    route_refuses (Endpoint.create_project payload) e h r =
        out_admin app.settings token db tick e r _
    route_refuses (Endpoint.get_project a) e h r = out_view app.settings token db tick e r _ _
    route_refuses (Endpoint.update_project a b) e h r = out_admin app.settings token db tick e r _
    route_refuses (Endpoint.delete_project a) e h r = out_admin app.settings token db tick e r _
    route_refuses (Endpoint.add_member a b) e h r = out_admin app.settings token db tick e r _
    route_refuses (Endpoint.remove_member a b) e h r = out_admin app.settings token db tick e r _
    route_refuses (Endpoint.list_project_tasks a b) e h r =
        out_view app.settings token db tick e r _ _
    route_refuses (Endpoint.kanban_board a) e h r = out_view app.settings token db tick e r _ _
    route_refuses (Endpoint.create_task payload) e h r = out_user app.settings token db tick e r _
    route_refuses (Endpoint.get_task a) e h r = out_task app.settings token db tick e r _ _
    route_refuses (Endpoint.update_task a b) e h r = out_task app.settings token db tick e r _ _
    route_refuses (Endpoint.update_task_status a b) e h r =
        out_task app.settings token db tick e r _ _
    route_refuses (Endpoint.delete_task a) e h r = out_task app.settings token db tick e r _ _
    route_refuses (Endpoint.list_comments a b) e h r = out_task app.settings token db tick e r _ _
    route_refuses (Endpoint.create_comment a b) e h r = out_task app.settings token db tick e r _ _
    route_refuses (Endpoint.update_comment a b) e h r = out_user app.settings token db tick e r _
    route_refuses (Endpoint.delete_comment a) e h r = out_user app.settings token db tick e r _
    route_refuses (Endpoint.list_files a) e h r = out_task app.settings token db tick e r _ _
    route_refuses (Endpoint.upload_file a b) e h r =
        out_upload app.settings token db tick e r app.storage a b app.stored_files
    route_refuses (Endpoint.download_file a) e h r = out_user app.settings token db tick e r _
    route_refuses (Endpoint.list_notifications params) e h r =
        out_user app.settings token db tick e r _
    route_refuses (Endpoint.mark_read a) e h r = out_user app.settings token db tick e r _
    route_refuses Endpoint.mark_all_read e h r = out_user app.settings token db tick e r _
    route_refuses Endpoint.dashboard e h r = out_admin app.settings token db tick e r _
    route_refuses (Endpoint.project_analytics a) e h r = out_view app.settings token db tick e r _ _

    storage_kept :
        (e : AppException) (o : Option (ℕ × Upload))
        → IsRejected app.settings token db tick e
        → after_upload app token o (opened db tick) ≡ app.stored_files
    storage_kept e none r = refl
    storage_kept e (some (task_id, upload)) r =
        upload_kept app.settings token db tick e r app.storage task_id upload app.stored_files

    -- A request with a bearer token, to any endpoint that needs a login, is answered with the error
    -- of the token if that is no valid access token or its subject or account is not available,
    -- and neither the database nor the storage of the files is changed.
    pub login_required_refuses :
        (c : Endpoint x.Float) (e : AppException)
        → login_required c ≡ true
        → IsRejected app.settings token db tick e
        → (respond (route app token c) db tick ≡ (Response.failed (handle (Exception.app e)), db))
          × (storage_after app token c (opened db tick) ≡ app.stored_files)
    login_required_refuses c e h r = (route_refuses c e h r, storage_kept e (upload_of c) r)
