-- ===== src/Api/Atomic.antt =====
-- Which requests leave no trace when they fail.
use ats_project_management_b.Prelude.{
  Bool, Option, String, false, none, refl, some, true, ℕ, ◌+◌, ◌∙◌, ◌≡◌,
}
use ats_project_management_b.Analytics.Api.{dashboard_route, project_analytics_route}
use ats_project_management_b.Analytics.Atomic.{analytics_rules}
use ats_project_management_b.Api.Routes.{AppState, Endpoint, route}
use ats_project_management_b.Auth.Api.{
  change_password_route, login_route, logout_route, me_route, register_route,
}
use ats_project_management_b.Auth.Service.Atomic.{
  auth_rules, change_password-IsUncommitted, login-IsUncommitted, logout-IsUncommitted,
  register-IsUncommitted,
}
use ats_project_management_b.Core.Config.{Settings}
use ats_project_management_b.Core.Exceptions.{Exception, JsonResponse}
use ats_project_management_b.Core.RateLimit.{Limiter, check_hits, limit}
use ats_project_management_b.Core.Session.{Result, Session, lift, ok, raised, with_session}
use ats_project_management_b.Core.Session.Keeps.{
  IsUncommitted, Keeps-bind, Keeps-lift, atomic, keeps_rules,
}
use ats_project_management_b.Infrastructure.Storage.{StorageBackend, Upload}
use ats_project_management_b.Models.{Database, FileAttachment, Task, User}
use ats_project_management_b.Notifications.Api.{
  list_notifications_route, mark_all_read_route, mark_read_route,
}
use ats_project_management_b.Notifications.Atomic.{notification_rules}
use ats_project_management_b.Platform.{Platform}
use ats_project_management_b.Projects.Api.{
  add_member_route, create_project_route, delete_project_route, get_project_route,
  list_projects_route, remove_member_route, require_project_view, update_project_route,
}
use ats_project_management_b.Projects.Atomic.{add_member-IsUncommitted, project_rules}
use ats_project_management_b.Shared.Atomic.{IsUncommittedBus}
use ats_project_management_b.Shared.Responses.{Reply, Response, answer, respond}
use ats_project_management_b.Tasks.Api.{
  accessible_task, create_task_route, delete_task_route, get_task_route, kanban_board_route,
  list_project_tasks_route, may_create, update_task_route, update_task_status_route,
}
use ats_project_management_b.Tasks.Atomic.{
  create_task-IsUncommitted, record_upload-IsUncommitted, task_rules, update_task-IsUncommitted,
}
use ats_project_management_b.Tasks.CommentsApi.{
  create_comment_route, delete_comment_route, list_comments_route, update_comment_route,
}
use ats_project_management_b.Tasks.Files.{record_upload, upload_file}
use ats_project_management_b.Tasks.FilesApi.{
  download_file_route, list_files_route, upload_checked, upload_file_route, uploaded,
}
use ats_project_management_b.Users.Api.{
  create_user_route, delete_user_route, get_user_route, list_users_route, update_role_route,
  update_user_route,
}
use ats_project_management_b.Users.Atomic.{user_rules}

module _ ⦃x : Platform⦄ where
  check_hits-IsUncommitted : (o : Option String) → IsUncommitted (check_hits o)
  check_hits-IsUncommitted none db = record { after = λ s h. h }
  check_hits-IsUncommitted (some detail) db = record { after = λ s h. h }

  limit-IsUncommitted :
      (hits : String → Option String) (limiter : Limiter) → IsUncommitted (limit hits limiter)
  unfolding limit
  limit-IsUncommitted hits limiter db = search (keeps_rules, check_hits-IsUncommitted)

  may_create-IsUncommitted :
      (actor : User) (project_id : ℕ) → IsUncommitted (may_create actor project_id)
  unfolding may_create
  may_create-IsUncommitted actor project_id db = search project_rules

  view-IsUncommitted :
      (settings : Settings) (token : x.Jwt) (project_id : ℕ)
      → IsUncommitted (require_project_view settings token project_id)
  unfolding require_project_view
  view-IsUncommitted settings token project_id db = search (user_rules, project_rules)

  access-IsUncommitted :
      (settings : Settings) (token : x.Jwt) (task_id : ℕ)
      → IsUncommitted (accessible_task settings token task_id)
  unfolding accessible_task
  access-IsUncommitted settings token task_id db = search (user_rules, task_rules)

  module _ {S : Type 0} (settings : Settings) (storage : StorageBackend S) (state : S)
      (token : x.Jwt) where
    -- The outcome of `upload_file` keeps the committed database.
    saved-IsUncommitted :
        (task_id : ℕ) (upload : Upload) (actor : User) (db : Database x.Float) (s : Session x.Float)
        → s.committed ≡ db
        → (upload_file storage task_id upload actor settings state s).0.1.committed ≡ db
    unfolding upload_file
    saved-IsUncommitted task_id upload actor db s h =
        let stored = (storage.save s.tick upload settings.max_upload_size_bytes state).0 in
        (Keeps-bind (lift stored) (record_upload task_id upload actor) (Keeps-lift stored)
            (λ f. record_upload-IsUncommitted task_id upload actor f db)).after
          (record s { tick = s.tick + 1 }) h

    uploaded-committed :
        (o : Result FileAttachment × Session x.Float)
        → (uploaded settings token storage o).1.committed ≡ o.1.committed
    uploaded-committed (ok a, s) = refl
    uploaded-committed (raised e, s) = refl

    checked-committed :
        (upload : Upload) (o : Result (Task x.Float × User) × Session x.Float)
        (db : Database x.Float)
        → o.1.committed ≡ db
        → (upload_checked settings token storage upload state o).0.1.committed ≡ db
    checked-committed upload (raised e, s) db h = h
    checked-committed upload (ok found_task, s) db h =
        uploaded-committed _ ∙ saved-IsUncommitted found_task.0.id upload found_task.1 db s h

    upload-IsUncommitted :
        (task_id : ℕ) (upload : Upload)
        → IsUncommitted (λ s. (upload_file_route settings token storage task_id upload state s).0)
    unfolding upload_file_route
    upload-IsUncommitted task_id upload db = record {
      after = λ s h.
          checked-committed upload _ db
            ((access-IsUncommitted settings token task_id db).after s h);
    }

  ruleset access_rules = (user_rules, task_rules, access-IsUncommitted, view-IsUncommitted)

  -- All endpoints but the refresh.
  abbrev pub is_refresh : Endpoint x.Float → Bool
  is_refresh (Endpoint.refresh t) = true
  is_refresh c = false

  module _ {S : Type 0} (app : AppState x S) (token : x.Jwt)
      (bus : IsUncommittedBus app.event_bus) where
    route-IsUncommitted :
        (c : Endpoint x.Float) → is_refresh c ≡ false → IsUncommitted (route app token c)
    unfolding route register_route login_route logout_route me_route change_password_route
        list_users_route create_user_route get_user_route update_user_route update_role_route
        delete_user_route list_projects_route create_project_route get_project_route
        update_project_route delete_project_route add_member_route remove_member_route
        list_project_tasks_route kanban_board_route create_task_route get_task_route
        update_task_route update_task_status_route delete_task_route list_comments_route
        create_comment_route update_comment_route delete_comment_route list_files_route
        download_file_route list_notifications_route mark_read_route mark_all_read_route
        dashboard_route project_analytics_route
    route-IsUncommitted (Endpoint.register payload) h db =
        search (auth_rules, register-IsUncommitted, limit-IsUncommitted) depth 12
    route-IsUncommitted (Endpoint.login username password) h db =
        search (auth_rules, login-IsUncommitted, limit-IsUncommitted) depth 12
    route-IsUncommitted (Endpoint.refresh t) h db = cc
    route-IsUncommitted (Endpoint.logout t) h db =
        search (auth_rules, logout-IsUncommitted) depth 12
    route-IsUncommitted Endpoint.me h db = search user_rules depth 12
    route-IsUncommitted (Endpoint.change_password payload) h db =
        search (user_rules, change_password-IsUncommitted) depth 12
    route-IsUncommitted (Endpoint.list_users params) h db = search user_rules depth 12
    route-IsUncommitted (Endpoint.create_user payload) h db = search user_rules depth 12
    route-IsUncommitted (Endpoint.get_user a) h db = search user_rules depth 12
    route-IsUncommitted (Endpoint.update_user a b) h db = search user_rules depth 12
    route-IsUncommitted (Endpoint.update_role a b) h db = search user_rules depth 12
    route-IsUncommitted (Endpoint.delete_user a) h db = search user_rules depth 12
    route-IsUncommitted (Endpoint.list_projects params) h db = search access_rules depth 12
    route-IsUncommitted (Endpoint.create_project payload) h db = search access_rules depth 12
    route-IsUncommitted (Endpoint.get_project a) h db = search access_rules depth 12
    route-IsUncommitted (Endpoint.update_project a b) h db = search access_rules depth 12
    route-IsUncommitted (Endpoint.delete_project a) h db = search access_rules depth 12
    route-IsUncommitted (Endpoint.add_member a b) h db =
        search (user_rules, project_rules, add_member-IsUncommitted app.event_bus bus) depth 12
    route-IsUncommitted (Endpoint.remove_member a b) h db = search access_rules depth 12
    route-IsUncommitted (Endpoint.list_project_tasks a b) h db = search access_rules depth 12
    route-IsUncommitted (Endpoint.kanban_board a) h db = search access_rules depth 12
    route-IsUncommitted (Endpoint.create_task payload) h db =
        search
          (
            user_rules,
            task_rules,
            may_create-IsUncommitted,
            create_task-IsUncommitted app.event_bus bus,
          )
          depth 12
    route-IsUncommitted (Endpoint.get_task a) h db = search access_rules depth 12
    route-IsUncommitted (Endpoint.update_task a b) h db =
        search
          (
            user_rules,
            task_rules,
            access-IsUncommitted,
            update_task-IsUncommitted app.event_bus bus,
          )
          depth 12
    route-IsUncommitted (Endpoint.update_task_status a b) h db = search access_rules depth 12
    route-IsUncommitted (Endpoint.delete_task a) h db = search access_rules depth 12
    route-IsUncommitted (Endpoint.list_comments a b) h db = search access_rules depth 12
    route-IsUncommitted (Endpoint.create_comment a b) h db = search access_rules depth 12
    route-IsUncommitted (Endpoint.update_comment a b) h db = search access_rules depth 12
    route-IsUncommitted (Endpoint.delete_comment a) h db = search access_rules depth 12
    route-IsUncommitted (Endpoint.list_files a) h db = search access_rules depth 12
    route-IsUncommitted (Endpoint.upload_file a b) h db =
        upload-IsUncommitted app.settings app.storage app.stored_files token a b db
    route-IsUncommitted (Endpoint.download_file a) h db = search access_rules depth 12
    route-IsUncommitted (Endpoint.list_notifications params) h db =
        search (user_rules, notification_rules) depth 12
    route-IsUncommitted (Endpoint.mark_read a) h db =
        search (user_rules, notification_rules) depth 12
    route-IsUncommitted Endpoint.mark_all_read h db =
        search (user_rules, notification_rules) depth 12
    route-IsUncommitted Endpoint.dashboard h db = search (access_rules, analytics_rules) depth 12
    route-IsUncommitted (Endpoint.project_analytics a) h db =
        search (access_rules, analytics_rules) depth 12

    failed_left :
        {A : Type 0} (o : Result (Reply A) × Database x.Float) (db : Database x.Float)
        (j : JsonResponse)
        → ((e : Exception) → o.0 ≡ raised e → o.1 ≡ db)
        → answer o.0 ≡ Response.failed j
        → o.1 ≡ db
    failed_left (ok reply, d) db j h k = cc
    failed_left (raised e, d) db j h k = h e refl

    -- Whatever endpoint but `refresh` is called, and however its request fails, a response that is
    -- an error leaves the database as it was, provided that no handler of the event bus commits.
    pub endpoint-IsAtomic :
        (c : Endpoint x.Float) (db : Database x.Float) (tick : ℕ) (j : JsonResponse)
        → is_refresh c ≡ false
        → (respond (route app token c) db tick).0 ≡ Response.failed j
        → (respond (route app token c) db tick).1 ≡ db
    unfolding respond
    endpoint-IsAtomic c db tick j h k =
        failed_left (with_session (route app token c) db tick) db j
          (atomic (route-IsUncommitted c h) db tick) k
