-- ===== src/Api/Admin.antt =====
-- The endpoints that are for admins only.
use ats_project_management_b.Prelude.{Bool, false, refl, true, ℕ, ◌+◌, ◌≡◌}
use ats_project_management_b.Analytics.Api.{dashboard_route}
use ats_project_management_b.Api.Login.{SignedIn, current_user_lem, refused}
use ats_project_management_b.Api.Routes.{AppState, Endpoint, route}
use ats_project_management_b.Auth.Dependencies.{require_admin, require_role}
use ats_project_management_b.Auth.Service.Refresh.{opened}
use ats_project_management_b.Core.Config.{Settings}
use ats_project_management_b.Core.Exceptions.{AppException, Exception, Kind, handle, plain}
use ats_project_management_b.Core.Session.{Exec, ◌>>=◌}
use ats_project_management_b.Models.{Database, User}
use ats_project_management_b.Platform.{Platform}
use ats_project_management_b.Projects.Api.{
  add_member_route, create_project_route, delete_project_route, remove_member_route,
  update_project_route,
}
use ats_project_management_b.Shared.Enums.{UserRole}
use ats_project_management_b.Shared.Responses.{Reply, Response, respond}
use ats_project_management_b.Users.Api.{
  create_user_route, delete_user_route, list_users_route, update_role_route,
}

-- `dependencies=[Depends(require_admin)]`
abbrev pub admin_required : {F : Type 0} → Endpoint F → Bool
admin_required (Endpoint.list_users params) = true
admin_required (Endpoint.create_user payload) = true
admin_required (Endpoint.update_role a b) = true
admin_required (Endpoint.delete_user a) = true
admin_required (Endpoint.create_project payload) = true
admin_required (Endpoint.update_project a b) = true
admin_required (Endpoint.delete_project a) = true
admin_required (Endpoint.add_member a b) = true
admin_required (Endpoint.remove_member a b) = true
admin_required Endpoint.dashboard = true
admin_required c = false

abbrev pub admin_access_required : AppException
admin_access_required = plain Kind.forbidden "Admin access required"

module _ ⦃x : Platform⦄ where
  module _ (settings : Settings) (token : x.Jwt) (db : Database x.Float) (tick : ℕ) where
    -- The current user is no admin.
    out_employee :
        {A : Type 0} (user : User) (f : User → Exec (Reply A))
        → SignedIn settings token db tick user
        → user.role ≡ UserRole.employee
        → respond (require_admin token settings >>= f) db tick
          ≡ (Response.failed (handle (Exception.app admin_access_required)), db)
    unfolding require_admin require_role ◌>>=◌
    out_employee user f h k =
        refused _ f db tick _ (opened db (tick + 1))
          (rw (current_user_lem settings token db tick user h) (rw k refl)) refl

  module _ {S : Type 0} (app : AppState x S) (token : x.Jwt) (db : Database x.Float)
      (tick : ℕ) where
    -- The admin endpoints answer a signed-in employee with 403, and change nothing.
    pub admin_required_refuses :
        (c : Endpoint x.Float) (user : User)
        → admin_required c ≡ true
        → SignedIn app.settings token db tick user
        → user.role ≡ UserRole.employee
        → respond (route app token c) db tick
          ≡ (Response.failed (handle (Exception.app admin_access_required)), db)
    unfolding route add_member_route create_project_route create_user_route dashboard_route
        delete_project_route delete_user_route list_users_route remove_member_route
        update_project_route update_role_route
    admin_required_refuses (Endpoint.register payload) user h s k = cc
    admin_required_refuses (Endpoint.login username password) user h s k = cc
    admin_required_refuses (Endpoint.refresh t) user h s k = cc
    admin_required_refuses (Endpoint.logout t) user h s k = cc
    admin_required_refuses Endpoint.me user h s k = cc
    admin_required_refuses (Endpoint.change_password payload) user h s k = cc
    admin_required_refuses (Endpoint.list_users params) user h s k =
        out_employee app.settings token db tick user _ s k
    admin_required_refuses (Endpoint.create_user payload) user h s k =
        out_employee app.settings token db tick user _ s k
    admin_required_refuses (Endpoint.get_user a) user h s k = cc
    admin_required_refuses (Endpoint.update_user a b) user h s k = cc
    admin_required_refuses (Endpoint.update_role a b) user h s k =
        out_employee app.settings token db tick user _ s k
    admin_required_refuses (Endpoint.delete_user a) user h s k =
        out_employee app.settings token db tick user _ s k
    admin_required_refuses (Endpoint.list_projects params) user h s k = cc
    admin_required_refuses (Endpoint.create_project payload) user h s k =
        out_employee app.settings token db tick user _ s k
    admin_required_refuses (Endpoint.get_project a) user h s k = cc
    admin_required_refuses (Endpoint.update_project a b) user h s k =
        out_employee app.settings token db tick user _ s k
    admin_required_refuses (Endpoint.delete_project a) user h s k =
        out_employee app.settings token db tick user _ s k
    admin_required_refuses (Endpoint.add_member a b) user h s k =
        out_employee app.settings token db tick user _ s k
    admin_required_refuses (Endpoint.remove_member a b) user h s k =
        out_employee app.settings token db tick user _ s k
    admin_required_refuses (Endpoint.list_project_tasks a b) user h s k = cc
    admin_required_refuses (Endpoint.kanban_board a) user h s k = cc
    admin_required_refuses (Endpoint.create_task payload) user h s k = cc
    admin_required_refuses (Endpoint.get_task a) user h s k = cc
    admin_required_refuses (Endpoint.update_task a b) user h s k = cc
    admin_required_refuses (Endpoint.update_task_status a b) user h s k = cc
    admin_required_refuses (Endpoint.delete_task a) user h s k = cc
    admin_required_refuses (Endpoint.list_comments a b) user h s k = cc
    admin_required_refuses (Endpoint.create_comment a b) user h s k = cc
    admin_required_refuses (Endpoint.update_comment a b) user h s k = cc
    admin_required_refuses (Endpoint.delete_comment a) user h s k = cc
    admin_required_refuses (Endpoint.list_files a) user h s k = cc
    admin_required_refuses (Endpoint.upload_file a b) user h s k = cc
    admin_required_refuses (Endpoint.download_file a) user h s k = cc
    admin_required_refuses (Endpoint.list_notifications params) user h s k = cc
    admin_required_refuses (Endpoint.mark_read a) user h s k = cc
    admin_required_refuses Endpoint.mark_all_read user h s k = cc
    admin_required_refuses Endpoint.dashboard user h s k =
        out_employee app.settings token db tick user _ s k
    admin_required_refuses (Endpoint.project_analytics a) user h s k = cc
