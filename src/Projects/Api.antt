-- ===== src/Projects/Api.antt =====
-- app/modules/projects/api.py.
use ats_project_management_b.Prelude.{List, none, ℕ}
use ats_project_management_b.Auth.Dependencies.{get_current_user, require_admin}
use ats_project_management_b.Core.Config.{Settings}
use ats_project_management_b.Core.Session.{Exec, pure, ◌>>=◌, ◌>>◌}
use ats_project_management_b.Models.{Project, ProjectMember}
use ats_project_management_b.Platform.{Platform}
use ats_project_management_b.Projects.Permissions.{project_access}
use ats_project_management_b.Projects.Repository.{ProjectDetail}
use ats_project_management_b.Projects.Service.{
  MemberAdd, ProjectCreate, ProjectUpdate, add_member, create_project, delete_project,
  get_project_detail, list_projects, remove_member, update_project,
}
use ats_project_management_b.Shared.Events.{EventBus}
use ats_project_management_b.Shared.Pagination.{PageParams}
use ats_project_management_b.Shared.Responses.{
  ApiResponse, Reply, created, no_content, ok_data, ok_message, ok_page,
}

module _ ⦃x : Platform⦄ (settings : Settings) (token : x.Jwt) where
  -- `require_project_view` as a dependency of a route.
  unfoldable pub require_project_view : ℕ → Exec Project
  require_project_view project_id = do
    user ← get_current_user token settings
    project_access none project_id user

  unfoldable pub list_projects_route : PageParams → Exec (Reply (ApiResponse (List Project)))
  list_projects_route params = do
    actor ← get_current_user token settings
    page ← list_projects actor params
    pure (ok_page page)

  unfoldable pub create_project_route : ProjectCreate → Exec (Reply (ApiResponse Project))
  create_project_route payload = do
    actor ← require_admin token settings
    project ← create_project payload actor
    pure (created "Project created" project)

  unfoldable pub get_project_route : ℕ → Exec (Reply (ApiResponse ProjectDetail))
  get_project_route project_id = do
    require_project_view project_id
    project ← get_project_detail project_id
    pure (ok_data project)

  unfoldable pub update_project_route : ℕ → ProjectUpdate → Exec (Reply (ApiResponse ProjectDetail))
  update_project_route project_id payload = do
    require_admin token settings
    project ← update_project project_id payload
    pure (ok_message "Project updated" project)

  unfoldable pub delete_project_route : ℕ → Exec (Reply (Unit {0}))
  delete_project_route project_id = do
    require_admin token settings
    delete_project project_id
    pure no_content

  unfoldable pub add_member_route :
      EventBus → ℕ → MemberAdd → Exec (Reply (ApiResponse ProjectMember))
  add_member_route event_bus project_id payload = do
    actor ← require_admin token settings
    member ← add_member event_bus project_id payload actor
    pure (created "Member added" member)

  unfoldable pub remove_member_route : ℕ → ℕ → Exec (Reply (Unit {0}))
  remove_member_route project_id user_id = do
    require_admin token settings
    remove_member project_id user_id
    pure no_content
