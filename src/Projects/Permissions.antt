-- ===== src/Projects/Permissions.antt =====
-- `ProjectAccessPolicy` of app/modules/projects/permissions.py.
use ats_project_management_b.Prelude.{Bool, Option, false, if◌then◌else◌, none, not, some, ℕ, ◌&&◌}
use ats_project_management_b.Core.Exceptions.{AppException, Kind, plain}
use ats_project_management_b.Core.Repository.{get, project_model}
use ats_project_management_b.Core.Session.{Exec, or_raise, pure, raise_if, ◌>>=◌, ◌>>◌}
use ats_project_management_b.Models.{Project, User}
use ats_project_management_b.Platform.{Platform}
use ats_project_management_b.Projects.Repository.{get_member}
use ats_project_management_b.Shared.Enums.{MemberRole, is_admin, is_lead}

abbrev pub project_not_found : AppException
project_not_found = plain Kind.not_found "Project not found"

abbrev pub not_a_member : AppException
not_a_member = plain Kind.forbidden "You are not a member of this project"

abbrev pub lead_required : AppException
lead_required = plain Kind.forbidden "Project lead access required"

-- `self.min_member_role == MemberRole.lead`
abbrev pub needs_lead : Option MemberRole → Bool
needs_lead none = false
needs_lead (some role) = is_lead role

module _ ⦃x : Platform⦄ where
  -- The checks for a user who is not an admin.
  unfoldable pub require_member : Option MemberRole → Project → ℕ → User → Exec Project
  require_member min_member_role project project_id user = do
    existing ← get_member project_id user.id
    member ← or_raise existing not_a_member
    raise_if (needs_lead min_member_role && not (is_lead member.role)) lead_required
    pure project

  -- `ProjectAccessPolicy(min_member_role=…)`, called.
  unfoldable pub project_access : Option MemberRole → ℕ → User → Exec Project
  project_access min_member_role project_id user = do
    existing ← get project_model project_id
    project ← or_raise existing project_not_found
    if is_admin user.role
        then pure project
        else require_member min_member_role project project_id user
