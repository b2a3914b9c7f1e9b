-- ===== src/Projects/Atomic.antt =====
-- The operations of the projects leave the committed database to the request.
use ats_project_management_b.Prelude.{Option, ℕ}
use ats_project_management_b.Core.Session.Keeps.{IsUncommitted}
use ats_project_management_b.Models.{Project, ProjectMember, User}
use ats_project_management_b.Platform.{Platform}
use ats_project_management_b.Projects.Permissions.{project_access, require_member}
use ats_project_management_b.Projects.Repository.{
  delete_member, get_member, get_with_members, insert_member, is_member,
}
use ats_project_management_b.Projects.Service.{
  MemberAdd, ProjectCreate, ProjectUpdate, add_member, create_project, delete_project,
  get_project_detail, list_projects, remove_member, save_project, update_project,
}
use ats_project_management_b.Shared.Atomic.{IsUncommittedBus, publish-IsUncommitted, shared_rules}
use ats_project_management_b.Shared.Enums.{MemberRole}
use ats_project_management_b.Shared.Events.{EventBus}
use ats_project_management_b.Shared.Pagination.{PageParams, paginate}

module _ ⦃x : Platform⦄ where
  pub get_with_members-IsUncommitted : (a : ℕ) → IsUncommitted (get_with_members a)
  unfolding get_with_members
  get_with_members-IsUncommitted a db = search shared_rules depth 16

  pub get_member-IsUncommitted : (a : ℕ) (b : ℕ) → IsUncommitted (get_member a b)
  unfolding get_member
  get_member-IsUncommitted a b db = search shared_rules depth 16

  pub is_member-IsUncommitted : (a : ℕ) (b : ℕ) → IsUncommitted (is_member a b)
  unfolding is_member
  is_member-IsUncommitted a b db = search shared_rules depth 16

  pub insert_member-IsUncommitted : (a : ProjectMember) → IsUncommitted (insert_member a)
  unfolding insert_member
  insert_member-IsUncommitted a db = search shared_rules depth 16

  pub delete_member-IsUncommitted : (a : ProjectMember) → IsUncommitted (delete_member a)
  unfolding delete_member
  delete_member-IsUncommitted a db = search shared_rules depth 16

  pub require_member-IsUncommitted :
      (a : Option MemberRole) (b : Project) (c : ℕ) (d : User)
      → IsUncommitted (require_member a b c d)
  unfolding require_member
  require_member-IsUncommitted a b c d db = search (shared_rules, get_member-IsUncommitted) depth 16

  pub project_access-IsUncommitted :
      (a : Option MemberRole) (b : ℕ) (c : User) → IsUncommitted (project_access a b c)
  unfolding project_access
  project_access-IsUncommitted a b c db =
      search (shared_rules, require_member-IsUncommitted) depth 16

  pub list_projects-IsUncommitted : (a : User) (b : PageParams) → IsUncommitted (list_projects a b)
  unfolding list_projects paginate
  list_projects-IsUncommitted a b db = record { after = λ s h. h }

  pub get_project_detail-IsUncommitted : (a : ℕ) → IsUncommitted (get_project_detail a)
  unfolding get_project_detail
  get_project_detail-IsUncommitted a db =
      search (shared_rules, get_with_members-IsUncommitted) depth 16

  pub create_project-IsUncommitted :
      (a : ProjectCreate) (b : User) → IsUncommitted (create_project a b)
  unfolding create_project
  create_project-IsUncommitted a b db = search shared_rules depth 16

  pub save_project-IsUncommitted :
      (a : Project) (b : ProjectUpdate) → IsUncommitted (save_project a b)
  unfolding save_project
  save_project-IsUncommitted a b db = search shared_rules depth 16

  pub update_project-IsUncommitted :
      (a : ℕ) (b : ProjectUpdate) → IsUncommitted (update_project a b)
  unfolding update_project
  update_project-IsUncommitted a b db =
      search (shared_rules, get_project_detail-IsUncommitted, save_project-IsUncommitted) depth 16

  pub delete_project-IsUncommitted : (a : ℕ) → IsUncommitted (delete_project a)
  unfolding delete_project
  delete_project-IsUncommitted a db = search shared_rules depth 16

  pub add_member-IsUncommitted :
      (a : EventBus)
      → IsUncommittedBus a
      → (b : ℕ) (c : MemberAdd) (d : User) → IsUncommitted (add_member a b c d)
  unfolding add_member
  add_member-IsUncommitted a h b c d db =
      search
        (
          shared_rules,
          get_member-IsUncommitted,
          is_member-IsUncommitted,
          insert_member-IsUncommitted,
          publish-IsUncommitted a h,
        )
        depth 16

  pub remove_member-IsUncommitted : (a : ℕ) (b : ℕ) → IsUncommitted (remove_member a b)
  unfolding remove_member
  remove_member-IsUncommitted a b db =
      search (shared_rules, get_member-IsUncommitted, delete_member-IsUncommitted) depth 16

  pub ruleset project_rules = (
    shared_rules, get_with_members-IsUncommitted, get_member-IsUncommitted, is_member-IsUncommitted,
    insert_member-IsUncommitted, delete_member-IsUncommitted, require_member-IsUncommitted,
    project_access-IsUncommitted, list_projects-IsUncommitted, get_project_detail-IsUncommitted,
    create_project-IsUncommitted, save_project-IsUncommitted, update_project-IsUncommitted,
    delete_project-IsUncommitted, remove_member-IsUncommitted,
  )
