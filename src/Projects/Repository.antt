-- ===== src/Projects/Repository.antt =====
-- app/modules/projects/repository.py.
use mathlib.Core.Option
use ats_project_management_b.Prelude.{
  Bool, List, Option, String, any, false, is_some, none, some, string_eq, true, ℕ, ℕ_eq, ◌&&◌, ◌<>◌,
  ◌==◌,
}
use ats_project_management_b.Core.Repository.{
  add, fetch, get, hard_delete, member_model, project_model, query, scalars,
}
use ats_project_management_b.Core.Session.{Exec, pure, ◌>>=◌}
use ats_project_management_b.Models.{Project, ProjectMember}
use ats_project_management_b.Platform.{Platform}
use ats_project_management_b.Shared.Pagination.{Statement, search_term}

-- A project with the relationship `members` loaded. (The users of the members are not.)
pub record ProjectDetail : Type 0 where
  pub project : Project
  pub members : List ProjectMember

-- The WHERE clause on a membership.
abbrev pub is_membership : ℕ → ℕ → ProjectMember → Bool
is_membership project_id user_id m = m.project_id == project_id && m.user_id == user_id

module _ ⦃x : Platform⦄ where
  unfoldable pub get_with_members : ℕ → Exec (Option ProjectDetail)
  get_with_members project_id = do
    existing ← get project_model project_id
    members ← scalars member_model (λ m. m.project_id == project_id)
    pure (Option.map (λ p. record { project = p; members = members }) existing)

  abbrev pub in_scope : Option ℕ → List ProjectMember → Project → Bool
  in_scope none members p = true
  in_scope (some user_id) members p = any (is_membership p.id user_id) members

  abbrev pub matches_project : Option String → Project → Bool
  matches_project none p = true
  matches_project (some term) p = x.ilike p.name ("%" <> term <> "%")

  -- The join with the memberships of the user, of which a project has one at most.
  unfoldable pub list_projects_query :
      List ProjectMember → Option ℕ → Option String → Statement Project
  list_projects_query members user_id search = record {
    where_clause = λ p.
        query (project_model {F = x.Float}) false p
        && in_scope user_id members p
        && matches_project (search_term search) p;
    ordering = none;
  }

  unfoldable pub get_member : ℕ → ℕ → Exec (Option ProjectMember)
  get_member project_id user_id = fetch member_model (is_membership project_id user_id)

  unfoldable pub is_member : ℕ → ℕ → Exec Bool
  is_member project_id user_id = do
    existing ← fetch member_model (is_membership project_id user_id)
    pure (is_some existing)

  unfoldable pub insert_member : ProjectMember → Exec ProjectMember
  insert_member member = add member_model member

  unfoldable pub delete_member : ProjectMember → Exec (Unit {0})
  delete_member member = hard_delete member_model member
