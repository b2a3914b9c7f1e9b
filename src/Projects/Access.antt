-- ===== src/Projects/Access.antt =====
-- Who passes the access policy of a project.
use ats_project_management_b.Prelude.{
  Bool, Bool-cases, List, Option, ap, false, filter, if◌then◌else◌, inl, inr, not, refl, some,
  string_eq, sym, true, ℕ, ℕ_eq, ◌&&◌, ◌==◌, ◌↔◌, ◌∙◌, ◌≡◌,
}
use ats_project_management_b.Core.Repository.{member_model, project_model, scalar_one_or_none}
use ats_project_management_b.Core.Repository.Laws.{fetch_lem, get_lem, read_rules}
use ats_project_management_b.Core.Session.{Result, Session, found, ok, pure, with_session, ◌>>=◌}
use ats_project_management_b.Core.Session.Inversion.{
  or_raise_ok, pure_ok, pure_value, raise_if_ok, read_ok, with_session_ok,
}
use ats_project_management_b.Core.Session.Keeps.{Keeps}
use ats_project_management_b.Models.{Database, Project, ProjectMember, User, project_is_live}
use ats_project_management_b.Platform.{Platform}
use ats_project_management_b.Projects.Permissions.{needs_lead, project_access, require_member}
use ats_project_management_b.Projects.Repository.{get_member, is_membership}
use ats_project_management_b.Shared.Enums.{MemberRole, is_admin, is_lead}

abbrev pub lookup_project : ℕ → List Project → Result (Option Project)
lookup_project project_id projects =
    scalar_one_or_none (filter (λ p. project_is_live p && p.id == project_id) projects)

abbrev pub lookup_member : ℕ → ℕ → List ProjectMember → Result (Option ProjectMember)
lookup_member project_id user_id members =
    scalar_one_or_none (filter (is_membership project_id user_id) members)

-- An admin, or a member, who is a lead if the policy asks for one.
pub data IsAllowed (min_member_role : Option MemberRole) (project_id : ℕ) (user : User)
    (members : List ProjectMember) : Type 0 where
  as_admin : is_admin user.role ≡ true → IsAllowed min_member_role project_id user members
  as_member :
      (m : ProjectMember)
      → lookup_member project_id user.id members ≡ ok (some m)
      → (needs_lead min_member_role && not (is_lead m.role)) ≡ false
      → IsAllowed min_member_role project_id user members

module _ ⦃x : Platform⦄ where
  get_member_lem :
      (project_id user_id : ℕ) (s : Session x.Float)
      → get_member project_id user_id s ≡ (lookup_member project_id user_id s.current.members, s)
  unfolding get_member
  get_member_lem project_id user_id s = fetch_lem member_model (is_membership project_id user_id) s

  get_member-Keeps :
      {P : Session x.Float → Type 0} (project_id user_id : ℕ)
      → Keeps P (get_member project_id user_id)
  unfolding get_member
  get_member-Keeps project_id user_id = search read_rules

  require_member_ok :
      (pol : Option MemberRole) (project p : Project) (project_id : ℕ) (user : User)
      (s s' : Session x.Float)
      → require_member pol project project_id user s ≡ (ok p, s')
      → (p ≡ project) × (s' ≡ s) × IsAllowed pol project_id user s.current.members
  unfolding require_member
  require_member_ok pol project p project_id user s s' h =
      let (o, p1, q1) = read_ok _ _ s p s' (search (read_rules, get_member-Keeps)) h in
      let (m, p2, q2) = read_ok _ _ s p s' (search read_rules) q1 in
      let (a3, p3, q3) = read_ok _ _ s p s' (search read_rules) q2 in
      (
        pure_value _ p s s' q3,
        pure_ok _ p s s' q3,
        IsAllowed.as_member m
            (sym (ap (λ r. r.0) (get_member_lem project_id user.id s))
              ∙ (p1 ∙ ap ok (or_raise_ok o _ s m p2)))
            (raise_if_ok _ _ s a3 p3),
      )

  access_run :
      (pol : Option MemberRole) (project_id : ℕ) (user : User) (p : Project) (db : Database x.Float)
      (tick : ℕ)
      → lookup_project project_id db.projects ≡ ok (some p)
      → IsAllowed pol project_id user db.members
      → with_session (project_access pol project_id user) db tick ≡ (ok p, db)
  unfolding with_session project_access require_member ◌>>=◌
  access_run pol project_id user p db tick known (IsAllowed.as_admin h) =
      rw (get_lem project_model) (rw known (rw h refl))
  access_run pol project_id user p db tick known (IsAllowed.as_member m h k) =
      elim (Bool-cases (is_admin user.role)) [
        | inl e ↦ rw (get_lem project_model) (rw known (rw e refl))
        | inr e ↦
            rw (get_lem project_model) (rw known (rw e (rw get_member_lem (rw h (rw k refl)))))
      ]

  module _ (pol : Option MemberRole) (project_id : ℕ) (user : User) (p : Project)
      (s s' : Session x.Float) where
    -- The last step of the policy, for either kind of user.
    chosen_ok :
        (b : Bool)
        → is_admin user.role ≡ b
        → (project : Project) → lookup_project project_id s.current.projects ≡ ok (some project)
        → (if b then pure project else require_member pol project project_id user) s ≡ (ok p, s')
        → (lookup_project project_id s.current.projects ≡ ok (some p))
          × IsAllowed pol project_id user s.current.members
    chosen_ok true e project found h =
        (found ∙ ap (λ q. ok (some q)) (sym (pure_value project p s s' h)), IsAllowed.as_admin e)
    chosen_ok false e project found h =
        let (same, left, allowed) = require_member_ok pol project p project_id user s s' h in
        (found ∙ ap (λ q. ok (some q)) (sym same), allowed)

  -- What is known when the policy has let a user pass.
  access_ok :
      (pol : Option MemberRole) (project_id : ℕ) (user : User) (p : Project)
      (s s' : Session x.Float)
      → project_access pol project_id user s ≡ (ok p, s')
      → (lookup_project project_id s.current.projects ≡ ok (some p))
        × IsAllowed pol project_id user s.current.members
  unfolding project_access
  access_ok pol project_id user p s s' h =
      let (o, p1, q1) = read_ok _ _ s p s' (search read_rules) h in
      let (project, p2, q2) = read_ok _ _ s p s' (search read_rules) q1 in
      let found : lookup_project project_id s.current.projects ≡ ok (some project) =
        sym (ap (λ r. r.0) (get_lem project_model project_id s))
        ∙ (p1 ∙ ap ok (or_raise_ok o _ s project p2)) in
      chosen_ok pol project_id user p s s' (is_admin user.role) refl project found q2

  -- The policy lets exactly these users pass, with the project: it is live, and the user is an
  -- admin or a member, and a lead where the policy asks for one. The check changes nothing.
  pub project_access_iff :
      (pol : Option MemberRole) (project_id : ℕ) (user : User) (p : Project) (db : Database x.Float)
      (tick : ℕ)
      → (with_session (project_access pol project_id user) db tick ≡ (ok p, db)) ↔ (
          (lookup_project project_id db.projects ≡ ok (some p))
          × IsAllowed pol project_id user db.members)
  project_access_iff pol project_id user p db tick = (
    λ h.
        let (s', ran, left) =
          with_session_ok (project_access pol project_id user) db tick p (ap (λ o. o.0) h) in
        access_ok pol project_id user p _ s' ran,
    λ h. access_run pol project_id user p db tick h.0 h.1,
  )
