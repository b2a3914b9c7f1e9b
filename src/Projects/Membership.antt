-- ===== src/Projects/Membership.antt =====
-- A member is added and notified in one transaction, and access follows membership.
use ats_project_management_b.Prelude.{
  Bool, List, Option, [], any, ap, arith, false, filter, filter-append, nat_eq_iff, none, not, refl,
  some, string_eq, ℕ, ℕ_eq, ◌++◌, ◌+◌, ◌<>◌, ◌==◌, ◌∙◌, ◌∷◌, ◌≡◌,
}
use ats_project_management_b.Auth.Service.Rotation.{stored_user}
use ats_project_management_b.Core.Exceptions.{Exception}
use ats_project_management_b.Core.Repository.{project_model, scalar_one_or_none, user_model}
use ats_project_management_b.Core.Repository.Laws.{
  add_lem, fetch_lem, get_lem, hard_delete_lem, scalar-eq-none, scalar-eq-some,
}
use ats_project_management_b.Core.Session.{ok, raised, with_session, ◌>>=◌}
use ats_project_management_b.Models.{
  Database, Notification, Project, ProjectMember, User, members_clash, notifications_clash,
}
use ats_project_management_b.Notifications.Handlers.{on_member_added, register_handlers}
use ats_project_management_b.Notifications.Service.{create}
use ats_project_management_b.Platform.{Platform}
use ats_project_management_b.Projects.Access.{
  IsAllowed, lookup_member, lookup_project, project_access_iff,
}
use ats_project_management_b.Projects.Permissions.{not_a_member, project_access, require_member}
use ats_project_management_b.Projects.Repository.{
  delete_member, get_member, insert_member, is_member, is_membership,
}
use ats_project_management_b.Projects.Service.{MemberAdd, add_member, already_member, remove_member}
use ats_project_management_b.Shared.Enums.{MemberRole, NotificationType, is_admin}
use ats_project_management_b.Shared.Events.{EventBus, dispatch, new_bus, publish}

module _ {A : Type 0} (p q : A → Bool) where
  filter-filter_none : (xs : List A) → filter p xs ≡ [] → filter p (filter q xs) ≡ []
  filter-filter_none [] h = refl
  filter-filter_none (x ∷ xs) h = ground (arith, filter-filter_none xs)

  -- The only row that passes a test is filtered out.
  filter-filter_single :
      (xs : List A) {u : A} → filter p xs ≡ u ∷ [] → q u ≡ false → filter p (filter q xs) ≡ []
  filter-filter_single [] h k = refl
  filter-filter_single (x ∷ xs) {u} h k =
      ground (arith, filter-filter_single xs {u = u}, filter-filter_none xs)

module _ ⦃x : Platform⦄ where
  -- The bus of the application.
  abbrev pub app_bus : EventBus
  app_bus = register_handlers new_bus

  -- The rows that `add_member` stores when `n` answers have been drawn.
  abbrev pub member_row : ℕ → ℕ → MemberAdd → ProjectMember
  member_row n project_id payload = record {
    id = x.uuid7 n;
    created_at = x.utcnow (n + 1);
    project_id = project_id;
    user_id = payload.user_id;
    role = payload.role;
  }

  abbrev pub added_note : ℕ → Project → MemberAdd → Notification
  added_note n project payload = record {
    id = x.uuid7 (n + 1 + 1);
    created_at = x.utcnow (n + 1 + 1 + 1);
    user_id = payload.user_id;
    type = NotificationType.project_membership;
    title = "Added to project";
    message = "You have been added to project \"" <> project.name <> "\".";
    is_read = false;
  }

  module _ (project_id : ℕ) (payload : MemberAdd) (db : Database x.Float) (tick : ℕ)
      (project : Project) (account : User) where
    pub record CanAdd : Type 0 where
      pub known : lookup_project project_id db.projects ≡ ok (some project)
      pub existing : stored_user payload.user_id db.users ≡ ok (some account)
      pub outside : lookup_member project_id payload.user_id db.members ≡ ok none
      pub distinct : any (members_clash (member_row tick project_id payload)) db.members ≡ false
      pub distinct_note :
          any (notifications_clash (added_note tick project payload)) db.notifications ≡ false

    member_found :
        CanAdd
        → lookup_member project_id payload.user_id
            (db.members ++ member_row tick project_id payload ∷ [])
          ≡ ok (some (member_row tick project_id payload))
    unfolding scalar_one_or_none
    member_found c =
        rw
          (
            filter-append (is_membership project_id payload.user_id) db.members
                (member_row tick project_id payload ∷ []),
            scalar-eq-none _ c.outside,
            (nat_eq_iff project_id project_id).1 refl,
            (nat_eq_iff payload.user_id payload.user_id).1 refl,
          )
          refl

    add_member_run :
        (actor : User)
        → CanAdd
        → with_session (add_member app_bus project_id payload actor) db tick ≡ (
          ok (member_row tick project_id payload),
          record db {
            members = db.members ++ member_row tick project_id payload ∷ [];
            notifications = db.notifications ++ added_note tick project payload ∷ [];
          },
        )
    unfolding with_session add_member is_member insert_member publish dispatch on_member_added
        create register_handlers get_member ◌>>=◌
    add_member_run actor c = rw (get_lem project_model) (
        rw c.known (
          rw (get_lem user_model) (
            rw c.existing (
              rw fetch_lem (
                rw c.outside (
                  rw add_lem (
                    rw c.distinct (
                      rw add_lem
                        (rw c.distinct_note (rw fetch_lem (rw (member_found c) refl)))))))))))

    -- For a live project and a live account that is no member, an addition succeeds: it stores one
    -- membership with the given role and one unread notification to the new member, who then passes
    -- the policy of the project's viewers; nothing else changes.
    pub added_member_has_access :
        (actor user : User) (k : ℕ)
        → CanAdd
        → user.id ≡ payload.user_id
        → let (r, db') = with_session (add_member app_bus project_id payload actor) db tick in
          (r ≡ ok (member_row tick project_id payload))
          × (db' ≡ record db {
            members = db.members ++ member_row tick project_id payload ∷ [];
            notifications = db.notifications ++ added_note tick project payload ∷ [];
          })
          × (with_session (project_access none project_id user) db' k ≡ (ok project, db'))
    added_member_has_access actor user k c same = rw (add_member_run actor c) (
      refl,
      refl,
      (project_access_iff none project_id user project _ k).1 (
        c.known,
        IsAllowed.as_member (member_row tick project_id payload)
            (ap
                (λ n.
                  lookup_member project_id n
                    (db.members ++ member_row tick project_id payload ∷ []))
                same
              ∙ member_found c)
            refl,
      ),
    )

    -- An addition that succeeded makes every later one of the same user to the same project fail,
    -- whatever role it gives: it is refused with ALREADY_MEMBER, and the database stays as the first
    -- addition left it.
    pub member_added_once :
        (actor other : User) (again : MemberAdd) (k : ℕ)
        → CanAdd
        → again.user_id ≡ payload.user_id
        → let (r, db') = with_session (add_member app_bus project_id payload actor) db tick in
          (r ≡ ok (member_row tick project_id payload))
          × (with_session (add_member app_bus project_id again other) db' k
              ≡ (raised (Exception.app already_member), db'))
    unfolding with_session add_member is_member ◌>>=◌
    member_added_once actor other again k c same =
        let inside =
          ap
            (λ n.
              lookup_member project_id n (db.members ++ member_row tick project_id payload ∷ []))
            same
          ∙ member_found c in
        let existing = ap (λ n. stored_user n db.users) same ∙ c.existing in
        rw (add_member_run actor c) (
          refl,
          rw (get_lem project_model)
              (rw c.known (rw (get_lem user_model) (rw existing (rw fetch_lem (rw inside refl))))),
        )

  -- A member who is removed loses the one membership, and no longer passes the policy of a live
  -- project unless as an admin; nothing else changes.
  pub removed_member_has_no_access :
      (project_id : ℕ) (user : User) (m : ProjectMember) (project : Project)
      (pol : Option MemberRole) (db : Database x.Float) (tick k : ℕ)
      → lookup_project project_id db.projects ≡ ok (some project)
      → lookup_member project_id user.id db.members ≡ ok (some m)
      → is_admin user.role ≡ false
      → let (r, db') = with_session (remove_member project_id user.id) db tick in
        (r ≡ ok tt)
        × (db' ≡ record db { members = filter (λ q. not (q.id == m.id)) db.members })
        × (with_session (project_access pol project_id user) db' k
            ≡ (raised (Exception.app not_a_member), db'))
  unfolding with_session remove_member delete_member get_member project_access require_member
      scalar_one_or_none ◌>>=◌
  removed_member_has_no_access project_id user m project pol db tick k known inside plain_user =
      let gone : lookup_member project_id user.id (filter (λ q. not (q.id == m.id)) db.members)
          ≡ ok none =
        ap scalar_one_or_none (
          filter-filter_single (is_membership project_id user.id) (λ q. not (q.id == m.id))
            db.members (scalar-eq-some _ inside) (ap not ((nat_eq_iff m.id m.id).1 refl))) in
      rw fetch_lem (
        rw inside (
          rw hard_delete_lem (
            refl,
            refl,
            rw (get_lem project_model) (rw known (rw plain_user (rw fetch_lem (rw gone refl)))),
          )))
