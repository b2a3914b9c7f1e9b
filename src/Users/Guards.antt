-- ===== src/Users/Guards.antt =====
-- Who may change an account, and what of it.
use ats_project_management_b.Prelude.{
  Bool, List, String, [], ap, arith, change_where, false, if◌then◌else◌, map, nat_eq_iff, not, refl,
  some, string_eq, true, ℕ, ℕ_eq, ◌&&◌, ◌==◌, ◌∙◌, ◌∷◌, ◌≡◌,
}
use ats_project_management_b.Core.Exceptions.{Exception}
use ats_project_management_b.Core.Repository.{get, save_unique, user_model}
use ats_project_management_b.Core.Repository.Laws.{get_ok, read_rules, save_unique_ok}
use ats_project_management_b.Core.Session.{Session, ok, raise, with_session}
use ats_project_management_b.Core.Session.Inversion.{
  bind_ok, or_raise_ok, pure_ok, raise_if_ok, read_ok, with_session_ok,
}
use ats_project_management_b.Core.Session.Keeps.{Keeps}
use ats_project_management_b.Models.{Database, User}
use ats_project_management_b.Platform.{Platform}
use ats_project_management_b.Shared.Enums.{is_admin}
use ats_project_management_b.Shared.Fields.{Field, is_set, set_field}
use ats_project_management_b.Users.Repository.{get_by_email}
use ats_project_management_b.Users.Service.{
  UserUpdate, apply_update, email_taken, is_stranger, null_columns, save_user, update_user,
}

module _ ⦃x : Platform⦄ where
  email_taken-Keeps :
      {P : Session x.Float → Type 0} (email : Field String) (user : User)
      → Keeps P (email_taken email user)
  unfolding email_taken get_by_email
  email_taken-Keeps Field.unset user = search read_rules
  email_taken-Keeps Field.null user = search read_rules
  email_taken-Keeps (Field.value email) user = search read_rules

  save_chosen_ok :
      (b : Bool) (user : User) (payload : UserUpdate) (s : Session x.Float) (a : Unit {0})
      → ((if b
            then raise Exception.integrity
            else save_unique user_model user (apply_update payload))
          s).0
        ≡ ok a
      → ((if b
            then raise Exception.integrity
            else save_unique user_model user (apply_update payload))
          s).1
        ≡ record s {
          current = record s.current {
            users = change_where (λ u. u.id == user.id) (apply_update payload) s.current.users;
          };
        }
  unfolding raise
  save_chosen_ok true user payload s a h = cc
  save_chosen_ok false user payload s a h = save_unique_ok user_model user _ s a h

  -- An update that has not raised has changed the row.
  save_user_ok :
      (user : User) (payload : UserUpdate) (s : Session x.Float) (a : Unit {0})
      → (save_user user payload s).0 ≡ ok a
      → (save_user user payload s).1 ≡ record s {
        current = record s.current {
          users = change_where (λ u. u.id == user.id) (apply_update payload) s.current.users;
        };
      }
  unfolding save_user raise
  save_user_ok user payload s a h = save_chosen_ok (null_columns payload) user payload s a h

  -- What is known when an update has returned.
  update_user_ok :
      (user_id : ℕ) (payload : UserUpdate) (actor u : User) (s s' : Session x.Float)
      → update_user user_id payload actor s ≡ (ok u, s')
      → (is_stranger actor user_id ≡ false)
        × ((is_set payload.is_active && not (is_admin actor.role)) ≡ false)
        × (user : User) × ((get user_model user_id s).0 ≡ ok (some user))
        × (s' ≡ record s {
          current = record s.current {
            users = change_where (λ r. r.id == user.id) (apply_update payload) s.current.users;
          };
        })
  unfolding update_user
  update_user_ok user_id payload actor u s s' h =
      let (a1, p1, q1) = read_ok _ _ s u s' (search read_rules) h in
      let (o, p2, q2) = read_ok _ _ s u s' (search read_rules) q1 in
      let (user, p3, q3) = read_ok _ _ s u s' (search read_rules) q2 in
      let (a4, p4, q4) = read_ok _ _ s u s' (search read_rules) q3 in
      let (taken, p5, q5) = read_ok _ _ s u s' (search (read_rules, email_taken-Keeps)) q4 in
      let (a6, p6, q6) = read_ok _ _ s u s' (search read_rules) q5 in
      let (a7, p7, q7) = bind_ok _ _ s u s' q6 in
      (
        raise_if_ok _ _ s a1 p1,
        raise_if_ok _ _ s a4 p4,
        user,
        p2 ∙ ap ok (or_raise_ok o _ s user p3),
        pure_ok _ u _ s' q7 ∙ save_user_ok user payload s a7 p7,
      )

  -- The value that was sent, or the old one.
  abbrev pub sent_or : {A : Type 0} → A → Field A → A
  sent_or old Field.unset = old
  sent_or old Field.null = old
  sent_or old (Field.value a) = a

  -- The columns of an account after an employee's update: the e-mail and the name may be new.
  abbrev pub self_updated : UserUpdate → User → User
  self_updated payload r = record {
    id = r.id;
    created_at = r.created_at;
    deleted_at = r.deleted_at;
    email = sent_or r.email payload.email;
    hashed_password = r.hashed_password;
    full_name = sent_or r.full_name payload.full_name;
    role = r.role;
    is_active = r.is_active;
  }

  set_field_lem : {A : Type 0} (f : Field A) (old : A) → set_field f old ≡ sent_or old f
  set_field_lem Field.unset old = refl
  set_field_lem Field.null old = refl
  set_field_lem (Field.value a) old = refl

  set_field_unset : {A : Type 0} (f : Field A) (old : A) → is_set f ≡ false → set_field f old ≡ old
  set_field_unset Field.unset old h = refl
  set_field_unset Field.null old h = cc
  set_field_unset (Field.value a) old h = cc

  apply_update_lem :
      (payload : UserUpdate) (r : User)
      → is_set payload.is_active ≡ false
      → apply_update payload r ≡ self_updated payload r
  apply_update_lem payload r h =
      rw
        (
          set_field_lem payload.email r.email,
          set_field_lem payload.full_name r.full_name,
          set_field_unset payload.is_active r.is_active h,
        )
        refl

  update_lem :
      (payload : UserUpdate) (id : ℕ) (rows : List User)
      → is_set payload.is_active ≡ false
      → change_where (λ r. r.id == id) (apply_update payload) rows
        ≡ map (λ r. if r.id == id then self_updated payload r else r) rows
  update_lem payload id [] h = refl
  update_lem payload id (r ∷ rows) h =
      rw (apply_update_lem payload r h, update_lem payload id rows h) refl

  -- If an update by an actor who is not an admin returns, then the account is the actor's own, the
  -- account's status was not among the fields, and the database has changed in that one row only:
  -- its e-mail and its name are those of the request, or the old ones where the request has none, and
  -- all its other columns, the role and the password's hash among them, are as they were.
  pub employee_updates_self :
      (user_id : ℕ) (payload : UserUpdate) (actor u : User) (db : Database x.Float) (tick : ℕ)
      → is_admin actor.role ≡ false
      → (with_session (update_user user_id payload actor) db tick).0 ≡ ok u
      → (user_id ≡ actor.id)
        × (is_set payload.is_active ≡ false)
        × ((with_session (update_user user_id payload actor) db tick).1 ≡ record db {
          users = map (λ r. if r.id == actor.id then self_updated payload r else r) db.users;
        })
  employee_updates_self user_id payload actor u db tick h k =
      let s : Session x.Float = record { committed = db; current = db; tick = tick } in
      let (s', ran, left) = with_session_ok (update_user user_id payload actor) db tick u k in
      let (own, status, user, known, done) = update_user_ok user_id payload actor u s s' ran in
      let found = (get_ok user_model user_id s user known).1 in
      let same : user_id ≡ actor.id = ground (arith, nat_eq_iff actor.id user_id) in
      let no_status : is_set payload.is_active ≡ false = ground arith in
      (
        same,
        no_status,
        left
            ∙ (ap (λ t. t.current) done
                ∙ (ap
                      (λ n. record db {
                        users = change_where (λ r. r.id == n) (apply_update payload) db.users;
                      })
                      (found ∙ same)
                    ∙ ap (λ t. record db { users = t })
                        (update_lem payload actor.id db.users no_status))),
      )
