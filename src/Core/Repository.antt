-- ===== src/Core/Repository.antt =====
-- `BaseRepository` of app/core/database.py, over the description of a model class.
pub mod Laws
use ats_project_management_b.Prelude.{
  Bool, List, Option, [], false, none, some, string_eq, true, ℕ, ℕ_eq, ◌&&◌, ◌==◌, ◌||◌, ◌∷◌,
}
use ats_project_management_b.Core.Exceptions.{Exception}
use ats_project_management_b.Core.Session.{
  Exec, Result, Session, draw, ok, pure, raise, raised, ◌>>=◌,
}
use ats_project_management_b.Models.{
  Comment, Database, FileAttachment, Notification, Project, ProjectMember, RefreshToken, Task, User,
  comment_is_live, comments_clash, files_clash, members_clash, notifications_clash, project_is_live,
  projects_clash, task_is_live, tasks_clash, tokens_clash, user_is_live, users_clash,
}
use ats_project_management_b.Platform.{Platform}

-- What `SoftDeleteMixin` adds to a model class.
pub record SoftDelete (A : Type 0) : Type 0 where
  pub is_live : A → Bool
  pub mark : ℕ → A → A

-- A model class over the database `D`.
pub record Model (D : Type 0) (A : Type 0) : Type 0 where
  pub table : D → List A
  pub with_table : List A → D → D
  pub row_id : A → ℕ
  pub clash : A → A → Bool
  pub soft_delete : Option (SoftDelete A)

abbrev pub user_model : {F : Type 0} → Model (Database F) User
user_model = record {
  table = λ d. d.users;
  with_table = λ t d. record d { users = t };
  row_id = λ u. u.id;
  clash = users_clash;
  soft_delete =
      some (record { is_live = user_is_live; mark = λ now u. record u { deleted_at = some now } });
}

abbrev pub token_model : {F : Type 0} → Model (Database F) RefreshToken
token_model = record {
  table = λ d. d.tokens;
  with_table = λ t d. record d { tokens = t };
  row_id = λ t. t.id;
  clash = tokens_clash;
  soft_delete = none;
}

abbrev pub project_model : {F : Type 0} → Model (Database F) Project
project_model = record {
  table = λ d. d.projects;
  with_table = λ t d. record d { projects = t };
  row_id = λ p. p.id;
  clash = projects_clash;
  soft_delete =
      some
        (record { is_live = project_is_live; mark = λ now p. record p { deleted_at = some now } });
}

abbrev pub member_model : {F : Type 0} → Model (Database F) ProjectMember
member_model = record {
  table = λ d. d.members;
  with_table = λ t d. record d { members = t };
  row_id = λ m. m.id;
  clash = members_clash;
  soft_delete = none;
}

abbrev pub task_model : {F : Type 0} → Model (Database F) (Task F)
task_model = record {
  table = λ d. d.tasks;
  with_table = λ t d. record d { tasks = t };
  row_id = λ t. t.id;
  clash = tasks_clash;
  soft_delete =
      some (record { is_live = task_is_live; mark = λ now t. record t { deleted_at = some now } });
}

abbrev pub comment_model : {F : Type 0} → Model (Database F) Comment
comment_model = record {
  table = λ d. d.comments;
  with_table = λ t d. record d { comments = t };
  row_id = λ c. c.id;
  clash = comments_clash;
  soft_delete =
      some
        (record { is_live = comment_is_live; mark = λ now c. record c { deleted_at = some now } });
}

abbrev pub file_model : {F : Type 0} → Model (Database F) FileAttachment
file_model = record {
  table = λ d. d.files;
  with_table = λ t d. record d { files = t };
  row_id = λ f. f.id;
  clash = files_clash;
  soft_delete = none;
}

abbrev pub notification_model : {F : Type 0} → Model (Database F) Notification
notification_model = record {
  table = λ d. d.notifications;
  with_table = λ t d. record d { notifications = t };
  row_id = λ n. n.id;
  clash = notifications_clash;
  soft_delete = none;
}

-- The WHERE clause of `_query()`.
abbrev pub query : {D A : Type 0} → Model D A → Bool → A → Bool
query m include_deleted r = elim m.soft_delete [
  | none ↦ true
  | some d ↦ include_deleted || d.is_live r
]

-- `result.scalar_one_or_none()`: several rows are an error of the caller.
unfoldable pub scalar_one_or_none : {A : Type 0} → List A → Result (Option A)
scalar_one_or_none [] = ok none
scalar_one_or_none (r ∷ []) = ok (some r)
scalar_one_or_none (r ∷ q ∷ rest) = raised Exception.unexpected

module _ ⦃x : Platform⦄ {A : Type 0} (m : Model (Database x.Float) A) where
  -- `await db.execute(stmt)` and `.scalars().all()`, for a WHERE clause.
  unfoldable pub scalars : (A → Bool) → Exec (List A)
  scalars test s = (ok (x.select test (m.table s.current)), s)

  -- The same and `.scalar_one_or_none()`.
  unfoldable pub fetch : (A → Bool) → Exec (Option A)
  fetch test s = (scalar_one_or_none (x.select test (m.table s.current)), s)

  -- `db.execute(update(model).where(test).values(…))` and `db.flush()`.
  unfoldable pub update_where : (A → Bool) → (A → A) → Exec (Unit {0})
  update_where test change s = (
    ok tt,
    record s { current = m.with_table (x.update test change (m.table s.current)) s.current },
  )

  -- Assignments to attributes of one loaded row, and `db.flush()`.
  unfoldable pub save : A → (A → A) → Exec (Unit {0})
  unfolding update_where
  save entity = update_where (λ r. m.row_id r == m.row_id entity)

  abbrev saved : Session x.Float → Option (List A) → Result (Unit {0}) × Session x.Float
  saved s none = (raised Exception.integrity, s)
  saved s (some t) = (ok tt, record s { current = m.with_table t s.current })

  -- The same for columns under a unique index.
  unfoldable pub save_unique : A → (A → A) → Exec (Unit {0})
  save_unique entity change s =
      saved s
        (x.update_unique m.clash (λ r. m.row_id r == m.row_id entity) change (m.table s.current))

  pub stored : A → Session x.Float → Option (List A) → Result A × Session x.Float
  stored entity s none = raise Exception.integrity s
  stored entity s (some t) = pure entity (record s { current = m.with_table t s.current })

  -- `self._query().where(test)`, executed, and `.scalar_one_or_none()`.
  unfoldable pub find : (A → Bool) → Exec (Option A)
  unfolding fetch
  find test = fetch (λ r. query m false r && test r)

  -- `BaseRepository.get`
  unfoldable pub get : ℕ → Exec (Option A)
  unfolding find
  get entity_id = find (λ r. m.row_id r == entity_id)

  -- `BaseRepository.add`
  unfoldable pub add : A → Exec A
  unfolding stored
  add entity s = stored entity s (x.insert m.clash entity (m.table s.current))

  -- `BaseRepository.hard_delete`
  unfoldable pub hard_delete : A → Exec (Unit {0})
  hard_delete entity s = (
    ok tt,
    record s {
      current =
          m.with_table (x.delete (λ r. m.row_id r == m.row_id entity) (m.table s.current))
            s.current;
    },
  )

  -- `isinstance(entity, SoftDeleteMixin)` is a matter of the model class.
  abbrev pub delete_as : A → Option (SoftDelete A) → Exec (Unit {0})
  delete_as entity none = hard_delete entity
  delete_as entity (some d) = draw x.utcnow >>= λ now. save entity (d.mark now)

  -- `BaseRepository.delete`
  unfoldable pub delete : A → Exec (Unit {0})
  delete entity = delete_as entity m.soft_delete

  -- `BaseRepository.list_all`
  unfoldable pub list_all : Exec (List A)
  unfolding scalars
  list_all = scalars (query m false)
