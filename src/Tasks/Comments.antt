-- ===== src/Tasks/Comments.antt =====
-- `CommentService` of app/modules/tasks/comment_service.py, and who may change a comment.
use mathlib.Core.Path.{subst}
use ats_project_management_b.Prelude.{
  List, Option, String, ap, arith, change_where, false, filter, leb, nat_eq_iff, none, not,
  option_eq, some, string_eq, sym, ℕ, ℕ_eq, ◌&&◌, ◌==◌, ◌∙◌, ◌≡◌,
}
use ats_project_management_b.Core.Exceptions.{AppException, Kind, plain}
use ats_project_management_b.Core.Repository.{
  add, comment_model, delete, get, save, scalar_one_or_none,
}
use ats_project_management_b.Core.Repository.Laws.{get_lem, read_rules, save_lem}
use ats_project_management_b.Core.Session.{
  Exec, Result, Session, asserted, draw, ok, or_raise, pure, raise_if, with_session, ◌>>=◌, ◌>>◌,
}
use ats_project_management_b.Core.Session.Inversion.{
  bind_ok, or_raise_ok, pure_ok, pure_value, raise_if_ok, read_ok, with_session_ok,
}
use ats_project_management_b.Core.Session.Keeps.{Keeps}
use ats_project_management_b.Models.{Comment, Database, User, comment_is_live}
use ats_project_management_b.Platform.{Platform}
use ats_project_management_b.Shared.Enums.{is_admin}
use ats_project_management_b.Shared.Pagination.{PageParams, PaginationMeta, Statement, paginate}

abbrev pub comment_not_found : AppException
comment_not_found = plain Kind.not_found "Comment not found"

abbrev pub not_your_comment : AppException
not_your_comment = plain Kind.forbidden "You can only modify your own comments"

abbrev pub write_content : String → Comment → Comment
write_content content c = record c { content = content }

-- `list_for_task_query`, the oldest first.
unfoldable pub list_for_task_query : ℕ → Statement Comment
list_for_task_query task_id = record {
  where_clause = λ c. comment_is_live c && c.task_id == task_id;
  ordering = some (λ a b. leb a.created_at b.created_at);
}

abbrev pub lookup_comment : ℕ → List Comment → Result (Option Comment)
lookup_comment comment_id comments =
    scalar_one_or_none (filter (λ c. comment_is_live c && c.id == comment_id) comments)

module _ ⦃x : Platform⦄ where
  unfoldable pub list_comments : ℕ → PageParams → Exec (List Comment × PaginationMeta)
  list_comments task_id params = paginate comment_model (list_for_task_query task_id) params

  unfoldable pub create_comment : ℕ → String → User → Exec Comment
  create_comment task_id content actor = do
    id ← draw x.uuid7
    now ← draw x.utcnow
    comment ← add comment_model (record {
      id = id;
      created_at = now;
      deleted_at = none;
      task_id = task_id;
      user_id = actor.id;
      content = content;
    })
    loaded ← get comment_model comment.id
    asserted loaded

  unfoldable pub get_comment : ℕ → Exec Comment
  get_comment comment_id = do
    existing ← get comment_model comment_id
    or_raise existing comment_not_found

  unfoldable pub get_owned : ℕ → User → Exec Comment
  get_owned comment_id actor = do
    comment ← get_comment comment_id
    raise_if (not (is_admin actor.role) && not (comment.user_id == actor.id)) not_your_comment
    pure comment

  unfoldable pub update_comment : ℕ → String → User → Exec Comment
  update_comment comment_id content actor = do
    comment ← get_owned comment_id actor
    save comment_model comment (write_content content)
    pure (write_content content comment)

  -- The result is the task, for the check of access that follows.
  unfoldable pub delete_comment : ℕ → User → Exec ℕ
  delete_comment comment_id actor = do
    comment ← get_owned comment_id actor
    delete comment_model comment
    pure comment.task_id

  get_comment-Keeps :
      {P : Session x.Float → Type 0} (comment_id : ℕ) → Keeps P (get_comment comment_id)
  unfolding get_comment
  get_comment-Keeps comment_id = search read_rules

  get_owned-Keeps :
      {P : Session x.Float → Type 0} (comment_id : ℕ) (actor : User)
      → Keeps P (get_owned comment_id actor)
  unfolding get_owned
  get_owned-Keeps comment_id actor = search (read_rules, get_comment-Keeps)

  get_comment_ok :
      (comment_id : ℕ) (c : Comment) (s s' : Session x.Float)
      → get_comment comment_id s ≡ (ok c, s')
      → lookup_comment comment_id s.current.comments ≡ ok (some c)
  unfolding get_comment
  get_comment_ok comment_id c s s' h =
      let (o, p1, q1) = read_ok _ _ s c s' (search read_rules) h in
      sym (ap (λ r. r.0) (get_lem comment_model comment_id s))
      ∙ (p1 ∙ ap ok (or_raise_ok o _ s c (ap (λ r. r.0) q1)))

  get_owned_ok :
      (comment_id : ℕ) (actor : User) (c : Comment) (s s' : Session x.Float)
      → get_owned comment_id actor s ≡ (ok c, s')
      → (lookup_comment comment_id s.current.comments ≡ ok (some c))
        × ((not (is_admin actor.role) && not (c.user_id == actor.id)) ≡ false)
  unfolding get_owned
  get_owned_ok comment_id actor c s s' h =
      let (d, p1, q1) = read_ok _ _ s c s' (search (read_rules, get_comment-Keeps)) h in
      let (a2, p2, q2) = read_ok _ _ s c s' (search read_rules) q1 in
      let found =
        get_comment_ok comment_id d s (get_comment comment_id s).1
          (ap (λ r. (r, (get_comment comment_id s).1)) p1) in
      subst
        (λ e.
          (lookup_comment comment_id s.current.comments ≡ ok (some e))
          × ((not (is_admin actor.role) && not (e.user_id == actor.id)) ≡ false))
        (sym (pure_value d c s s' q2)) (found, raise_if_ok _ _ s a2 p2)

  update_comment_ok :
      (comment_id : ℕ) (content : String) (actor : User) (c : Comment) (s s' : Session x.Float)
      → update_comment comment_id content actor s ≡ (ok c, s')
      → (old : Comment) × (lookup_comment comment_id s.current.comments ≡ ok (some old))
        × ((not (is_admin actor.role) && not (old.user_id == actor.id)) ≡ false)
        × (c ≡ write_content content old)
        × (s' ≡ record s {
          current = record s.current {
            comments =
                change_where (λ r. r.id == old.id) (write_content content) s.current.comments;
          };
        })
  unfolding update_comment
  update_comment_ok comment_id content actor c s s' h =
      let (old, p1, q1) = read_ok _ _ s c s' (search (read_rules, get_owned-Keeps)) h in
      let (a2, p2, q2) = bind_ok _ _ s c s' q1 in
      let (known, owner) =
        get_owned_ok comment_id actor old s (get_owned comment_id actor s).1
          (ap (λ r. (r, (get_owned comment_id actor s).1)) p1) in
      (
        old,
        known,
        owner,
        pure_value _ c _ s' q2,
        pure_ok _ c _ s' q2 ∙ ap (λ r. r.1) (save_lem comment_model old (write_content content) s),
      )

  -- If an edit of a comment by an actor who is not an admin returns, then the comment was live and
  -- the actor's own, and the database has changed in the content of that comment only.
  pub comment_edited_by_owner :
      (comment_id : ℕ) (content : String) (actor : User) (c : Comment) (db : Database x.Float)
      (tick : ℕ)
      → is_admin actor.role ≡ false
      → (with_session (update_comment comment_id content actor) db tick).0 ≡ ok c
      → (old : Comment) × (lookup_comment comment_id db.comments ≡ ok (some old))
        × (old.user_id ≡ actor.id)
        × (c ≡ write_content content old)
        × ((with_session (update_comment comment_id content actor) db tick).1 ≡ record db {
          comments = change_where (λ r. r.id == old.id) (write_content content) db.comments;
        })
  comment_edited_by_owner comment_id content actor c db tick plain_user h =
      let s : Session x.Float = record { committed = db; current = db; tick = tick } in
      let (s', ran, left) = with_session_ok (update_comment comment_id content actor) db tick c h in
      let (old, known, owner, value, done) =
        update_comment_ok comment_id content actor c s s' ran in
      (
        old,
        known,
        ground (arith, owner, plain_user, nat_eq_iff old.user_id actor.id),
        value,
        left ∙ ap (λ t. t.current) done,
      )
