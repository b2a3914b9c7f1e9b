-- ===== src/Tasks/Tests.antt =====
-- The theorems on tasks at concrete rows of the in-memory platform.
use ats_project_management_b.Prelude.{
  List, String, [], any, arith, change_where, false, filter, ltb, map, none, not, option_eq, refl,
  some, string_eq, true, ℕ, ℕ_eq, ◌&&◌, ◌+◌, ◌==◌, ◌∷◌, ◌≡◌,
}
use ats_project_management_b.Core.Constants.{ErrorCode}
use ats_project_management_b.Core.Exceptions.{Exception, handle}
use ats_project_management_b.Core.Repository.{find, get, save, scalar_one_or_none}
use ats_project_management_b.Core.Session.{ok, raised, with_session, ◌>>=◌}
use ats_project_management_b.Models.{Comment, Database, Task, User, task_is_live}
use ats_project_management_b.Platform.Memory.{memory}
use ats_project_management_b.Shared.Enums.{
  TaskPriority, TaskStatus, UserRole, project_status_eq, task_status_eq,
}
use ats_project_management_b.Tasks.Board.{kanban_board_columns, next_position_is_last}
use ats_project_management_b.Tasks.Comments.{
  comment_edited_by_owner, get_comment, get_owned, lookup_comment, update_comment, write_content,
}
use ats_project_management_b.Tasks.Repository.{board_order, in_column, next_position}
use ats_project_management_b.Tasks.Retry.{IsStored, after_moves, move_fresh, retry_succeeds}
use ats_project_management_b.Tasks.Service.{TaskStatusUpdate, kanban_board, update_status}
use ats_project_management_b.Tasks.Versions.{concurrent_move_is_refused, lookup_task}

abbrev card : ℕ → TaskStatus → ℕ → Task ℕ
card id status position = record {
  id = id;
  created_at = 0;
  deleted_at = none;
  project_id = 10;
  title = "A task";
  description = none;
  status = status;
  priority = TaskPriority.low;
  assignee_id = none;
  due_date = none;
  position = position;
  created_by = 1;
  version = 1;
}

abbrev review : Task ℕ
review = card 1 TaskStatus.todo 1000

abbrev db : Database ℕ
db = record {
  users = [];
  tokens = [];
  projects = [];
  members = [];
  tasks = review ∷ card 2 TaskStatus.todo 2000 ∷ card 3 TaskStatus.done 1000 ∷ [];
  comments = [];
  files = [];
  notifications = [];
}

abbrev to_done : TaskStatusUpdate ℕ
to_done = record { status = TaskStatus.done; position = none }

abbrev to_review : TaskStatusUpdate ℕ
to_review = record { status = TaskStatus.in_review; position = some 5 }

concurrent_move_is_refused_example :
    let (r, db') = with_session (update_status review to_done) db 0 in
    let stale = Exception.stale_data memory.stale_text in
    (r ≡ ok (record review { status = TaskStatus.done; position = 2000; version = 2 }))
    × (lookup_task 1 db'.tasks
        ≡ ok (some (record review { status = TaskStatus.done; position = 2000; version = 2 })))
    × (db' ≡ record db { tasks = db'.tasks })
    × (with_session (update_status review to_review) db' 3 ≡ (raised stale, db'))
    × ((handle stale).status ≡ 409)
    × (map (λ e. e.code) (handle stale).errors ≡ ErrorCode.stale_version ∷ [])
unfolding scalar_one_or_none
concurrent_move_is_refused_example =
    concurrent_move_is_refused review db to_done to_review 0 3 refl refl refl refl

kanban_board_columns_example :
    (board : TaskStatus → List (Task ℕ)) × (with_session (kanban_board 10) db 0 ≡ (ok board, db))
    × ((status : TaskStatus)
        → board status
          ≡ filter
              (λ t. t.status == status)
              (memory.order_by board_order
                (filter (λ t. task_is_live t && t.project_id == 10) db.tasks)))
kanban_board_columns_example = kanban_board_columns 10 db 0

below_next : (m : ℕ) → some 2000 ≡ some m → ltb m (m + 1000) ≡ true
below_next m h = ground arith

next_position_is_last_example :
    any (λ t. not (ltb t.position 3000)) (filter (in_column 10 TaskStatus.todo) db.tasks) ≡ false
unfolding with_session next_position
next_position_is_last_example = next_position_is_last 10 TaskStatus.todo db 0 3000 below_next refl

abbrev bob : User
bob = record {
  id = 2;
  created_at = 0;
  deleted_at = none;
  email = "bob@test.com";
  hashed_password = "";
  full_name = "Bob";
  role = UserRole.employee;
  is_active = true;
}

abbrev remark : ℕ → ℕ → String → Comment
remark id user_id content = record {
  id = id;
  created_at = 0;
  deleted_at = none;
  task_id = 1;
  user_id = user_id;
  content = content;
}

abbrev talk : Database ℕ
talk = record db { comments = remark 5 2 "Done?" ∷ remark 6 3 "Yes" ∷ [] }

comment_edited_by_owner_example :
    (old : Comment) × (lookup_comment 5 talk.comments ≡ ok (some old))
    × (old.user_id ≡ 2)
    × (remark 5 2 "Done." ≡ write_content "Done." old)
    × ((with_session (update_comment 5 "Done." bob) talk 0).1 ≡ record talk {
      comments = change_where (λ r. r.id == old.id) (write_content "Done.") talk.comments;
    })
unfolding with_session update_comment get_owned get_comment get find save scalar_one_or_none ◌>>=◌
comment_edited_by_owner_example =
    comment_edited_by_owner 5 "Done." bob (remark 5 2 "Done.") talk 0 refl refl

review-IsStored : IsStored ⦃x = memory⦄ 1 review db
unfolding scalar_one_or_none
review-IsStored = record { found_task = refl; alone = refl }

retry_succeeds_example :
    (task' : Task ℕ) × (db' : Database ℕ) × (with_session
        (move_fresh ⦃x = memory⦄ 1 to_review)
        (after_moves ⦃x = memory⦄ 1 ((0, to_done) ∷ (2, to_review) ∷ (4, to_done) ∷ []) db)
        9
      ≡ (ok task', db'))
    × (task'.status ≡ TaskStatus.in_review)
    × IsStored ⦃x = memory⦄ 1 task' db'
retry_succeeds_example =
    retry_succeeds ⦃x = memory⦄ 1 review db ((0, to_done) ∷ (2, to_review) ∷ (4, to_done) ∷ [])
      to_review 9 review-IsStored
