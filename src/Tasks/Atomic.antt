-- ===== src/Tasks/Atomic.antt =====
-- The operations of the tasks, their comments and files leave the committed database to the request.
use ats_project_management_b.Prelude.{Bool, Option, String, arith, none, some, ℕ}
use ats_project_management_b.Core.Repository.{stored}
use ats_project_management_b.Core.Session.Keeps.{IsUncommitted}
use ats_project_management_b.Infrastructure.Storage.{StoredFile, Upload}
use ats_project_management_b.Models.{Task, User}
use ats_project_management_b.Platform.{Platform}
use ats_project_management_b.Projects.Atomic.{project_rules}
use ats_project_management_b.Shared.Atomic.{IsUncommittedBus, publish-IsUncommitted}
use ats_project_management_b.Shared.Enums.{TaskStatus}
use ats_project_management_b.Shared.Events.{EventBus}
use ats_project_management_b.Shared.Pagination.{PageParams}
use ats_project_management_b.Tasks.Comments.{
  create_comment, delete_comment, get_comment, get_owned, list_comments, update_comment,
}
use ats_project_management_b.Tasks.Files.{get_attachment, list_files, record_upload}
use ats_project_management_b.Tasks.Repository.{
  check_assignee, list_for_project, next_position, save_task,
}
use ats_project_management_b.Tasks.Service.{
  TaskCreate, TaskStatusUpdate, TaskUpdate, create_task, delete_task, flush_update,
  get_accessible_task, kanban_board, list_tasks, notify_assignment, notify_update, position_or_next,
  task_access, update_status, update_task,
}

module _ ⦃x : Platform⦄ where
  pub record_upload-IsUncommitted :
      (task_id : ℕ) (upload : Upload) (actor : User) (stored : StoredFile)
      → IsUncommitted (record_upload task_id upload actor stored)
  unfolding record_upload
  record_upload-IsUncommitted task_id upload actor stored db = search project_rules depth 16

  pub list_for_project-IsUncommitted : (a : ℕ) → IsUncommitted (list_for_project a)
  unfolding list_for_project
  list_for_project-IsUncommitted a db = record { after = λ s h. h }

  pub next_position-IsUncommitted : (a : ℕ) (b : TaskStatus) → IsUncommitted (next_position a b)
  unfolding next_position
  next_position-IsUncommitted a b db = record { after = λ s h. h }

  pub save_task-IsUncommitted :
      (a : Task x.Float) (b : (Task x.Float → Task x.Float)) (c : Bool)
      → IsUncommitted (save_task a b c)
  unfolding save_task
  save_task-IsUncommitted a b c db = record { after = λ s h. ground arith }

  pub check_assignee-IsUncommitted : (a : Option ℕ) → IsUncommitted (check_assignee a)
  unfolding check_assignee
  check_assignee-IsUncommitted none db = record { after = λ s h. h }
  check_assignee-IsUncommitted (some c) db = record { after = λ s h. ground arith }

  pub task_access-IsUncommitted : (a : Task x.Float) (b : User) → IsUncommitted (task_access a b)
  unfolding task_access
  task_access-IsUncommitted a b db = search project_rules depth 16

  pub get_accessible_task-IsUncommitted :
      (a : ℕ) (b : User) → IsUncommitted (get_accessible_task a b)
  unfolding get_accessible_task
  get_accessible_task-IsUncommitted a b db =
      search (project_rules, task_access-IsUncommitted) depth 16

  pub notify_assignment-IsUncommitted :
      (a : EventBus)
      → IsUncommittedBus a
      → (b : Task x.Float) (c : Option ℕ) (d : String) (e : User)
      → IsUncommitted (notify_assignment a b c d e)
  unfolding notify_assignment
  notify_assignment-IsUncommitted a h b none d e db = search project_rules
  notify_assignment-IsUncommitted a h b (some c) d e db = publish-IsUncommitted a h _ db

  pub create_task-IsUncommitted :
      (a : EventBus)
      → IsUncommittedBus a
      → (b : TaskCreate) (c : User) → IsUncommitted (create_task a b c)
  unfolding create_task
  create_task-IsUncommitted a h b c db =
      search
        (
          project_rules,
          next_position-IsUncommitted,
          check_assignee-IsUncommitted,
          notify_assignment-IsUncommitted a h,
        )
        depth 16

  pub flush_update-IsUncommitted :
      (a : Task x.Float) (b : TaskUpdate) → IsUncommitted (flush_update a b)
  unfolding flush_update
  flush_update-IsUncommitted a b db =
      search (project_rules, save_task-IsUncommitted, check_assignee-IsUncommitted) depth 16

  pub notify_update-IsUncommitted :
      (a : EventBus)
      → IsUncommittedBus a
      → (b : Task x.Float) (c : Option ℕ) (d : User) → IsUncommitted (notify_update a b c d)
  unfolding notify_update
  notify_update-IsUncommitted a h b none d db = search project_rules
  notify_update-IsUncommitted a h b (some c) d db =
      search (project_rules, notify_assignment-IsUncommitted a h)

  pub update_task-IsUncommitted :
      (a : EventBus)
      → IsUncommittedBus a
      → (b : Task x.Float) (c : TaskUpdate) (d : User) → IsUncommitted (update_task a b c d)
  unfolding update_task
  update_task-IsUncommitted a h b c d db =
      search (project_rules, flush_update-IsUncommitted, notify_update-IsUncommitted a h) depth 16

  pub position_or_next-IsUncommitted :
      (a : Option x.Float) (b : ℕ) (c : TaskStatus) → IsUncommitted (position_or_next a b c)
  unfolding position_or_next
  position_or_next-IsUncommitted none b c db = search (project_rules, next_position-IsUncommitted)
  position_or_next-IsUncommitted (some a) b c db = search project_rules

  pub update_status-IsUncommitted :
      (a : Task x.Float) (b : TaskStatusUpdate x.Float) → IsUncommitted (update_status a b)
  unfolding update_status
  update_status-IsUncommitted a b db =
      search (project_rules, save_task-IsUncommitted, position_or_next-IsUncommitted) depth 16

  pub delete_task-IsUncommitted : (a : Task x.Float) → IsUncommitted (delete_task a)
  unfolding delete_task
  delete_task-IsUncommitted a db = search (project_rules, save_task-IsUncommitted) depth 16

  pub kanban_board-IsUncommitted : (a : ℕ) → IsUncommitted (kanban_board a)
  unfolding kanban_board
  kanban_board-IsUncommitted a db = search (project_rules, list_for_project-IsUncommitted) depth 16

  pub list_tasks-IsUncommitted : (a : ℕ) (b : PageParams) → IsUncommitted (list_tasks a b)
  unfolding list_tasks
  list_tasks-IsUncommitted a b db = search project_rules depth 16

  pub list_comments-IsUncommitted : (a : ℕ) (b : PageParams) → IsUncommitted (list_comments a b)
  unfolding list_comments
  list_comments-IsUncommitted a b db = search project_rules depth 16

  pub create_comment-IsUncommitted :
      (a : ℕ) (b : String) (c : User) → IsUncommitted (create_comment a b c)
  unfolding create_comment
  create_comment-IsUncommitted a b c db = search project_rules depth 16

  pub get_comment-IsUncommitted : (a : ℕ) → IsUncommitted (get_comment a)
  unfolding get_comment
  get_comment-IsUncommitted a db = search project_rules depth 16

  pub get_owned-IsUncommitted : (a : ℕ) (b : User) → IsUncommitted (get_owned a b)
  unfolding get_owned
  get_owned-IsUncommitted a b db = search (project_rules, get_comment-IsUncommitted) depth 16

  pub update_comment-IsUncommitted :
      (a : ℕ) (b : String) (c : User) → IsUncommitted (update_comment a b c)
  unfolding update_comment
  update_comment-IsUncommitted a b c db = search (project_rules, get_owned-IsUncommitted) depth 16

  pub delete_comment-IsUncommitted : (a : ℕ) (b : User) → IsUncommitted (delete_comment a b)
  unfolding delete_comment
  delete_comment-IsUncommitted a b db = search (project_rules, get_owned-IsUncommitted) depth 16

  pub list_files-IsUncommitted : (a : ℕ) → IsUncommitted (list_files a)
  unfolding list_files
  list_files-IsUncommitted a db = record { after = λ s h. h }

  pub get_attachment-IsUncommitted : (a : ℕ) → IsUncommitted (get_attachment a)
  unfolding get_attachment
  get_attachment-IsUncommitted a db = search project_rules depth 16

  pub ruleset task_rules = (
    project_rules, list_for_project-IsUncommitted, next_position-IsUncommitted,
    save_task-IsUncommitted, check_assignee-IsUncommitted, task_access-IsUncommitted,
    get_accessible_task-IsUncommitted, flush_update-IsUncommitted, position_or_next-IsUncommitted,
    update_status-IsUncommitted, delete_task-IsUncommitted, kanban_board-IsUncommitted,
    list_tasks-IsUncommitted, list_comments-IsUncommitted, create_comment-IsUncommitted,
    get_comment-IsUncommitted, get_owned-IsUncommitted, update_comment-IsUncommitted,
    delete_comment-IsUncommitted, list_files-IsUncommitted, get_attachment-IsUncommitted,
  )
