-- ===== src/Tasks/Service.antt =====
-- `TaskService` of app/modules/tasks/service.py. A `task` argument is the object that
-- `get_accessible_task` has loaded, with the version that it had then.
use ats_project_management_b.Prelude.{
  Bool, List, Option, String, [], if◌then◌else◌, is_some, leb, none, not, option_eq, some,
  string_eq, true, ℕ, ℕ_eq, ◌&&◌, ◌++◌, ◌==◌, ◌||◌, ◌∷◌,
}
use ats_project_management_b.Core.Exceptions.{AppException, Exception, Kind, plain}
use ats_project_management_b.Core.Repository.{add, get, project_model, task_model}
use ats_project_management_b.Core.Session.{
  Exec, asserted, draw, or_raise, pure, raise, raise_if, ◌>>=◌, ◌>>◌,
}
use ats_project_management_b.Models.{Project, Task, User}
use ats_project_management_b.Platform.{Platform}
use ats_project_management_b.Projects.Permissions.{not_a_member, project_not_found}
use ats_project_management_b.Projects.Repository.{is_member}
use ats_project_management_b.Shared.Enums.{
  TaskPriority, TaskStatus, is_admin, priority_value, project_status_eq, status_value,
  task_priority_eq, task_status_eq,
}
use ats_project_management_b.Shared.Events.{DomainEvent, EventBus, publish}
use ats_project_management_b.Shared.Fields.{Field, is_null, is_set, set_field, set_nullable}
use ats_project_management_b.Shared.Pagination.{
  PageParams, PaginationMeta, Statement, apply_sort, paginate,
}
use ats_project_management_b.Tasks.Repository.{
  board_order, check_assignee, list_for_project, list_for_project_query, next_position, save_task,
  saved_task,
}

pub record TaskCreate : Type 0 where
  pub project_id : ℕ
  pub title : String
  pub description : Option String
  pub status : TaskStatus
  pub priority : TaskPriority
  pub assignee_id : Option ℕ
  pub due_date : Option ℕ

pub record TaskUpdate : Type 0 where
  pub title : Field String
  pub description : Field String
  pub priority : Field TaskPriority
  pub assignee_id : Field ℕ
  pub due_date : Field ℕ

pub record TaskStatusUpdate (F : Type 0) : Type 0 where
  pub status : TaskStatus
  pub position : Option F

abbrev pub task_not_found : AppException
task_not_found = plain Kind.not_found "Task not found"

-- A null in one of the two columns that are NOT NULL fails at the flush.
abbrev pub null_task_columns : TaskUpdate → Bool
null_task_columns payload = is_null payload.title || is_null payload.priority

abbrev pub apply_task_update : {F : Type 0} → TaskUpdate → Task F → Task F
apply_task_update payload t = record t {
  title = set_field payload.title t.title;
  description = set_nullable payload.description t.description;
  priority = set_field payload.priority t.priority;
  assignee_id = set_nullable payload.assignee_id t.assignee_id;
  due_date = set_nullable payload.due_date t.due_date;
}

-- Whether the assignments change an attribute.
abbrev pub task_differs : {F : Type 0} → Task F → Task F → Bool
task_differs t u = not (
    t.title == u.title
    && t.description == u.description
    && t.priority == u.priority
    && t.assignee_id == u.assignee_id
    && t.due_date == u.due_date)

-- `"assignee_id" in data and new_assignee is not None and new_assignee != previous_assignee`,
-- and it is not the actor: whom to notify.
abbrev pub newly_assigned : Bool → Option ℕ → Option ℕ → ℕ → Option ℕ
newly_assigned given none previous actor_id = none
newly_assigned given (some new_assignee) previous actor_id =
    if given && not (some new_assignee == previous) && not (new_assignee == actor_id)
    then some new_assignee
    else none

module _ ⦃x : Platform⦄ where
  -- `get_accessible_task` of app/modules/tasks/dependencies.py
  unfoldable pub task_access : Task x.Float → User → Exec (Task x.Float)
  task_access task user = do
    member ← is_member task.project_id user.id
    raise_if (not member) not_a_member
    pure task

  unfoldable pub get_accessible_task : ℕ → User → Exec (Task x.Float)
  get_accessible_task task_id user = do
    existing ← get task_model task_id
    task ← or_raise existing task_not_found
    if is_admin user.role then pure task else task_access task user

  unfoldable pub notify_assignment :
      EventBus → Task x.Float → Option ℕ → String → User → Exec (Unit {0})
  notify_assignment event_bus task none project_name actor = pure tt
  notify_assignment event_bus task (some assignee_id) project_name actor = publish event_bus (
      DomainEvent.task_assigned (record {
        task_id = task.id;
        task_title = task.title;
        project_name = project_name;
        assignee_id = assignee_id;
        actor_id = actor.id;
      }))

  unfoldable pub create_task : EventBus → TaskCreate → User → Exec (Task x.Float)
  create_task event_bus payload actor = do
    existing ← get project_model payload.project_id
    project ← or_raise existing project_not_found
    position ← next_position payload.project_id payload.status
    id ← draw x.uuid7
    now ← draw x.utcnow
    check_assignee payload.assignee_id
    task ← add task_model (record {
      id = id;
      created_at = now;
      deleted_at = none;
      project_id = payload.project_id;
      title = payload.title;
      description = payload.description;
      status = payload.status;
      priority = payload.priority;
      assignee_id = payload.assignee_id;
      due_date = payload.due_date;
      position = position;
      created_by = actor.id;
      version = 1;
    })
    notify_assignment event_bus task (newly_assigned true task.assignee_id none actor.id)
        project.name actor
    loaded ← get task_model task.id
    asserted loaded

  -- The flush of an update.
  unfoldable pub flush_update : Task x.Float → TaskUpdate → Exec (Unit {0})
  flush_update task payload =
      if null_task_columns payload
      then raise Exception.integrity
      else (check_assignee (set_nullable payload.assignee_id none) >>= λ _.
          save_task task (apply_task_update payload)
            (task_differs task (apply_task_update payload task)))

  -- The name of the project in the message, if the project is still there.
  abbrev pub name_of : Option Project → String
  name_of none = ""
  name_of (some project) = project.name

  -- The project is read only if someone is to be notified.
  unfoldable pub notify_update : EventBus → Task x.Float → Option ℕ → User → Exec (Unit {0})
  notify_update event_bus task none actor = pure tt
  notify_update event_bus task (some assignee_id) actor = do
    project ← get project_model task.project_id
    notify_assignment event_bus task (some assignee_id) (name_of project) actor

  unfoldable pub update_task : EventBus → Task x.Float → TaskUpdate → User → Exec (Task x.Float)
  update_task event_bus task payload actor = do
    flush_update task payload
    let new_task =
        saved_task task (apply_task_update payload)
          (task_differs task (apply_task_update payload task))
    notify_update event_bus new_task
        (newly_assigned (is_set payload.assignee_id) new_task.assignee_id task.assignee_id actor.id)
        actor
    loaded ← get task_model task.id
    asserted loaded
    pure new_task

  abbrev pub same_float : x.Float → x.Float → Bool
  same_float a b = not (x.lt_float a b) && not (x.lt_float b a)

  -- `payload.position`, or else the next position of the column.
  unfoldable pub position_or_next : Option x.Float → ℕ → TaskStatus → Exec x.Float
  position_or_next none project_id status = next_position project_id status
  position_or_next (some position) project_id status = pure position

  abbrev pub moved : TaskStatus → x.Float → Task x.Float → Task x.Float
  moved status position t = record t { status = status; position = position }

  unfoldable pub update_status : Task x.Float → TaskStatusUpdate x.Float → Exec (Task x.Float)
  update_status task payload = do
    position ← position_or_next payload.position task.project_id payload.status
    let changed = not (task.status == payload.status && same_float task.position position)
    save_task task (moved payload.status position) changed
    loaded ← get task_model task.id
    asserted loaded
    pure (saved_task task (moved payload.status position) changed)

  unfoldable pub delete_task : Task x.Float → Exec (Unit {0})
  delete_task task = do
    now ← draw x.utcnow
    save_task task (λ t. record t { deleted_at = some now }) true

  -- The lists of the board, by status.
  abbrev pub Board : Type 0
  Board = TaskStatus → List (Task x.Float)

  abbrev pub empty_board : Board
  empty_board status = []

  -- `board[task.status.value].append(task)`
  abbrev pub place : Board → Task x.Float → Board
  place board task status =
      if task.status == status then board status ++ task ∷ [] else board status

  abbrev pub fill : Board → List (Task x.Float) → Board
  fill board [] = board
  fill board (task ∷ tasks) = fill (place board task) tasks

  unfoldable pub kanban_board : ℕ → Exec Board
  kanban_board project_id = do tasks ← list_for_project project_id; pure (fill empty_board tasks)

  abbrev pub by_title : Task x.Float → Task x.Float → Bool
  by_title a b = x.collate a.title b.title

  abbrev pub by_priority : Task x.Float → Task x.Float → Bool
  by_priority a b = x.collate (priority_value a.priority) (priority_value b.priority)

  abbrev pub by_due_date : Task x.Float → Task x.Float → Bool
  by_due_date a b = x.nullable_le a.due_date b.due_date

  abbrev pub by_task_creation : Task x.Float → Task x.Float → Bool
  by_task_creation a b = leb a.created_at b.created_at

  abbrev pub by_position : Task x.Float → Task x.Float → Bool
  by_position a b = not (x.lt_float b.position a.position)

  abbrev pub by_task_status : Task x.Float → Task x.Float → Bool
  by_task_status a b = x.collate (status_value a.status) (status_value b.status)

  -- Without a sort key: the order of the board.
  abbrev pub sort_tasks : PageParams → Statement (Task x.Float) → Statement (Task x.Float)
  sort_tasks params stmt =
      if is_some params.sort
      then apply_sort stmt params
          (("title", by_title)
            ∷ ("priority", by_priority)
            ∷ ("due_date", by_due_date)
            ∷ ("created_at", by_task_creation)
            ∷ ("position", by_position)
            ∷ [])
          by_task_status
      else record stmt { ordering = some board_order }

  unfoldable pub list_tasks : ℕ → PageParams → Exec (List (Task x.Float) × PaginationMeta)
  list_tasks project_id params =
      paginate task_model (sort_tasks params (list_for_project_query project_id params.search))
        params
