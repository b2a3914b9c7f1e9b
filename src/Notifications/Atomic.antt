-- ===== src/Notifications/Atomic.antt =====
-- The operations of the notifications, and the handlers that the program registers, leave the
-- committed database to the request.
use ats_project_management_b.Prelude.{All, String, ℕ}
use ats_project_management_b.Core.Session.Keeps.{IsUncommitted}
use ats_project_management_b.Notifications.Handlers.{
  on_member_added, on_task_assigned, register_handlers,
}
use ats_project_management_b.Notifications.Service.{create, list_for_user, mark_all_read, mark_read}
use ats_project_management_b.Platform.{Platform}
use ats_project_management_b.Shared.Atomic.{IsUncommittedBus, IsUncommittedHandler, shared_rules}
use ats_project_management_b.Shared.Enums.{NotificationType}
use ats_project_management_b.Shared.Events.{DomainEvent, EventType, new_bus}
use ats_project_management_b.Shared.Pagination.{PageParams}

module _ ⦃x : Platform⦄ where
  pub list_for_user-IsUncommitted : (a : ℕ) (b : PageParams) → IsUncommitted (list_for_user a b)
  unfolding list_for_user
  list_for_user-IsUncommitted a b db = search shared_rules depth 16

  pub mark_read-IsUncommitted : (a : ℕ) (b : ℕ) → IsUncommitted (mark_read a b)
  unfolding mark_read
  mark_read-IsUncommitted a b db = search shared_rules depth 16

  pub mark_all_read-IsUncommitted : (a : ℕ) → IsUncommitted (mark_all_read a)
  unfolding mark_all_read
  mark_all_read-IsUncommitted a db = search shared_rules depth 16

  pub create-IsUncommitted :
      (a : ℕ) (b : String) (c : String) (d : NotificationType) → IsUncommitted (create a b c d)
  unfolding create
  create-IsUncommitted a b c d db = search shared_rules depth 16

  pub ruleset notification_rules = (
    shared_rules, list_for_user-IsUncommitted, mark_read-IsUncommitted, mark_all_read-IsUncommitted,
    create-IsUncommitted,
  )

  on_member_added-IsUncommitted : IsUncommittedHandler on_member_added
  unfolding on_member_added
  on_member_added-IsUncommitted (DomainEvent.member_added event) db = search notification_rules
  on_member_added-IsUncommitted (DomainEvent.task_assigned event) db = search notification_rules

  on_task_assigned-IsUncommitted : IsUncommittedHandler on_task_assigned
  unfolding on_task_assigned
  on_task_assigned-IsUncommitted (DomainEvent.member_added event) db = search notification_rules
  on_task_assigned-IsUncommitted (DomainEvent.task_assigned event) db = search notification_rules

  registered_handlers :
      (event_type : EventType) → All IsUncommittedHandler (register_handlers new_bus event_type)
  unfolding register_handlers
  registered_handlers EventType.member_added_type = (on_member_added-IsUncommitted, tt)
  registered_handlers EventType.task_assigned_type = (on_task_assigned-IsUncommitted, tt)

  -- The bus that `lifespan` of app/main.py sets up.
  pub register_handlers-IsUncommittedBus : IsUncommittedBus (register_handlers new_bus)
  register_handlers-IsUncommittedBus = record { of_type = registered_handlers }
