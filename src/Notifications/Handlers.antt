-- ===== src/Notifications/Handlers.antt =====
-- app/modules/notifications/handlers.py: the events become notifications.
use ats_project_management_b.Prelude.{String, ◌<>◌}
use ats_project_management_b.Core.Exceptions.{Exception}
use ats_project_management_b.Core.Session.{pure, raise, ◌>>◌}
use ats_project_management_b.Notifications.Service.{create}
use ats_project_management_b.Platform.{Platform}
use ats_project_management_b.Shared.Enums.{NotificationType}
use ats_project_management_b.Shared.Events.{
  DomainEvent, EventBus, EventHandler, EventType, MemberAddedToProject, TaskAssigned, subscribe,
}

abbrev pub added_message : MemberAddedToProject → String
added_message event = "You have been added to project \"" <> event.project_name <> "\"."

abbrev pub assigned_message : TaskAssigned → String
assigned_message event =
    "You have been assigned \"" <> event.task_title <> "\" in project \"" <> event.project_name
    <> "\"."

module _ ⦃x : Platform⦄ where
  -- The assertion on the event's type fails for another type.
  unfoldable pub on_member_added : EventHandler
  on_member_added (DomainEvent.member_added event) = do
    create event.user_id "Added to project" (added_message event)
        NotificationType.project_membership
    pure tt
  on_member_added (DomainEvent.task_assigned event) = raise Exception.unexpected

  unfoldable pub on_task_assigned : EventHandler
  on_task_assigned (DomainEvent.member_added event) = raise Exception.unexpected
  on_task_assigned (DomainEvent.task_assigned event) = do
    create event.assignee_id "New task assigned" (assigned_message event)
        NotificationType.task_assignment
    pure tt

  unfoldable pub register_handlers : EventBus → EventBus
  register_handlers bus =
      subscribe (subscribe bus EventType.member_added_type on_member_added)
        EventType.task_assigned_type on_task_assigned
