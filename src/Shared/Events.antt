-- ===== src/Shared/Events.antt =====
-- app/shared/events.py: the events, and the bus that hands them to their handlers.
use ats_project_management_b.Prelude.{
  Bool, List, String, [], false, if◌then◌else◌, true, ℕ, ◌++◌, ◌∷◌,
}
use ats_project_management_b.Core.Session.{Exec, pure, ◌>>=◌}
use ats_project_management_b.Platform.{Platform}

pub record MemberAddedToProject : Type 0 where
  pub project_id : ℕ
  pub project_name : String
  pub user_id : ℕ
  pub actor_id : ℕ

pub record TaskAssigned : Type 0 where
  pub task_id : ℕ
  pub task_title : String
  pub project_name : String
  pub assignee_id : ℕ
  pub actor_id : ℕ

pub data DomainEvent : Type 0 where
  member_added : MemberAddedToProject → DomainEvent
  task_assigned : TaskAssigned → DomainEvent

-- `type(event)`
pub data EventType : Type 0 where
  member_added_type task_assigned_type : EventType

abbrev pub type_of : DomainEvent → EventType
type_of (DomainEvent.member_added e) = EventType.member_added_type
type_of (DomainEvent.task_assigned e) = EventType.task_assigned_type

abbrev pub same_type : EventType → EventType → Bool
same_type EventType.member_added_type EventType.member_added_type = true
same_type EventType.member_added_type EventType.task_assigned_type = false
same_type EventType.task_assigned_type EventType.member_added_type = false
same_type EventType.task_assigned_type EventType.task_assigned_type = true

module _ ⦃x : Platform⦄ where
  abbrev pub EventHandler : Type 0
  EventHandler = DomainEvent → Exec (Unit {0})

  -- `_handlers`, a `defaultdict(list)`.
  abbrev pub EventBus : Type 0
  EventBus = EventType → List EventHandler

  abbrev pub new_bus : EventBus
  new_bus event_type = []

  abbrev pub subscribe : EventBus → EventType → EventHandler → EventBus
  subscribe bus event_type handler t =
      if same_type t event_type then bus t ++ handler ∷ [] else bus t

  unfoldable pub dispatch : List EventHandler → DomainEvent → Exec (Unit {0})
  dispatch [] event = pure tt
  dispatch (handler ∷ rest) event = handler event >>= λ _. dispatch rest event

  unfoldable pub publish : EventBus → DomainEvent → Exec (Unit {0})
  unfolding dispatch
  publish bus event = dispatch (bus (type_of event)) event
