-- ===== src/Shared/Atomic.antt =====
-- Pages are read only, and events leave the committed database alone if their handlers do.
use ats_project_management_b.Prelude.{All, List, [], ◌∷◌}
use ats_project_management_b.Core.Repository.{Model}
use ats_project_management_b.Core.Repository.Laws.{uncommitted_rules}
use ats_project_management_b.Core.Session.Keeps.{IsUncommitted, Keeps-bind, keeps_rules}
use ats_project_management_b.Models.{Database}
use ats_project_management_b.Platform.{Platform}
use ats_project_management_b.Shared.Events.{
  DomainEvent, EventBus, EventHandler, EventType, dispatch, publish, type_of,
}
use ats_project_management_b.Shared.Pagination.{PageParams, Statement, paginate}

module _ ⦃x : Platform⦄ where
  pub paginate-IsUncommitted :
      {A : Type 0} (m : Model (Database x.Float) A) (stmt : Statement A) (params : PageParams)
      → IsUncommitted (paginate m stmt params)
  unfolding paginate
  paginate-IsUncommitted m stmt params db = record { after = λ s h. h }

  abbrev pub IsUncommittedHandler : EventHandler → Type 0
  IsUncommittedHandler handler = (event : DomainEvent) → IsUncommitted (handler event)

  -- No handler of the bus commits.
  pub record IsUncommittedBus (bus : EventBus) : Type 0 where
    pub of_type : (event_type : EventType) → All IsUncommittedHandler (bus event_type)

  dispatch-IsUncommitted :
      (handlers : List EventHandler) (event : DomainEvent)
      → All IsUncommittedHandler handlers
      → IsUncommitted (dispatch handlers event)
  unfolding dispatch
  dispatch-IsUncommitted [] event h db = search keeps_rules
  dispatch-IsUncommitted (handler ∷ rest) event h db =
      Keeps-bind (handler event) (λ _. dispatch rest event) (h.0 event db)
        (λ _. dispatch-IsUncommitted rest event h.1 db)

  pub publish-IsUncommitted :
      (bus : EventBus)
      → IsUncommittedBus bus
      → (event : DomainEvent) → IsUncommitted (publish bus event)
  unfolding publish
  publish-IsUncommitted bus h event =
      dispatch-IsUncommitted (bus (type_of event)) event (h.of_type (type_of event))

  pub ruleset shared_rules = (uncommitted_rules, paginate-IsUncommitted)
