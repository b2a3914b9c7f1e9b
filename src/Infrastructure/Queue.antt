-- ===== src/Infrastructure/Queue.antt =====
-- `InlineQueue` of app/infrastructure/queue/inline.py: a job runs at once, in the session of its
-- caller. The keyword arguments of a job have some type `K`.
use ats_project_management_b.Prelude.{
  Option, String, if◌then◌else◌, none, some, string_eq, ℕ_eq, ◌==◌,
}
use ats_project_management_b.Core.Session.{Exec, pure}
use ats_project_management_b.Platform.{Platform}

module _ ⦃x : Platform⦄ (K : Type 0) where
  abbrev pub JobHandlers : Type 0
  JobHandlers = String → Option (K → Exec (Unit {0}))

  abbrev pub no_handlers : JobHandlers
  no_handlers name = none

  -- The handler that was registered last is the one that counts.
  abbrev pub register_job : String → (K → Exec (Unit {0})) → JobHandlers → JobHandlers
  register_job name handler handlers n = if n == name then some handler else handlers n

  abbrev pub run_handler : Option (K → Exec (Unit {0})) → K → Exec (Unit {0})
  run_handler none kwargs = pure tt
  run_handler (some handler) kwargs = handler kwargs

  -- A job without a handler is dropped.
  unfoldable pub enqueue : JobHandlers → String → K → Exec (Unit {0})
  enqueue handlers name kwargs = run_handler (handlers name) kwargs
