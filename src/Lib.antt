-- ===== src/Lib.antt =====
-- The project-management backend (app/): accounts and sessions, projects and their members, tasks
-- with their comments and files, notifications, reports, the routes that guard and serve them, and
-- the request-scoped database, the storage, the cache and the queue underneath.
--
-- A request of the program runs in one database session: `get_db` commits it when the handler
-- returns and rolls it back when it raises. The services (app/modules) call repositories, which
-- flush and do not commit; they raise exceptions, which handlers turn into JSON responses; they
-- publish events on an in-process bus, whose handlers write notifications in the same session.
--
-- How the files correspond to the code:
--   Prelude     Boolean tests, lists measured by native numbers, texts; no code of the program.
--   Platform    The code that is not in the repository, as one interface: the statements of the
--               SQL database on a table, UUIDs, the clock, random tokens, bcrypt, SHA-256, JWT.
--               Its laws are the documented behaviour. Memory is an instance, for the examples.
--   Models      The tables: one record for each model class of app/modules/*/models.py.
--   Core        app/core: exceptions.py and its handlers, the session of dependencies.py as a
--               state and exception monad (Session), `BaseRepository` of database.py
--               (Repository), `build_engine` of the same file (Engine), config.py, security.py,
--               constants.py, ratelimit.py, middleware.py. Session/Keeps and Session/Inversion hold
--               what the proofs need of the monad.
--   Auth        app/modules/auth: service.py (register, login, refresh, logout,
--               change_password), repository.py, dependencies.py, and `RequireRole` of
--               app/core/permissions.py.
--   Users       app/modules/users: service.py and repository.py.
--   Projects    app/modules/projects: service.py, repository.py, and `ProjectAccessPolicy` of
--               permissions.py.
--   Tasks       app/modules/tasks: service.py, repository.py, comment_service.py, and
--               `get_accessible_task` of dependencies.py. The flush of a task compares the version
--               column, as SQLAlchemy does for a `version_id_col`.
--   Notifications  app/modules/notifications: service.py, repository.py, handlers.py.
--   Analytics   app/modules/analytics: repository.py, service.py, schemas.py. A dict of counts is an
--               association list.
--   Infrastructure  app/infrastructure: the protocols and the choice of backends, the local disk
--               (storage/local.py), the cache (cache/memory.py), the queue (queue/inline.py), and
--               monitoring/health.py.
--   Shared      app/shared: enums.py, events.py, pagination.py, responses.py; and the fields of
--               PATCH bodies.
--   Api         The routers that `create_app` of app/main.py includes, as one type of endpoints.
--               The routes themselves stand with their modules, in Api, CommentsApi and FilesApi:
--               each runs its dependencies in the order in which FastAPI resolves them (those
--               declared on the route first), then the service, and builds the envelope.
--   Scripts     scripts/seed_admin.py.
--
-- An operation is a function from a session (the committed database, the current one, and the
-- number of calls made so far whose answers vary) to a result and a session. A call that varies,
-- such as the clock, a UUID or a salt, is a function of that number. `with_session` is the
-- request: it gives the result and the database that the request leaves. Theorems about two
-- requests run the second on the database that the first has left. `respond` adds the response: the
-- reply of the route, or what the handler of the exception builds. The storage is a state of its
-- own, which a rollback does not reach. The modules called Atomic hold that the operations of a
-- component do not commit by themselves.
--
-- The loops are over lists, but for the one that reads an upload in chunks: it runs on fuel, of one
-- round more than the upload has bytes, which is enough since every round but the last takes a byte
-- at least. Identifiers and times are natural numbers, which are compared and, for times, added;
-- durations are microseconds. Nothing wraps around.
--
-- bcrypt may refuse to hash a password, which the code does not catch. `EmailStr` normalizes the
-- e-mail of a registration and of the bodies for users before their service runs; the login takes the
-- text of the form. Each execution of a page's query may order rows that tie in another way. Of the
-- calls to the disk each may fail with an exception.
--
-- Not modelled: what FastAPI and pydantic check of a request before its route runs, CORS, the access
-- log and the formatters of the log, the wiring of the application, the migrations, the end-to-end
-- script, the cancellation of a request, the answer to a request without a bearer token (the
-- framework's own 401), and the adapters of Redis, Celery, S3 and Azure, which call their libraries only. The
-- counters of slowapi are a parameter: its answer to a request. The column `updated_at` is written
-- by the database and only reported, and a row stands for its response schema; a user has a schema
-- of its own, which leaves out the password's hash. Foreign keys are checked for the assignee of a
-- task only, where the database enforces them: for the others the services read the rows that they
-- refer to first.
pub mod Analytics
pub mod Api
pub mod Auth
pub mod Core
pub mod Infrastructure
pub mod Models
pub mod Notifications
pub mod Platform
pub mod Prelude
pub mod Projects
pub mod Scripts
pub mod Shared
pub mod Tasks
pub mod Users
