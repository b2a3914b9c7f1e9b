-- ===== src/Tasks.antt =====
-- app/modules/tasks: the tasks of a project and their board.
pub mod Api
pub mod CommentsApi
pub mod FilesApi
pub mod Atomic
pub mod Board
pub mod Comments
pub mod Files
pub mod Retry
pub mod Repository
pub mod Service
pub mod Tests
pub mod Versions
