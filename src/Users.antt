-- ===== src/Users.antt =====
-- app/modules/users: accounts, their repository and their service.
pub mod Schemas
pub mod Api
pub mod Repository
pub mod Atomic
pub mod Emails
pub mod Guards
pub mod Hashing
pub mod Lifecycle
pub mod Service
pub mod Tests
