-- ===== src/Auth.antt =====
-- app/modules/auth: the refresh-token repository, the service, the current user.
pub mod Api
pub mod Repository
pub mod Service
pub mod Dependencies
mod Tests
