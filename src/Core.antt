-- ===== src/Core.antt =====
-- app/core: constants, exceptions, the session and its repositories, security.
pub mod Engine
pub mod Middleware
pub mod RateLimit
pub mod Constants
pub mod Exceptions
pub mod Session
pub mod Config
pub mod Security
pub mod Repository
pub mod Tests
