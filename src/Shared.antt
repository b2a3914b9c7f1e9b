-- ===== src/Shared.antt =====
-- app/shared: the enums, PATCH bodies, pagination.
pub mod Atomic
pub mod Responses
pub mod Enums
pub mod Events
pub mod Fields
pub mod Pagination
pub mod Tests
