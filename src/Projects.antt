-- ===== src/Projects.antt =====
-- app/modules/projects: projects, their members, and who may see or lead them.
pub mod Api
pub mod Access
pub mod Atomic
pub mod Membership
pub mod Permissions
pub mod Repository
pub mod Service
pub mod Tests
