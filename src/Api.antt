-- ===== src/Api.antt =====
-- The routers that `create_app` of app/main.py includes.
pub mod Atomic
pub mod Routes
pub mod Accounts
pub mod Login
pub mod Admin
pub mod Guards
pub mod Strangers
pub mod Tests
