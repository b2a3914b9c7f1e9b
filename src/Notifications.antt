-- ===== src/Notifications.antt =====
-- app/modules/notifications: the service and the handlers of events.
pub mod Api
pub mod Reading
pub mod Service
pub mod Tests
pub mod Atomic
pub mod Handlers
