-- ===== src/Analytics.antt =====
-- app/modules/analytics: the reports.
pub mod Api
pub mod Atomic
pub mod Counts
pub mod Repository
pub mod Service
pub mod Reports
pub mod Totals
pub mod Tests
