-- ===== src/Models.antt =====
-- The rows of the database: the models of app/modules, one record for each table.
-- The column `updated_at`, which the database sets and the code only reports, is left out.
-- Relationships are not stored; each is the join that the repositories write.
mod Users
mod Tokens
mod Projects
mod Tasks
mod Notifications
mod Tables
pub use Users.*
pub use Tokens.*
pub use Projects.*
pub use Tasks.*
pub use Notifications.*
pub use Tables.*
