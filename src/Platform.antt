-- ===== src/Platform.antt =====
-- What the program calls and does not implement, as one interface: the database behind SQLAlchemy,
-- bcrypt, SHA-256, the token generator, python-jose, the clock, UUIDs, Unicode and floats.
-- A value that differs from call to call (a fresh UUID, a salt, the time) is a function of the
-- number of such calls made so far.
mod Defs
pub mod Memory
pub use Defs.*
