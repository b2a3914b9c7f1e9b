-- ===== src/Infrastructure.antt =====
-- app/infrastructure: storage, cache and queue behind their protocols.
pub mod Backends
pub mod Health
pub mod Cache
pub mod Queue
pub mod Storage
