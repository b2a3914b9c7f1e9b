-- ===== src/Infrastructure/Storage.antt =====
-- The protocol of app/infrastructure/storage/__init__.py: what a backend offers to the services,
-- over whatever state `S` the backend keeps.
pub mod Local
pub mod Tests
use ats_project_management_b.Prelude.{List, Option, String, ℕ}
use ats_project_management_b.Core.Repository.{save}
use ats_project_management_b.Core.Session.{Result}

pub record StoredFile : Type 0 where
  pub key : String
  pub size_bytes : ℕ

-- An upload as the framework hands it over: the bytes of the stream, in order.
pub record Upload : Type 0 where
  pub filename : Option String
  pub content_type : Option String
  pub content : List ℕ

-- A save gets the number of a fresh random key.
pub record StorageBackend (S : Type 0) : Type 0 where
  pub save : ℕ → Upload → ℕ → S → Result StoredFile × S
  pub remove : String → S → Result (Unit {0}) × S
  pub local_path : String → S → Option String
