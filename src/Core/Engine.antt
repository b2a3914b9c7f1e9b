-- ===== src/Core/Engine.antt =====
-- `build_engine` of app/core/database.py: the arguments that it gives to SQLAlchemy.
use text.Mathlib.Text.{starts_with}
use ats_project_management_b.Prelude.{Bool, String, false, if◌then◌else◌, true, ℕ}
use ats_project_management_b.Core.Config.{Settings}

-- What depends on the kind of database: `connect_args` for SQLite, a pool for the others.
pub data EngineKind : Type 0 where
  sqlite_file : Bool → EngineKind
  pooled : ℕ → ℕ → EngineKind

pub record EngineOptions : Type 0 where
  pub url : String
  pub echo : Bool
  pub pool_pre_ping : Bool
  pub kind : EngineKind
  pub autoflush : Bool
  pub expire_on_commit : Bool

-- `check_same_thread` is false for SQLite; the pool has a size and an overflow.
unfoldable pub build_engine : Settings → EngineOptions
build_engine settings = record {
  url = settings.database_url;
  echo = settings.database_echo;
  pool_pre_ping = true;
  kind =
      if starts_with settings.database_url "sqlite"
      then EngineKind.sqlite_file false
      else EngineKind.pooled settings.database_pool_size settings.database_max_overflow;
  autoflush = false;
  expire_on_commit = false;
}
