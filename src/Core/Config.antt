-- ===== src/Core/Config.antt =====
-- `Settings` of app/core/config.py, with what the validator and the properties make of it.
pub mod Production
use Prim.Native.Char.{Char, code}
use text.Mathlib.Text.{starts_with}
use ats_project_management_b.Prelude.{
  Bool, List, Option, String, [], any, false, filter, if◌then◌else◌, inl, inr, ltb, map, none, not,
  some, string_eq, suc, text_drop, text_length, true, zero, ℕ, ℕ_eq, ◌-◌, ◌<>◌, ◌==◌, ◌||◌, ◌∷◌,
  ◌⊎◌,
}
use ats_project_management_b.Models.{Project}
use ats_project_management_b.Platform.{Platform}

pub data Environment : Type 0 where
  development testing staging production : Environment

-- The fields, each with its default below; durations and sizes are natural numbers.
pub record Settings : Type 0 where
  pub app_name : String
  pub api_v1_prefix : String
  pub environment : Environment
  pub debug : Bool
  pub database_url : String
  pub database_echo : Bool
  pub database_pool_size : ℕ
  pub database_max_overflow : ℕ
  pub jwt_secret_key : String
  pub jwt_algorithm : String
  pub access_token_expire_minutes : ℕ
  pub refresh_token_expire_days : ℕ
  pub password_min_length : ℕ
  pub password_max_length : ℕ
  pub cors_origins : String
  pub cors_allow_local_dev : Bool
  pub rate_limit_enabled : Bool
  pub rate_limit_auth : String
  pub storage_backend : String
  pub upload_dir : String
  pub max_upload_size_bytes : ℕ
  pub s3_bucket : String
  pub s3_region : String
  pub s3_endpoint_url : String
  pub azure_container : String
  pub azure_connection_string : String
  pub cache_backend : String
  pub redis_url : String
  pub queue_backend : String
  pub log_level : String
  pub log_json : Option Bool
  pub run_migrations_on_startup : Bool

abbrev pub default_settings : Settings
default_settings = record {
  app_name = "ATS Project Management API";
  api_v1_prefix = "/api/v1";
  environment = Environment.development;
  debug = false;
  database_url = "sqlite+aiosqlite:///./ats_pm.db";
  database_echo = false;
  database_pool_size = 10;
  database_max_overflow = 20;
  jwt_secret_key = "change-me-in-production";
  jwt_algorithm = "HS256";
  access_token_expire_minutes = 30;
  refresh_token_expire_days = 7;
  password_min_length = 8;
  password_max_length = 128;
  cors_origins = "http://localhost:3000,http://localhost:8080,http://localhost:5000";
  cors_allow_local_dev = true;
  rate_limit_enabled = true;
  rate_limit_auth = "10/minute";
  storage_backend = "local";
  upload_dir = "uploads";
  max_upload_size_bytes = 26214400;
  s3_bucket = "";
  s3_region = "";
  s3_endpoint_url = "";
  azure_container = "";
  azure_connection_string = "";
  cache_backend = "memory";
  redis_url = "redis://localhost:6379/0";
  queue_backend = "inline";
  log_level = "INFO";
  log_json = none;
  run_migrations_on_startup = true;
}

-- `_INSECURE_SECRETS`
abbrev pub insecure_secrets : List String
insecure_secrets = "" ∷ "change-me-in-production" ∷ "secret" ∷ "changeme" ∷ []

-- `text.replace(old, new)` for an `old` of `suc gap` characters: after a replacement, the rest of
-- the old text is skipped.
replace_from : ℕ → ℕ → String → String → String → String
replace_from skip gap old new String.[] = ""
replace_from (suc skip) gap old new (String.◌∷◌ c s) = replace_from skip gap old new s
replace_from zero gap old new (String.◌∷◌ c s) =
    let replaced = new <> replace_from gap gap old new s in
    let kept = String.◌∷◌ c (replace_from zero gap old new s) in
    if starts_with (String.◌∷◌ c s) old then replaced else kept

unfoldable pub replace : String → String → String → String
unfolding replace_from
replace old new s = replace_from 0 (text_length old - 1) old new s

-- `text.replace(old, new, 1)`
unfoldable pub replace_first : String → String → String → String
replace_first old new String.[] = ""
replace_first old new (String.◌∷◌ c s) =
    let replaced = new <> text_drop (text_length old) (String.◌∷◌ c s) in
    let kept = String.◌∷◌ c (replace_first old new s) in
    if starts_with (String.◌∷◌ c s) old then replaced else kept

abbrev pub is_postgres : String → Bool
is_postgres url = starts_with url "postgres://" || starts_with url "postgresql://"

abbrev pub has_asyncpg : String → Bool
has_asyncpg url = starts_with url "postgresql+asyncpg://" || starts_with url "postgres+asyncpg://"

-- The driver of a PostgreSQL URL.
unfoldable pub with_driver : String → String
with_driver url =
    if has_asyncpg url
    then url
    else if starts_with url "postgres://"
    then replace_first "postgres://" "postgresql+asyncpg://" url
    else replace_first "postgresql://" "postgresql+asyncpg://" url

-- The first half of `_normalize_and_validate`.
unfoldable pub normalize : String → String
unfolding with_driver
normalize url =
    if is_postgres url
    then replace "&sslmode=" "&ssl=" (replace "?sslmode=" "?ssl=" (with_driver url))
    else url

abbrev pub is_production : Environment → Bool
is_production Environment.development = false
is_production Environment.testing = false
is_production Environment.staging = false
is_production Environment.production = true

-- A ValueError of the validator, by its check.
pub data ConfigError : Type 0 where
  weak_secret sqlite_in_production debug_in_production : ConfigError

abbrev pub is_weak : String → Bool
is_weak secret =
    any (λ insecure. secret == insecure) insecure_secrets || ltb (text_length secret) 32

-- The second half: the first check that fails.
unfoldable pub production_error : Settings → Option ConfigError
production_error settings =
    if is_weak settings.jwt_secret_key
    then some ConfigError.weak_secret
    else if starts_with settings.database_url "sqlite"
    then some ConfigError.sqlite_in_production
    else if settings.debug
    then some ConfigError.debug_in_production
    else none

-- The settings, or the error, if there is one.
abbrev pub settings_or : Settings → Option ConfigError → Settings ⊎ ConfigError
settings_or settings none = inl settings
settings_or settings (some error) = inr error

-- `_normalize_and_validate`
unfoldable pub normalize_and_validate : Settings → Settings ⊎ ConfigError
normalize_and_validate settings =
    let settings' = record settings { database_url = normalize settings.database_url } in
    if is_production settings'.environment
    then settings_or settings' (production_error settings')
    else inl settings'

-- `is_production_like`
abbrev pub is_production_like : Environment → Bool
is_production_like Environment.development = false
is_production_like Environment.testing = false
is_production_like Environment.staging = true
is_production_like Environment.production = true

-- `log_json_enabled`
abbrev pub log_json_or : Option Bool → Environment → Bool
log_json_or none environment = is_production_like environment
log_json_or (some log_json) environment = log_json

abbrev pub log_json_enabled : Settings → Bool
log_json_enabled settings = log_json_or settings.log_json settings.environment

-- `sync_database_url`
abbrev pub sync_database_url : Settings → String
sync_database_url settings =
    replace "+asyncpg" "+psycopg" (replace "+aiosqlite" "" settings.database_url)

-- `cors_origins.split(",")`
abbrev pub put_char : Char → List String → List String
put_char c [] = String.◌∷◌ c "" ∷ []
put_char c (part ∷ parts) = String.◌∷◌ c part ∷ parts

unfoldable pub split_commas : String → List String
split_commas String.[] = "" ∷ []
split_commas (String.◌∷◌ c s) =
    let rest = split_commas s in if code c == 44 then "" ∷ rest else put_char c rest

-- `cors_origin_list`
abbrev pub cors_origin_list : ⦃x : Platform⦄ → Settings → List String
cors_origin_list ⦃x⦄ settings =
    filter (λ origin. not (origin == "")) (map x.strip (split_commas settings.cors_origins))
