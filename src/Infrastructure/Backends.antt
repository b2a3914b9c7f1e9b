-- ===== src/Infrastructure/Backends.antt =====
-- The factories `get_storage`, `get_cache` and `get_queue`: the backend that a setting names. An
-- unknown name is a ValueError.
use ats_project_management_b.Prelude.{if◌then◌else◌, string_eq, ℕ_eq, ◌==◌, ◌||◌}
use ats_project_management_b.Core.Config.{Settings}
use ats_project_management_b.Core.Exceptions.{Exception}
use ats_project_management_b.Core.Session.{Result, ok, raised}
use ats_project_management_b.Platform.{Platform}

pub data StorageKind : Type 0 where
  local_disk s3_bucket azure_blob : StorageKind

pub data CacheKind : Type 0 where
  in_memory no_cache redis_cache : CacheKind

pub data QueueKind : Type 0 where
  inline_queue celery_queue : QueueKind

module _ ⦃x : Platform⦄ where
  unfoldable pub get_storage : Settings → Result StorageKind
  get_storage settings =
      let backend = x.lower settings.storage_backend in
      if backend == "local"
      then ok StorageKind.local_disk
      else if backend == "s3" || backend == "r2"
      then ok StorageKind.s3_bucket
      else if backend == "azure"
      then ok StorageKind.azure_blob
      else raised Exception.unexpected

  unfoldable pub get_cache : Settings → Result CacheKind
  get_cache settings =
      let backend = x.lower settings.cache_backend in
      if backend == "memory"
      then ok CacheKind.in_memory
      else if backend == "none"
      then ok CacheKind.no_cache
      else if backend == "redis"
      then ok CacheKind.redis_cache
      else raised Exception.unexpected

  unfoldable pub get_queue : Settings → Result QueueKind
  get_queue settings =
      let backend = x.lower settings.queue_backend in
      if backend == "inline"
      then ok QueueKind.inline_queue
      else if backend == "celery"
      then ok QueueKind.celery_queue
      else raised Exception.unexpected
