-- ===== src/Tasks/Files.antt =====
-- `FileService` of app/modules/tasks/file_service.py, over any storage backend.
pub mod Roundtrip
pub mod Tests
use ats_project_management_b.Prelude.{
  List, Option, String, if◌then◌else◌, leb, none, not, option_eq, some, string_eq, ℕ, ℕ_eq, ◌+◌,
  ◌==◌,
}
use ats_project_management_b.Core.Config.{Settings}
use ats_project_management_b.Core.Exceptions.{AppException, Kind, plain}
use ats_project_management_b.Core.Repository.{add, file_model, get, stored}
use ats_project_management_b.Core.Session.{
  Exec, Result, Session, asserted, draw, found, lift, ok, or_raise, settle, ◌>>=◌, ◌>>◌,
}
use ats_project_management_b.Infrastructure.Storage.{StorageBackend, StoredFile, Upload}
use ats_project_management_b.Models.{Database, FileAttachment, User}
use ats_project_management_b.Platform.{Platform}

abbrev pub file_not_found : AppException
file_not_found = plain Kind.not_found "File not found"

abbrev pub not_in_storage : AppException
not_in_storage = plain Kind.not_found "File not found in storage"

-- `upload.filename or "unnamed"`
abbrev pub filename_or_unnamed : Option String → String
filename_or_unnamed none = "unnamed"
filename_or_unnamed (some name) = if name == "" then "unnamed" else name

module _ ⦃x : Platform⦄ where
  -- The newest first.
  unfoldable pub list_files : ℕ → Exec (List FileAttachment)
  list_files task_id s = (
    ok (
        x.order_by (λ a b. leb b.created_at a.created_at)
          (x.select (λ f. f.task_id == task_id) s.current.files)),
    s,
  )

  -- The part of `upload` after the save.
  unfoldable pub record_upload : ℕ → Upload → User → StoredFile → Exec FileAttachment
  record_upload task_id upload actor stored = do
    id ← draw x.uuid7
    now ← draw x.utcnow
    attachment ← add file_model (record {
      id = id;
      created_at = now;
      task_id = task_id;
      uploaded_by = actor.id;
      original_filename = filename_or_unnamed upload.filename;
      stored_filename = stored.key;
      content_type = upload.content_type;
      size_bytes = stored.size_bytes;
    })
    loaded ← get file_model attachment.id
    asserted loaded

  unfoldable pub get_attachment : ℕ → Exec FileAttachment
  get_attachment file_id = do existing ← get file_model file_id; or_raise existing file_not_found

  module _ {S : Type 0} (storage : StorageBackend S) where
    -- The storage is changed outside of the database's session: a rollback does not reach it.
    unfoldable pub upload_file :
        ℕ
        → Upload
        → User
        → Settings
        → S
        → Session x.Float
        → (Result FileAttachment × Session x.Float) × S
    upload_file task_id upload actor settings state s =
        let (stored, state') = storage.save s.tick upload settings.max_upload_size_bytes state in
        (
          (lift stored >>= record_upload task_id upload actor) (record s { tick = s.tick + 1 }),
          state',
        )

    -- The request that runs an upload.
    unfoldable pub with_upload :
        ℕ
        → Upload
        → User
        → Settings
        → S
        → Database x.Float
        → ℕ
        → (Result FileAttachment × Database x.Float) × S
    with_upload task_id upload actor settings state db tick =
        let (o, state') =
          upload_file task_id upload actor settings state
            (record { committed = db; current = db; tick = tick }) in
        (settle o, state')

    abbrev pub resolve_download_path : FileAttachment → S → Result String
    resolve_download_path attachment state =
        found (storage.local_path attachment.stored_filename state) not_in_storage
