-- ===== src/Tasks/Files/Roundtrip.antt =====
-- What is uploaded can be downloaded, and what is refused leaves nothing.
use text.Mathlib.TextPositions.{eq_refl}
use ats_project_management_b.Prelude.{
  List, Option, String, [], any, arith, beq_sym, false, filter, filter-any, filter-append, length,
  nat_eq_iff, none, option_eq, refl, some, string_eq, ℕ, ℕ_eq, ◌++◌, ◌+◌, ◌<◌, ◌==◌, ◌∷◌, ◌≡◌, ◌≤◌,
}
use ats_project_management_b.Core.Config.{Settings}
use ats_project_management_b.Core.Exceptions.{Exception}
use ats_project_management_b.Core.Repository.{file_model, scalar_one_or_none}
use ats_project_management_b.Core.Repository.Laws.{add_lem, get_lem}
use ats_project_management_b.Core.Session.{Result, ok, raised, with_session, ◌>>=◌}
use ats_project_management_b.Infrastructure.Storage.{Upload}
use ats_project_management_b.Infrastructure.Storage.Local.{
  Disk, FileSystem, file_too_large, key_for, local_storage, with_file,
}
use ats_project_management_b.Infrastructure.Storage.Local.Bounds.{
  IsHealthy, save_local_refuses, save_local_stores,
}
use ats_project_management_b.Models.{Database, FileAttachment, User, files_clash}
use ats_project_management_b.Platform.{Platform}
use ats_project_management_b.Tasks.Files.{
  filename_or_unnamed, get_attachment, record_upload, resolve_download_path, upload_file,
  with_upload,
}

abbrev pub lookup_file : ℕ → List FileAttachment → Result (Option FileAttachment)
lookup_file file_id files = scalar_one_or_none (filter (λ f. f.id == file_id) files)

module _ ⦃x : Platform⦄ (disk : Disk) (task_id : ℕ) (upload : Upload) (actor : User)
    (settings : Settings) (fs : FileSystem) (db : Database x.Float) (tick : ℕ) where
  -- The row that an upload stores when `tick` answers have been drawn.
  abbrev pub file_row : FileAttachment
  file_row = record {
    id = x.uuid7 (tick + 1);
    created_at = x.utcnow (tick + 1 + 1);
    task_id = task_id;
    uploaded_by = actor.id;
    original_filename = filename_or_unnamed upload.filename;
    stored_filename = key_for tick upload.filename;
    content_type = upload.content_type;
    size_bytes = length upload.content;
  }

  file_found :
      any (files_clash file_row) db.files ≡ false
      → scalar_one_or_none (filter (λ f. f.id == file_row.id) (db.files ++ file_row ∷ []))
        ≡ ok (some file_row)
  unfolding scalar_one_or_none
  file_found distinct =
      let others : filter (λ f. f.id == file_row.id) db.files ≡ [] =
        filter-any (files_clash file_row) (λ f. f.id == file_row.id) db.files
          (λ r e. ground (arith, beq_sym ⦃e = ℕ_eq⦄ r.id file_row.id)) distinct in
      rw
        (
          filter-append (λ f. f.id == file_row.id) db.files (file_row ∷ []),
          others,
          (nat_eq_iff file_row.id file_row.id).1 refl,
        )
        refl

  upload_run :
      IsHealthy disk
      → length upload.content ≤ settings.max_upload_size_bytes
      → any (files_clash file_row) db.files ≡ false
      → with_upload (local_storage disk) task_id upload actor settings fs db tick ≡ (
        (ok file_row, record db { files = db.files ++ file_row ∷ [] }),
        with_file (key_for tick upload.filename) (some upload.content) fs,
      )
  unfolding with_upload upload_file record_upload ◌>>=◌
  upload_run healthy within distinct =
      rw (save_local_stores disk tick upload settings.max_upload_size_bytes fs healthy within) (
        rw (add_lem file_model)
          (rw distinct (rw (get_lem file_model) (rw (file_found distinct) refl))))

  attachment_found :
      (k : ℕ)
      → any (files_clash file_row) db.files ≡ false
      → let db' : Database x.Float = record db { files = db.files ++ file_row ∷ [] } in
        with_session (get_attachment file_row.id) db' k ≡ (ok file_row, db')
  unfolding with_session get_attachment ◌>>=◌
  attachment_found k distinct = rw (get_lem file_model) (rw (file_found distinct) refl)

  -- On a disk where nothing fails, an upload within the bound, whose row clashes with none,
  -- succeeds; nothing else changes in the database. The row is then the one that its id leads to,
  -- its size is that of the upload, and the path to download from holds the uploaded bytes.
  pub upload_roundtrip :
      (k : ℕ)
      → IsHealthy disk
      → length upload.content ≤ settings.max_upload_size_bytes
      → any (files_clash file_row) db.files ≡ false
      → let ((r, db'), fs') =
          with_upload (local_storage disk) task_id upload actor settings fs db tick in
        (r ≡ ok file_row)
        × (db' ≡ record db { files = db.files ++ file_row ∷ [] })
        × (with_session (get_attachment file_row.id) db' k ≡ (ok file_row, db'))
        × (path : String) × (resolve_download_path (local_storage disk) file_row fs' ≡ ok path)
        × (fs' path ≡ some upload.content)
        × (file_row.size_bytes ≡ length upload.content)
  upload_roundtrip k healthy within distinct =
      let key = key_for tick upload.filename in
      rw (upload_run healthy within distinct) (
        refl,
        refl,
        attachment_found k distinct,
        key,
        rw (eq_refl key) refl,
        rw (eq_refl key) refl,
        refl,
      )

  -- On a disk where nothing fails, an upload beyond the bound is refused with FILE_TOO_LARGE; the
  -- database is as it was, and there is no file under the key.
  large_upload_refused :
      IsHealthy disk
      → settings.max_upload_size_bytes < length upload.content
      → with_upload (local_storage disk) task_id upload actor settings fs db tick ≡ (
        (raised (Exception.app (file_too_large settings.max_upload_size_bytes)), db),
        with_file (key_for tick upload.filename) none fs,
      )
  unfolding with_upload upload_file ◌>>=◌
  large_upload_refused healthy above =
      rw (save_local_refuses disk tick upload settings.max_upload_size_bytes fs healthy above) refl
