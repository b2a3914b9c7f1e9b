-- ===== src/Tasks/FilesApi.antt =====
-- app/modules/tasks/files_api.py.
use ats_project_management_b.Prelude.{
  List, Option, String, if◌then◌else◌, none, option_eq, some, string_eq, ℕ, ℕ_eq, ◌==◌,
}
use ats_project_management_b.Auth.Dependencies.{get_current_user}
use ats_project_management_b.Core.Config.{Settings}
use ats_project_management_b.Core.Session.{
  Exec, Result, Session, lift, ok, pure, raised, ◌>>=◌, ◌>>◌,
}
use ats_project_management_b.Infrastructure.Storage.{StorageBackend, Upload}
use ats_project_management_b.Models.{FileAttachment, Task, User}
use ats_project_management_b.Platform.{Platform}
use ats_project_management_b.Shared.Responses.{ApiResponse, Reply, created, ok_data}
use ats_project_management_b.Tasks.Api.{accessible_task}
use ats_project_management_b.Tasks.Files.{
  get_attachment, list_files, resolve_download_path, upload_file,
}
use ats_project_management_b.Tasks.Service.{get_accessible_task}

-- `FileResponse(path, filename=…, media_type=…)`
pub record FileResponse : Type 0 where
  pub path : String
  pub filename : String
  pub media_type : String

-- `attachment.content_type or "application/octet-stream"`
abbrev pub media_type_of : Option String → String
media_type_of none = "application/octet-stream"
media_type_of (some t) = if t == "" then "application/octet-stream" else t

abbrev pub file_response : FileAttachment → String → FileResponse
file_response attachment path = record {
  path = path;
  filename = attachment.original_filename;
  media_type = media_type_of attachment.content_type;
}

module _ ⦃x : Platform⦄ (settings : Settings) (token : x.Jwt) where
  unfoldable pub list_files_route : ℕ → Exec (Reply (ApiResponse (List FileAttachment)))
  list_files_route task_id = do
    found_task ← accessible_task settings token task_id
    attachments ← list_files found_task.0.id
    pure (ok_data attachments)

  module _ {S : Type 0} (storage : StorageBackend S) where
    abbrev pub uploaded :
        Result FileAttachment × Session x.Float
        → Result (Reply (ApiResponse FileAttachment)) × Session x.Float
    uploaded (ok attachment, s) = (ok (created "File uploaded" attachment), s)
    uploaded (raised e, s) = (raised e, s)

    -- The storage is reached only after the access check.
    abbrev pub upload_checked :
        Upload
        → S
        → Result (Task x.Float × User) × Session x.Float
        → (Result (Reply (ApiResponse FileAttachment)) × Session x.Float) × S
    upload_checked file state (raised e, s) = ((raised e, s), state)
    upload_checked file state (ok found_task, s) =
        let (o, state') = upload_file storage found_task.0.id file found_task.1 settings state s in
        (uploaded o, state')

    unfoldable pub upload_file_route :
        ℕ
        → Upload
        → S
        → Session x.Float
        → (Result (Reply (ApiResponse FileAttachment)) × Session x.Float) × S
    upload_file_route task_id file state s =
        upload_checked file state (accessible_task settings token task_id s)

    unfoldable pub download_file_route : ℕ → S → Exec (Reply FileResponse)
    download_file_route file_id state = do
      actor ← get_current_user token settings
      attachment ← get_attachment file_id
      get_accessible_task attachment.task_id actor
      path ← lift (resolve_download_path storage attachment state)
      pure (record { status = 200; body = file_response attachment path })
