-- ===== src/Tasks/Files/Tests.antt =====
-- The theorems on uploads at a concrete one.
use ats_project_management_b.Prelude.{String, [], arith, none, refl, some, true, ℕ, ◌∷◌, ◌≡◌}
use ats_project_management_b.Core.Config.{default_settings}
use ats_project_management_b.Core.Session.{ok, with_session}
use ats_project_management_b.Infrastructure.Storage.{Upload}
use ats_project_management_b.Infrastructure.Storage.Local.{Disk, FileSystem, local_storage}
use ats_project_management_b.Models.{Database, FileAttachment, User}
use ats_project_management_b.Platform.Memory.{memory}
use ats_project_management_b.Shared.Enums.{UserRole}
use ats_project_management_b.Tasks.Files.{get_attachment, resolve_download_path, with_upload}
use ats_project_management_b.Tasks.Files.Roundtrip.{upload_roundtrip}

abbrev notes : Upload
notes = record {
  filename = some "notes.txt";
  content_type = some "text/plain";
  content = 104 ∷ 105 ∷ [];
}

abbrev empty_disk : FileSystem
empty_disk name = none

abbrev working : Disk
working = record {
  opens = true;
  reads = λ k. true;
  writes = λ k. true;
  closes = true;
  unlinks = true;
  remains = some;
}

abbrev bob : User
bob = record {
  id = 2;
  created_at = 0;
  deleted_at = none;
  email = "bob@test.com";
  hashed_password = "";
  full_name = "Bob";
  role = UserRole.employee;
  is_active = true;
}

abbrev db : Database ℕ
db = record {
  users = bob ∷ [];
  tokens = [];
  projects = [];
  members = [];
  tasks = [];
  comments = [];
  files = [];
  notifications = [];
}

abbrev row : FileAttachment
row = record {
  id = 1004;
  created_at = 5000000;
  task_id = 7;
  uploaded_by = 2;
  original_filename = "notes.txt";
  stored_filename = "xxx.txt";
  content_type = some "text/plain";
  size_bytes = 2;
}

upload_roundtrip_example :
    let ((r, db'), fs') =
      with_upload (local_storage working) 7 notes bob default_settings empty_disk db 3 in
    (r ≡ ok row)
    × (db' ≡ record db { files = row ∷ [] })
    × (with_session (get_attachment 1004) db' 9 ≡ (ok row, db'))
    × (path : String) × (resolve_download_path (local_storage working) row fs' ≡ ok path)
    × (fs' path ≡ some (104 ∷ 105 ∷ []))
    × (◌≡◌ {A = ℕ} 2 2)
upload_roundtrip_example =
    upload_roundtrip working 7 notes bob default_settings empty_disk db 3 9
      (refl, λ k. refl, λ k. refl, refl, refl) (omega arith) refl
