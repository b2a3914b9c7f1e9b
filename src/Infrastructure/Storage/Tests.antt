-- ===== src/Infrastructure/Storage/Tests.antt =====
-- The theorems on storage at concrete uploads.
use ats_project_management_b.Prelude.{[], false, none, refl, some, true, ◌∷◌, ◌≡◌}
use ats_project_management_b.Core.Session.{ok}
use ats_project_management_b.Infrastructure.Storage.{Upload}
use ats_project_management_b.Infrastructure.Storage.Local.{Disk, FileSystem, save_local, with_file}
use ats_project_management_b.Infrastructure.Storage.Local.Bounds.{save_local_bounded}
use ats_project_management_b.Platform.Memory.{memory}

abbrev notes : Upload
notes = record {
  filename = some "notes.txt";
  content_type = some "text/plain";
  content = 104 ∷ 105 ∷ [];
}

abbrev empty_disk : FileSystem
empty_disk name = none

abbrev working : Disk
working = record {
  opens = true;
  reads = λ k. true;
  writes = λ k. true;
  closes = true;
  unlinks = true;
  remains = some;
}

-- A disk that is full.
abbrev full : Disk
full = record {
  opens = true;
  reads = λ k. true;
  writes = λ k. false;
  closes = true;
  unlinks = true;
  remains = some;
}

save_local_bounded_example : save_local working 3 notes 2 empty_disk ≡ (
  ok (record { key = "xxx.txt"; size_bytes = 2 }),
  with_file "xxx.txt" (some (104 ∷ 105 ∷ [])) empty_disk,
)
save_local_bounded_example =
    save_local_bounded working 3 notes 2 empty_disk (refl, λ k. refl, λ k. refl, refl, refl)
