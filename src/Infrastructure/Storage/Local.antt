-- ===== src/Infrastructure/Storage/Local.antt =====
-- `LocalStorage` of app/infrastructure/storage/local.py. The folder is the contents of its files;
-- a disk says which of the calls to the operating system and the client's stream succeed: the
-- opening, each read and write, the closing and the removal, and what a file holds that could
-- neither be completed nor removed, given the bytes written so far. A call fails with an Exception;
-- a cancellation, which is none and which no clause of the code catches, is not modelled.
pub mod Bounds
pub mod Saving
use ats_project_management_b.Prelude.{
  Bool, List, Option, String, [], decimal, drop, if◌then◌else◌, length, ltb, none, not, some,
  string_eq, suc, take, text_take, zero, ℕ, ℕ_eq, ◌++◌, ◌+◌, ◌<>◌, ◌==◌,
}
use ats_project_management_b.Core.Constants.{ErrorCode}
use ats_project_management_b.Core.Exceptions.{AppException, Exception, Kind}
use ats_project_management_b.Core.Repository.{save}
use ats_project_management_b.Core.Session.{Result, ok, raised}
use ats_project_management_b.Infrastructure.Storage.{StorageBackend, StoredFile, Upload}
use ats_project_management_b.Platform.{Platform}

abbrev pub FileSystem : Type 0
FileSystem = String → Option (List ℕ)

-- Writing, or removing, one file.
abbrev pub with_file : String → Option (List ℕ) → FileSystem → FileSystem
with_file key content fs name = if name == key then content else fs name

pub record Disk : Type 0 where
  pub opens : Bool
  pub reads : ℕ → Bool
  pub writes : ℕ → Bool
  pub closes : Bool
  pub unlinks : Bool
  pub remains : List ℕ → Option (List ℕ)

-- `_CHUNK_SIZE`
unfoldable pub chunk_size : ℕ
chunk_size = 1048576

abbrev pub file_too_large : ℕ → AppException
file_too_large max_size_bytes = record {
  kind = Kind.validation;
  detail = "File exceeds maximum size of " <> decimal max_size_bytes <> " bytes";
  code = ErrorCode.file_too_large;
  field = some "file";
}

-- The loop over the chunks, with the bytes written so far; `none` if the fuel ran out.
unfoldable pub write_chunks : ℕ → Disk → ℕ → ℕ → List ℕ → ℕ → List ℕ → Option (Result ℕ × List ℕ)
write_chunks zero disk max_size_bytes round stream size written = none
write_chunks (suc fuel) disk max_size_bytes round stream size written =
    let chunk = take chunk_size stream in
    let size' = size + length chunk in
    let next =
      write_chunks fuel disk max_size_bytes (round + 1) (drop chunk_size stream) size'
        (written ++ chunk) in
    if not (disk.reads round)
    then some (raised Exception.unexpected, written)
    else if length chunk == 0
    then some (ok size, written)
    else if ltb max_size_bytes size'
    then some (raised (Exception.app (file_too_large max_size_bytes)), written)
    else if not (disk.writes round)
    then some (raised Exception.unexpected, written)
    else next

-- `target.unlink(missing_ok=True)` and `raise`: a failing removal replaces the exception.
abbrev pub unlink_raise :
    Disk → String → FileSystem → List ℕ → Exception → Result StoredFile × FileSystem
unlink_raise disk key fs written e =
    if disk.unlinks
    then (raised e, with_file key none fs)
    else (raised Exception.unexpected, with_file key (disk.remains written) fs)

-- The end of the `async with`, which closes the file on both ways, and the two `except` clauses.
abbrev pub close_file :
    Disk → String → FileSystem → Option (Result ℕ × List ℕ) → Result StoredFile × FileSystem
close_file disk key fs none = unlink_raise disk key fs [] Exception.unexpected
close_file disk key fs (some (raised e, written)) =
    unlink_raise disk key fs written (if disk.closes then e else Exception.unexpected)
close_file disk key fs (some (ok size, written)) =
    if disk.closes
    then (ok (record { key = key; size_bytes = size }), with_file key (some written) fs)
    else unlink_raise disk key fs written Exception.unexpected

-- `path if path.is_file() else None`
abbrev pub path_if : String → Option (List ℕ) → Option String
path_if key none = none
path_if key (some content) = some key

-- `original_filename or ""`
abbrev pub name_or_empty : Option String → String
name_or_empty none = ""
name_or_empty (some name) = name

module _ ⦃x : Platform⦄ where
  abbrev pub key_for : ℕ → Option String → String
  key_for n filename = x.uuid4_hex n <> text_take 16 (x.path_suffix (name_or_empty filename))

  -- Each round but the last takes a byte at least, so that the fuel is enough.
  unfoldable pub save_local : Disk → ℕ → Upload → ℕ → FileSystem → Result StoredFile × FileSystem
  save_local disk n upload max_size_bytes fs =
      let key = key_for n upload.filename in
      if disk.opens
      then close_file disk key fs
          (write_chunks (suc (length upload.content)) disk max_size_bytes 0 upload.content 0 [])
      else unlink_raise disk key fs [] Exception.unexpected

  -- `LocalStorage.delete`
  abbrev pub remove_file : Disk → String → FileSystem → Result (Unit {0}) × FileSystem
  remove_file disk key fs =
      if disk.unlinks then (ok tt, with_file key none fs) else (raised Exception.unexpected, fs)

  abbrev pub local_storage : Disk → StorageBackend FileSystem
  local_storage disk = record {
    save = save_local disk;
    remove = remove_file disk;
    local_path = λ key fs. path_if key (fs key);
  }
