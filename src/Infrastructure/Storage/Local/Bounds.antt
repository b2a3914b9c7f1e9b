-- ===== src/Infrastructure/Storage/Local/Bounds.antt =====
-- The bound on the size of an upload, on a disk where nothing fails.
use ats_project_management_b.Prelude.{
  Bool-cases, List, String, [], ap, arith, drop, false, if◌then◌else◌, inl, inr, leb, length, ltb,
  nat_eq_iff, none, refl, some, string_eq, suc, take, true, zero, ℕ, ℕ_eq, ◌++◌, ◌+◌, ◌<◌, ◌==◌,
  ◌∙◌, ◌≡◌, ◌≤◌,
}
use ats_project_management_b.Core.Exceptions.{Exception}
use ats_project_management_b.Core.Repository.{stored}
use ats_project_management_b.Core.Session.{Result, ok, raised}
use ats_project_management_b.Infrastructure.Storage.{StoredFile, Upload}
use ats_project_management_b.Infrastructure.Storage.Local.{
  Disk, FileSystem, chunk_size, close_file, file_too_large, key_for, save_local, with_file,
  write_chunks,
}
use ats_project_management_b.Infrastructure.Storage.Local.Saving.{
  IsSaved, chunk_size_pos, length-drop-lt, length-take-drop, save_local-IsSaved, take_empty,
}
use ats_project_management_b.Platform.{Platform}

-- No call to the disk or the client's stream fails.
abbrev pub IsHealthy : Disk → Type 0
IsHealthy disk =
    (disk.opens ≡ true)
    × ((k : ℕ) → disk.reads k ≡ true)
    × ((k : ℕ) → disk.writes k ≡ true)
    × (disk.closes ≡ true)
    × (disk.unlinks ≡ true)

-- What the loop returns for a total size.
abbrev pub bounded : ℕ → ℕ → Result ℕ
bounded max_size_bytes total =
    if leb total max_size_bytes
    then ok total
    else raised (Exception.app (file_too_large max_size_bytes))

bounded-le :
    (max_size_bytes total : ℕ) → total ≤ max_size_bytes → bounded max_size_bytes total ≡ ok total
bounded-le max_size_bytes total h = ground arith

bounded-lt :
    (max_size_bytes total : ℕ)
    → max_size_bytes < total
    → bounded max_size_bytes total ≡ raised (Exception.app (file_too_large max_size_bytes))
bounded-lt max_size_bytes total h = ground arith

module _ (disk : Disk) (max_size_bytes : ℕ) (healthy : IsHealthy disk) where
  write_chunks-bounded :
      (fuel round : ℕ) (stream : List ℕ) (size : ℕ) (written : List ℕ)
      → length stream < fuel
      → size ≤ max_size_bytes
      → (w : List ℕ) × (write_chunks fuel disk max_size_bytes round stream size written
          ≡ some (bounded max_size_bytes (size + length stream), w))
  unfolding write_chunks
  write_chunks-bounded zero round stream size written h k = absurd (omega arith)
  write_chunks-bounded (suc fuel) round stream size written h k =
      let chunk = take chunk_size stream in
      let total = length-take-drop chunk_size stream in
      let reads = healthy.1 round in
      let writes = healthy.2 round in
      elim (Bool-cases (length chunk == 0)) [
        | inl f ↦
            let e = take_empty chunk_size stream chunk_size_pos ((nat_eq_iff _ 0).0 f) in
            let none_left : size + length stream ≡ size = rw e (omega arith) in
            (written, rw (reads, f, none_left, bounded-le max_size_bytes size k) refl)
        | inr f ↦ elim (Bool-cases (ltb max_size_bytes (size + length chunk))) [
          | inl g ↦ (
            written,
            rw (reads, f, g, bounded-lt max_size_bytes (size + length stream) (ground arith)) refl,
          )
          | inr g ↦
              let (w, ran) =
                write_chunks-bounded fuel (round + 1) (drop chunk_size stream) (size + length chunk)
                  (written ++ chunk) (length-drop-lt fuel stream h f) (ground arith) in
              let same : size + length chunk + length (drop chunk_size stream)
                  ≡ size + length stream =
                omega arith in
              (w, rw (reads, f, g, writes) (ran ∙ rw same refl))
        ]
      ]

-- What a disk where nothing fails makes of the loop's outcome.
close_healthy :
    (disk : Disk) (key : String) (fs : FileSystem) (max_size_bytes total : ℕ) (w : List ℕ)
    → IsHealthy disk
    → close_file disk key fs (some (bounded max_size_bytes total, w)) ≡ (
        if leb total max_size_bytes
        then (ok (record { key = key; size_bytes = total }), with_file key (some w) fs)
        else (raised (Exception.app (file_too_large max_size_bytes)), with_file key none fs))
close_healthy disk key fs max_size_bytes total w healthy =
    elim (Bool-cases (leb total max_size_bytes)) [
      | inl e ↦ rw (e, healthy.3) refl
      | inr e ↦ rw (e, healthy.3, healthy.4) refl
    ]

saved_ok :
    (disk : Disk) (key : String) (content : List ℕ) (max_size_bytes : ℕ) (fs : FileSystem)
    (o : Result StoredFile × FileSystem) (stored : StoredFile)
    → IsSaved disk key content max_size_bytes fs o
    → o.0 ≡ ok stored
    → o ≡ (ok (record { key = key; size_bytes = length content }), with_file key (some content) fs)
saved_ok disk key content max_size_bytes fs (ok s, fs') stored h e =
    ap (λ t. (ok t, fs')) h.0
    ∙ ap (λ g. (ok (record { key = key; size_bytes = length content }), g)) h.2
saved_ok disk key content max_size_bytes fs (raised d, fs') stored h e = cc

saved_raised :
    (disk : Disk) (key : String) (content : List ℕ) (max_size_bytes : ℕ) (fs : FileSystem)
    (o : Result StoredFile × FileSystem) (d : Exception)
    → IsSaved disk key content max_size_bytes fs o
    → disk.unlinks ≡ true
    → o.0 ≡ raised d
    → o ≡ (raised d, with_file key none fs)
saved_raised disk key content max_size_bytes fs (ok s, fs') d h u e = cc
saved_raised disk key content max_size_bytes fs (raised c, fs') d (rest, h) u e =
    ap (λ r. (r, fs')) e
    ∙ ap (λ g. (raised d, g)) (h ∙ ap (λ b. with_file key (if b then none else rest) fs) u)

module _ ⦃x : Platform⦄ (disk : Disk) (n : ℕ) (upload : Upload) (max_size_bytes : ℕ)
    (fs : FileSystem) where
  saved_result :
      IsHealthy disk
      → (save_local disk n upload max_size_bytes fs).0 ≡ (
          if leb (length upload.content) max_size_bytes
          then ok (record { key = key_for n upload.filename; size_bytes = length upload.content })
          else raised (Exception.app (file_too_large max_size_bytes)))
  unfolding save_local
  saved_result healthy =
      let key = key_for n upload.filename in
      let (w, ran) =
        write_chunks-bounded disk max_size_bytes healthy (suc (length upload.content)) 0
          upload.content 0 [] (omega arith) (omega arith) in
      let total : 0 + length upload.content ≡ length upload.content = omega arith in
      rw (ran, total, healthy.0)
        (ap (λ o. o.0) (close_healthy disk key fs max_size_bytes (length upload.content) w healthy)
          ∙ elim (Bool-cases (leb (length upload.content) max_size_bytes)) [
            | inl e ↦ rw e refl
            | inr e ↦ rw e refl
          ])

  -- On a disk where nothing fails, an upload of at most the given number of bytes is stored under
  -- the fresh key: its size is returned and the file holds its bytes. A larger one is refused with
  -- FILE_TOO_LARGE on the field "file", and there is no file under the key. All other files are as
  -- they were.
  pub save_local_bounded :
      IsHealthy disk
      → save_local disk n upload max_size_bytes fs ≡ (
          if leb (length upload.content) max_size_bytes
          then (
            ok (record { key = key_for n upload.filename; size_bytes = length upload.content }),
            with_file (key_for n upload.filename) (some upload.content) fs,
          )
          else (
            raised (Exception.app (file_too_large max_size_bytes)),
            with_file (key_for n upload.filename) none fs,
          ))
  save_local_bounded healthy =
      let key = key_for n upload.filename in
      let o = save_local disk n upload max_size_bytes fs in
      let saved = save_local-IsSaved disk n upload max_size_bytes fs in
      elim (Bool-cases (leb (length upload.content) max_size_bytes)) [
        | inl e ↦ rw e (
            saved_ok disk key upload.content max_size_bytes fs o
              (record { key = key; size_bytes = length upload.content }) saved
              (saved_result healthy ∙ rw e refl))
        | inr e ↦ rw e (
            saved_raised disk key upload.content max_size_bytes fs o
              (Exception.app (file_too_large max_size_bytes)) saved healthy.4
              (saved_result healthy ∙ rw e refl))
      ]

  -- An upload within the bound, with its file.
  pub save_local_stores :
      IsHealthy disk
      → length upload.content ≤ max_size_bytes
      → save_local disk n upload max_size_bytes fs ≡ (
        ok (record { key = key_for n upload.filename; size_bytes = length upload.content }),
        with_file (key_for n upload.filename) (some upload.content) fs,
      )
  save_local_stores healthy within =
      let e : leb (length upload.content) max_size_bytes ≡ true = ground arith in
      save_local_bounded healthy ∙ rw e refl

  -- An upload beyond the bound.
  pub save_local_refuses :
      IsHealthy disk
      → max_size_bytes < length upload.content
      → save_local disk n upload max_size_bytes fs ≡ (
        raised (Exception.app (file_too_large max_size_bytes)),
        with_file (key_for n upload.filename) none fs,
      )
  save_local_refuses healthy above =
      let e : leb (length upload.content) max_size_bytes ≡ false = ground arith in
      save_local_bounded healthy ∙ rw e refl
