-- ===== src/Infrastructure/Storage/Local/Saving.antt =====
-- What a save leaves on the disk, whichever calls to it fail on the way.
use mathlib.Core.List.{append_assoc, append-nil}
use ats_project_management_b.Prelude.{
  Bool-cases, List, Option, String, [], ap, arith, drop, false, if_both, if◌then◌else◌, inl, inr,
  length, length-append, ltb, nat_eq_iff, none, not, refl, some, string_eq, suc, sym, take, zero, ℕ,
  ℕ_eq, ◌++◌, ◌+◌, ◌<◌, ◌==◌, ◌∙◌, ◌∷◌, ◌≡◌, ◌≤◌,
}
use ats_project_management_b.Core.Exceptions.{Exception}
use ats_project_management_b.Core.Repository.{stored}
use ats_project_management_b.Core.Session.{Result, ok, raised}
use ats_project_management_b.Infrastructure.Storage.{StoredFile, Upload}
use ats_project_management_b.Infrastructure.Storage.Local.{
  Disk, FileSystem, chunk_size, close_file, file_too_large, key_for, save_local, unlink_raise,
  with_file, write_chunks,
}
use ats_project_management_b.Platform.{Platform}

module _ {A : Type 0} where
  take-append-drop : (n : ℕ) (xs : List A) → take n xs ++ drop n xs ≡ xs
  take-append-drop zero xs = refl
  take-append-drop (suc n) [] = refl
  take-append-drop (suc n) (x ∷ xs) = ap (λ t. x ∷ t) (take-append-drop n xs)

  pub length-take-drop : (n : ℕ) (xs : List A) → length (take n xs) + length (drop n xs) ≡ length xs
  length-take-drop n xs =
      sym (length-append (take n xs) (drop n xs)) ∙ ap length (take-append-drop n xs)

  -- A chunk is empty at the end of the stream only.
  pub take_empty : (n : ℕ) (xs : List A) → 0 < n → length (take n xs) ≡ 0 → xs ≡ []
  take_empty zero xs h e = absurd (omega arith)
  take_empty (suc n) [] h e = refl
  take_empty (suc n) (x ∷ xs) h e = absurd (omega arith)

  take-drop-written :
      (n : ℕ) (written xs : List A) → (written ++ take n xs) ++ drop n xs ≡ written ++ xs
  take-drop-written n written xs =
      append_assoc written (take n xs) (drop n xs) ∙ ap (λ t. written ++ t) (take-append-drop n xs)

pub chunk_size_pos : 0 < chunk_size
unfolding chunk_size
chunk_size_pos = omega arith

-- The outcome of the loop: all bytes have been written, and they are within the bound; or it has
-- raised.
abbrev IsWritten : ℕ → List ℕ → ℕ → List ℕ → Result ℕ × List ℕ → Type 0
IsWritten max_size_bytes stream size written (ok n, w) =
    (n ≡ size + length stream) × (n ≤ max_size_bytes) × (w ≡ written ++ stream)
IsWritten max_size_bytes stream size written (raised e, w) = Unit {0}

-- A round that has written a chunk leads on to the outcome of the rest.
IsWritten-step :
    (max_size_bytes : ℕ) (stream : List ℕ) (size : ℕ) (written : List ℕ) (o : Result ℕ × List ℕ)
    → IsWritten max_size_bytes
        (drop chunk_size stream)
        (size + length (take chunk_size stream))
        (written ++ take chunk_size stream)
        o
    → IsWritten max_size_bytes stream size written o
IsWritten-step max_size_bytes stream size written (ok n, w) h = (
  omega (arith, h.0, length-take-drop chunk_size stream),
  h.1,
  h.2 ∙ take-drop-written chunk_size written stream,
)
IsWritten-step max_size_bytes stream size written (raised e, w) h = tt

-- At the end of the stream nothing is left to write.
IsWritten-end :
    (max_size_bytes : ℕ) (stream : List ℕ) (size : ℕ) (written : List ℕ)
    → stream ≡ []
    → size ≤ max_size_bytes
    → IsWritten max_size_bytes stream size written (ok size, written)
IsWritten-end max_size_bytes stream size written e h =
    rw e (omega arith, h, sym (append-nil written))

pub length-drop-lt :
    (fuel : ℕ) (stream : List ℕ)
    → length stream < suc fuel
    → (length (take chunk_size stream) == 0) ≡ false
    → length (drop chunk_size stream) < fuel
length-drop-lt fuel stream h e = ground (arith, length-take-drop chunk_size stream)

module _ (disk : Disk) (max_size_bytes : ℕ) where
  -- With more fuel than bytes the loop ends.
  write_chunks_ends :
      (fuel round : ℕ) (stream : List ℕ) (size : ℕ) (written : List ℕ)
      → length stream < fuel
      → size ≤ max_size_bytes
      → (o : Result ℕ × List ℕ) × (write_chunks fuel disk max_size_bytes round stream size written
          ≡ some o)
        × IsWritten max_size_bytes stream size written o
  unfolding write_chunks
  write_chunks_ends zero round stream size written h k = absurd (omega arith)
  write_chunks_ends (suc fuel) round stream size written h k =
      let chunk = take chunk_size stream in
      let e1 = Bool-cases (not (disk.reads round)) in
      let e2 = Bool-cases (length chunk == 0) in
      let e3 = Bool-cases (ltb max_size_bytes (size + length chunk)) in
      let e4 = Bool-cases (not (disk.writes round)) in
      elim e1 [
        | inl e ↦ ((raised Exception.unexpected, written), rw e refl, tt)
        | inr e ↦ elim e2 [
          | inl f ↦ (
            (ok size, written),
            rw (e, f) refl,
            IsWritten-end max_size_bytes stream size written
                (take_empty chunk_size stream chunk_size_pos ((nat_eq_iff _ 0).0 f)) k,
          )
          | inr f ↦ elim e3 [
            | inl g ↦ (
              (raised (Exception.app (file_too_large max_size_bytes)), written),
              rw (e, f, g) refl,
              tt,
            )
            | inr g ↦ elim e4 [
              | inl w ↦ ((raised Exception.unexpected, written), rw (e, f, g, w) refl, tt)
              | inr w ↦
                  let (o, ran, fine) =
                    write_chunks_ends fuel (round + 1) (drop chunk_size stream)
                      (size + length chunk) (written ++ chunk) (length-drop-lt fuel stream h f)
                      (ground arith) in
                  (o, rw (e, f, g, w) ran, IsWritten-step max_size_bytes stream size written o fine)
            ]
          ]
        ]
      ]

-- The outcome of a save: the file has the bytes of the upload, which are within the bound; or an
-- exception was raised, and there is no such file if the removal works.
abbrev pub IsSaved :
    Disk → String → List ℕ → ℕ → FileSystem → Result StoredFile × FileSystem → Type 0
IsSaved disk key content max_size_bytes fs (ok stored, fs') =
    (stored ≡ record { key = key; size_bytes = length content })
    × (length content ≤ max_size_bytes)
    × (fs' ≡ with_file key (some content) fs)
IsSaved disk key content max_size_bytes fs (raised e, fs') =
    (rest : Option (List ℕ)) × (fs' ≡ with_file key (if disk.unlinks then none else rest) fs)

module _ (disk : Disk) (key : String) (content : List ℕ) (max_size_bytes : ℕ)
    (fs : FileSystem) where
  unlink_raise-IsSaved :
      (written : List ℕ) (e : Exception)
      → IsSaved disk key content max_size_bytes fs (unlink_raise disk key fs written e)
  unlink_raise-IsSaved written e = elim (Bool-cases disk.unlinks) [
    | inl h ↦ rw h (none, refl)
    | inr h ↦ rw h (disk.remains written, refl)
  ]

  close_file-IsSaved :
      (o : Result ℕ × List ℕ)
      → IsWritten max_size_bytes content 0 [] o
      → IsSaved disk key content max_size_bytes fs (close_file disk key fs (some o))
  close_file-IsSaved (ok n, w) h =
      let e : n ≡ length content = omega (arith, h.0) in
      if_both (IsSaved disk key content max_size_bytes fs) disk.closes _ _
        (
          ap (λ k. record { key = key; size_bytes = k }) e,
          omega (arith, h.1),
          ap (λ t. with_file key (some t) fs) h.2,
        )
        (unlink_raise-IsSaved w Exception.unexpected)
  close_file-IsSaved (raised e, w) h = unlink_raise-IsSaved w _

module _ ⦃x : Platform⦄ (disk : Disk) (n : ℕ) (upload : Upload) (max_size_bytes : ℕ)
    (fs : FileSystem) where
  pub save_local-IsSaved :
      IsSaved disk
        (key_for n upload.filename)
        upload.content
        max_size_bytes
        fs
        (save_local disk n upload max_size_bytes fs)
  unfolding save_local
  save_local-IsSaved =
      let key = key_for n upload.filename in
      let (o, ran, fine) =
        write_chunks_ends disk max_size_bytes (suc (length upload.content)) 0 upload.content 0 []
          (omega arith) (omega arith) in
      rw ran (
        if_both (IsSaved disk key upload.content max_size_bytes fs) disk.opens
          (close_file disk key fs (some o)) (unlink_raise disk key fs [] Exception.unexpected)
          (close_file-IsSaved disk key upload.content max_size_bytes fs o fine)
          (unlink_raise-IsSaved disk key upload.content max_size_bytes fs [] Exception.unexpected))
