-- ===== src/Sidecar/Effects.antt =====
-- What the calls that change files do, as hypotheses, and what the move of one record file does
-- then (src/LayerMount.dll/impl/SidecarMetadata.cpp: MoveRecordFile).
use layer_mount.Base.{
  ◌≡◌, ◌≢◌, ◌⊎◌, refl, sym, ◌∙◌, true, false, Option, none, some, inl, inr, Bool-cases,
}
use layer_mount.Layer.Disk.{WString}
use layer_mount.Status.{Win32Error}
use layer_mount.Status.Mapping.{is_no_error, succeeds_as}
use layer_mount.Sidecar.{FileService, is_not_found, record_deleted, record_moved, move_record_file}

module _ {W : Type 0} (service : FileService W) where
  -- Every file holds what it held.
  abbrev pub IsSame : W → W → Type 0
  IsSame before after = (file : WString) → service.file_at after file ≡ service.file_at before file

  -- The file `to` holds what `from` held, which may be nothing, `from` is gone, and the rest is the
  -- same.
  abbrev pub IsMoved : W → W → WString → WString → Type 0
  IsMoved before after from to =
      (service.file_at after to ≡ service.file_at before from)
      × (service.file_at after from ≡ none)
      × ((file : WString)
          → file ≢ from
          → file ≢ to
          → service.file_at after file ≡ service.file_at before file)

  abbrev pub IsDeleted : W → W → WString → Type 0
  IsDeleted before after gone =
      (service.file_at after gone ≡ none)
      × ((file : WString) → file ≢ gone → service.file_at after file ≡ service.file_at before file)

  -- A call that failed changed nothing, its error is neither zero nor
  -- the one of a pending call, and it is one of the errors for a
  -- missing file only where the file is missing.
  abbrev pub IsRefused : W → W → WString → Win32Error → Type 0
  IsRefused before after file error =
      IsSame before after
      × (succeeds_as error ≡ false)
      × (is_not_found error ≡ true → service.file_at before file ≡ none)

  abbrev pub MovesAs : W → WString → WString → W × Option Win32Error → Type 0
  MovesAs before from to (after, none) = IsMoved before after from to
  MovesAs before from to (after, some error) = IsRefused before after from error

  abbrev pub DeletesAs : W → WString → W × Option Win32Error → Type 0
  DeletesAs before file (after, none) = IsDeleted before after file
  DeletesAs before file (after, some error) = IsRefused before after file error

  -- What Win32 documents of the two calls, for the files of one directory.
  pub record IsFileService : Type 0 where
    pub moves :
        (w : W) (from to : WString) → from ≢ to → MovesAs w from to (service.move_file w from to)
    pub deletes : (w : W) (file : WString) → DeletesAs w file (service.delete_file w file)

  -- A move of a record file does all or nothing.
  abbrev pub RecordMovesAs : W → WString → WString → W × Win32Error → Type 0
  RecordMovesAs before from to (after, error) =
      ((is_no_error error ≡ true) × IsMoved before after from to)
      ⊎ ((succeeds_as error ≡ false) × IsSame before after)

  module _ (law : IsFileService) (w : W) (from to : WString) (other : from ≢ to) where
    after-delete :
        (deleted : W × Option Win32Error) (unmoved : W)
        → IsSame w unmoved
        → service.file_at w from ≡ none
        → DeletesAs unmoved to deleted
        → RecordMovesAs w from to (record_deleted service deleted)
    after-delete (w', none) unmoved same missing done = inl (
      refl,
      (
        done.0 ∙ sym missing,
        done.1 from other ∙ same from ∙ missing,
        λ file not_from not_to. done.1 file not_to ∙ same file,
      ),
    )
    after-delete (w', some error) unmoved same missing done =
        elim (Bool-cases (is_not_found error)) [
          | inl none_there ↦ rw none_there (
              inl (
                refl,
                (
                  done.0 to ∙ done.2 none_there ∙ sym missing,
                  done.0 from ∙ same from ∙ missing,
                  λ file not_from not_to. done.0 file ∙ same file,
                ),
              ))
          | inr other_error ↦ rw other_error (inr (done.1, λ file. done.0 file ∙ same file))
        ]

    after-move :
        (moved : W × Option Win32Error)
        → MovesAs w from to moved
        → RecordMovesAs w from to (record_moved service to moved)
    after-move (w', none) done = inl (refl, done)
    after-move (w', some error) done = elim (Bool-cases (is_not_found error)) [
      | inl none_there ↦ rw none_there (
          after-delete (service.delete_file w' to) w' done.0 (done.2 none_there)
            (law.deletes w' to))
      | inr other_error ↦ rw other_error (inr (done.1, done.0))
    ]

    pub move_record_file_lem : RecordMovesAs w from to (move_record_file service w from to)
    unfolding move_record_file
    move_record_file_lem = after-move (service.move_file w from to) (law.moves w from to other)
