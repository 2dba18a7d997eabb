-- ===== src/Sidecar/Moves.antt =====
-- The move of the records of one entry (src/LayerMount.dll/impl/SidecarMetadata.cpp: Move), with the
-- undo where the second file cannot move.
use layer_mount.Base.{
  ◌≡◌, ◌≢◌, ◌⊎◌, refl, sym, ◌∙◌, true, false, none, some, inl, inr, Bool-cases, ◌++◌, ◌==◌, eq_nat,
  eq_list, ==_eq,
}
use layer_mount.Layer.Disk.{WString}
use layer_mount.Status.{Win32Error, NtStatus}
use layer_mount.Status.Mapping.{nt_success}
use layer_mount.Status.Success.{failed_is_error, nt_success-from}
use layer_mount.Sidecar.{
  FileService, SidecarMetadata, meta_suffix, opaque_suffix, opaque_moved, meta_moved, base_of, move,
}
use layer_mount.Sidecar.Effects.{
  IsFileService, IsMoved, IsSame, RecordMovesAs, move_record_file_lem,
}
use layer_mount.Sidecar.Keys.{meta-opaque_ne, suffix_ne}

module _ {W : Type 0} (service : FileService W) where
  -- The two files of `to_base` hold what those of `from_base` held, which are gone, and every other
  -- file is the same.
  abbrev pub AreMoved : W → W → WString → WString → Type 0
  AreMoved before after from_base to_base =
      (service.file_at after (to_base ++ meta_suffix)
        ≡ service.file_at before (from_base ++ meta_suffix))
      × (service.file_at after (to_base ++ opaque_suffix)
          ≡ service.file_at before (from_base ++ opaque_suffix))
      × (service.file_at after (from_base ++ meta_suffix) ≡ none)
      × (service.file_at after (from_base ++ opaque_suffix) ≡ none)
      × ((file : WString)
          → file ≢ from_base ++ meta_suffix
          → file ≢ from_base ++ opaque_suffix
          → file ≢ to_base ++ meta_suffix
          → file ≢ to_base ++ opaque_suffix
          → service.file_at after file ≡ service.file_at before file)

  -- Every file but the two records is the same, both opaque markers included, and the record of
  -- `from_base` is there or, where it could not go back, at `to_base`.
  abbrev pub AreKept : W → W → WString → WString → Type 0
  AreKept before after from_base to_base =
      ((file : WString)
        → file ≢ from_base ++ meta_suffix
        → file ≢ to_base ++ meta_suffix
        → service.file_at after file ≡ service.file_at before file)
      × ((service.file_at after (from_base ++ meta_suffix)
            ≡ service.file_at before (from_base ++ meta_suffix))
          ⊎ (service.file_at after (to_base ++ meta_suffix)
              ≡ service.file_at before (from_base ++ meta_suffix)))

  abbrev pub AreMovedAs : W → WString → WString → W × NtStatus → Type 0
  AreMovedAs before from_base to_base (after, status) =
      ((nt_success status ≡ true) × AreMoved before after from_base to_base)
      ⊎ ((nt_success status ≡ false) × AreKept before after from_base to_base)

  module _ (law : IsFileService service) (w : W) (from_base to_base : WString)
      (other : from_base ≢ to_base) where
    after-undo :
        (w1 w2 : W) (undone : W × Win32Error)
        → IsMoved service w w1 (from_base ++ meta_suffix) (to_base ++ meta_suffix)
        → IsSame service w1 w2
        → RecordMovesAs service w2 (to_base ++ meta_suffix) (from_base ++ meta_suffix) undone
        → AreKept w undone.0 from_base to_base
    after-undo w1 w2 (w3, error) moved same (inl (good, back)) = (
      λ file no_from no_to. back.2 file no_to no_from ∙ same file ∙ moved.2 file no_from no_to,
      inl (back.0 ∙ same _ ∙ moved.0),
    )
    after-undo w1 w2 (w3, error) moved same (inr (bad, stuck)) = (
      λ file no_from no_to. stuck file ∙ same file ∙ moved.2 file no_from no_to,
      inr (stuck _ ∙ same _ ∙ moved.0),
    )

    after-opaque :
        (w1 : W) (opaque : W × Win32Error)
        → IsMoved service w w1 (from_base ++ meta_suffix) (to_base ++ meta_suffix)
        → RecordMovesAs service w1 (from_base ++ opaque_suffix) (to_base ++ opaque_suffix) opaque
        → AreMovedAs w from_base to_base (opaque_moved service from_base to_base opaque)
    after-opaque w1 (w2, error) moved (inl (good, done)) = rw good (
        inl (
          refl,
          (
            done.2 (to_base ++ meta_suffix) (meta-opaque_ne to_base from_base)
                  (meta-opaque_ne to_base to_base)
                ∙ moved.0,
            done.0
                ∙ moved.2 (from_base ++ opaque_suffix)
                    (λ e. meta-opaque_ne from_base from_base (sym e))
                    (λ e. meta-opaque_ne to_base from_base (sym e)),
            done.2 (from_base ++ meta_suffix) (meta-opaque_ne from_base from_base)
                  (meta-opaque_ne from_base to_base)
                ∙ moved.1,
            done.1,
            λ file no_from no_from_marker no_to no_to_marker.
                done.2 file no_from_marker no_to_marker ∙ moved.2 file no_from no_to,
          ),
        ))
    after-opaque w1 (w2, error) moved (inr (bad, same)) = rw (failed_is_error error bad) (
        inr (
          nt_success-from error ∙ bad,
          after-undo w1 w2 _ moved same (
              move_record_file_lem service law w2 (to_base ++ meta_suffix)
                (from_base ++ meta_suffix)
                (suffix_ne to_base from_base meta_suffix (λ e. other (sym e)))),
        ))

    after-meta :
        (meta : W × Win32Error)
        → RecordMovesAs service w (from_base ++ meta_suffix) (to_base ++ meta_suffix) meta
        → AreMovedAs w from_base to_base (meta_moved service from_base to_base meta)
    after-meta (w1, error) (inl (good, done)) = rw good (
        after-opaque w1 _ done (
          move_record_file_lem service law w1 (from_base ++ opaque_suffix)
            (to_base ++ opaque_suffix) (suffix_ne from_base to_base opaque_suffix other)))
    after-meta (w1, error) (inr (bad, same)) =
        rw (failed_is_error error bad)
          (inr (nt_success-from error ∙ bad, (λ file no_from no_to. same file, inl (same _))))

  -- With calls that do as Win32 documents, and two paths whose names of records differ: a move of
  -- the records of an entry that succeeds moves both files, one that is missing included, and
  -- changes no other. One that fails changes no file but the two records, and leaves the record of
  -- the entry at one of its two names.
  pub move-AreMovedAs :
      IsFileService service
      → (sidecar : SidecarMetadata) (w : W) (from_path to_path from_base to_base : WString)
      → base_of sidecar from_path ≡ some from_base
      → base_of sidecar to_path ≡ some to_base
      → from_base ≢ to_base
      → AreMovedAs w from_base to_base (move service sidecar w from_path to_path)
  unfolding move
  move-AreMovedAs law sidecar w from_path to_path from_base to_base from_named to_named other =
      rw (from_named, to_named, different)
        (after-meta law w from_base to_base other _ (
          move_record_file_lem service law w (from_base ++ meta_suffix) (to_base ++ meta_suffix)
            (suffix_ne from_base to_base meta_suffix other)))
    where
      different : (from_base == to_base) ≡ false
      different = elim (Bool-cases (from_base == to_base)) [
        | inl equal ↦ absurd (other (==_eq from_base to_base equal))
        | inr fine ↦ fine
      ]
