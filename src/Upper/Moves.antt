-- ===== src/Upper/Moves.antt =====
-- Where an entry is after a move (src/LayerMount.dll/impl/LayerPath.cpp: MoveUpperEntry,
-- MoveUpperEntryLeavingStuckRecords), by the status of the move.
use layer_mount.Base.{
  ◌≡◌, ◌⊎◌, refl, sym, ◌∙◌, true, false, not, Option, none, some, List, inl, inr, Bool-cases,
  eq_nat, eq_list,
}
use layer_mount.Layer.Disk.{WString}
use layer_mount.Status.{Win32Error, NtStatus}
use layer_mount.Status.Mapping.{nt_success, succeeds_as}
use layer_mount.Status.Success.{nt_success-from}
use layer_mount.Sidecar.{FileService, SidecarMetadata}
use layer_mount.Sidecar.Records.{
  MovedSidecarRecord, move_sidecar_records, move_sidecar_records_back,
  move_sidecar_records_leaving_stuck_ones,
}
use layer_mount.Upper.{
  ReplaceExisting, UpperDisk, RecordConfig, UpperEntryMove, call_status, rename_opened,
  move_upper_entry_on_disk, undone, records_moved, entry_moved, move_upper_entry, left_behind,
  moved_leaving, move_upper_entry_leaving_stuck_records,
}
use layer_mount.Upper.ReplaceExisting.{no}
use layer_mount.Upper.Preserved.{
  IsRecordFile, move_sidecar_records-keeps, leaving_stuck-keeps, move_sidecar_records_back-keeps,
}

module _ {W : Type 0} (disk : UpperDisk W) where
  -- Every entry is where it was.
  abbrev pub AreSame : W → W → Type 0
  AreSame before after = (path : WString) → disk.entry_at after path ≡ disk.entry_at before path

  -- The entry of `from` is at `to`, and none is at `from`.
  abbrev pub IsRenamed : W → W → WString → WString → Type 0
  IsRenamed before after from to =
      (disk.entry_at after to ≡ disk.entry_at before from) × (disk.entry_at after from ≡ none)

  abbrev pub RenamesAs : W → WString → WString → ReplaceExisting → W × Option Win32Error → Type 0
  RenamesAs before from to replace (after, none) =
      IsRenamed before after from to × (replace ≡ no → disk.entry_at before to ≡ none)
  RenamesAs before from to replace (after, some error) =
      AreSame before after × (succeeds_as error ≡ false)

  -- What Win32 documents of a rename between two paths that name different entries, by no short name,
  -- case or link the same: it moves the entry, over another one only where it may replace, or it fails
  -- with an error that is not zero and changes nothing. What else is below a moved directory or is
  -- reached through a link to it may move too. And the files of the sidecar records are not entries of
  -- the upper.
  pub record IsUpperDisk (IsApart : WString → WString → Type 0) (sidecar : SidecarMetadata)
      (service : FileService W) : Type 0 where
    pub apart_sym : (a b : WString) → IsApart a b → IsApart b a
    pub opens :
        (w : W) (path : WString) (error : Win32Error)
        → disk.open_entry w path ≡ some error
        → succeeds_as error ≡ false
    pub renames :
        (w : W) (from to : WString) (replace : ReplaceExisting)
        → IsApart from to
        → RenamesAs w from to replace (disk.rename_entry w from to replace)
    pub keeps_entries_on_move :
        (w : W) (from to path : WString)
        → IsRecordFile sidecar from
        → IsRecordFile sidecar to
        → disk.entry_at (service.move_file w from to).0 path ≡ disk.entry_at w path
    pub keeps_entries_on_delete :
        (w : W) (file path : WString)
        → IsRecordFile sidecar file
        → disk.entry_at (service.delete_file w file).0 path ≡ disk.entry_at w path

  abbrev OnDiskAs : W → WString → WString → ReplaceExisting → W × NtStatus → Type 0
  OnDiskAs before from to replace (after, status) =
      ((nt_success status ≡ true)
        × IsRenamed before after from to
        × (replace ≡ no → disk.entry_at before to ≡ none))
      ⊎ ((nt_success status ≡ false) × AreSame before after)

  -- The whole contract: a success has moved the entry. A failure left the entry where it was, and also
  -- what is at `to`, where it could not be replaced.
  abbrev pub MovesAs : W → WString → WString → ReplaceExisting → W × UpperEntryMove → Type 0
  MovesAs before from to replace (after, move) =
      ((nt_success move.status ≡ true) × IsRenamed before after from to)
      ⊎ ((nt_success move.status ≡ false)
          × (disk.entry_at after from ≡ disk.entry_at before from)
          × (replace ≡ no → disk.entry_at after to ≡ disk.entry_at before to))

  module _ (IsApart : WString → WString → Type 0) (sidecar : SidecarMetadata)
      (service : FileService W) (law : IsUpperDisk IsApart sidecar service) (from to : WString)
      (other : IsApart from to) where
    call-OnDiskAs :
        (w : W) (replace : ReplaceExisting) (result : W × Option Win32Error)
        → RenamesAs w from to replace result
        → OnDiskAs w from to replace (call_status disk result)
    call-OnDiskAs w replace (w1, none) done = inl (refl, done.0, done.1)
    call-OnDiskAs w replace (w1, some error) done = inr (nt_success-from error ∙ done.1, done.0)

    opened-OnDiskAs :
        (w : W) (replace : ReplaceExisting) (opened : Option Win32Error)
        → disk.open_entry w from ≡ opened
        → OnDiskAs w from to replace (rename_opened disk w from to replace opened)
    opened-OnDiskAs w replace none is =
        call-OnDiskAs w replace _ (law.renames w from to replace other)
    opened-OnDiskAs w replace (some error) is =
        inr (nt_success-from error ∙ law.opens w from error is, λ path. refl)

    on_disk-OnDiskAs :
        (w : W) (replace : ReplaceExisting)
        → OnDiskAs w from to replace (move_upper_entry_on_disk disk w from to replace)
    unfolding move_upper_entry_on_disk
    on_disk-OnDiskAs w replace = opened-OnDiskAs w replace (disk.open_entry w from) refl

IsRenamed-same :
    {W : Type 0} (disk : UpperDisk W) (w w1 w2 : W) (from to : WString)
    → IsRenamed disk w w1 from to
    → AreSame disk w1 w2
    → IsRenamed disk w w2 from to
IsRenamed-same disk w w1 w2 from to renamed same = (same to ∙ renamed.0, same from ∙ renamed.1)

module _ {W : Type 0} (disk : UpperDisk W) (IsApart : WString → WString → Type 0)
    (service : FileService W) (config : RecordConfig)
    (law : IsUpperDisk disk IsApart config.sidecar service) (from to : WString)
    (other : IsApart from to) where
  kept_on_move :
      (w1 w : W) (p q : WString)
      → IsRecordFile config.sidecar p
      → IsRecordFile config.sidecar q
      → AreSame disk w1 w
      → AreSame disk w1 (service.move_file w p q).0
  kept_on_move w1 w p q at at_to same path =
      law.keeps_entries_on_move w p q path at at_to ∙ same path

  kept_on_delete :
      (w1 w : W) (file : WString)
      → IsRecordFile config.sidecar file
      → AreSame disk w1 w
      → AreSame disk w1 (service.delete_file w file).0
  kept_on_delete w1 w file at same path = law.keeps_entries_on_delete w file path at ∙ same path

  -- An entry that moved and moved back.
  came_back :
      (w w1 w2 w3 w4 : W)
      → IsRenamed disk w w1 from to
      → AreSame disk w1 w2
      → IsRenamed disk w2 w3 to from
      → AreSame disk w3 w4
      → disk.entry_at w4 from ≡ disk.entry_at w from
  came_back w w1 w2 w3 w4 there same back same_again = same_again from ∙ back.0 ∙ same to ∙ there.0

  stuck_kept :
      (w1 : W)
      → AreSame disk w1
          (move_sidecar_records_leaving_stuck_ones service config.sidecar config.use_sidecar w1 from
            to
            (disk.entry_below w1 to)).0
  stuck_kept w1 =
      leaving_stuck-keeps service config.sidecar (AreSame disk w1) (kept_on_move w1)
        (kept_on_delete w1) config.use_sidecar w1 from to (disk.entry_below w1 to) (λ path. refl)

  left-MovesAs :
      (w : W) (replace : ReplaceExisting) (left : W × NtStatus)
      → IsRenamed disk w left.0 from to
      → MovesAs disk w from to replace (left_behind service disk config left)
  left-MovesAs w replace (w1, status) renamed = inl (refl, renamed)

  undone-MovesAs :
      (w w1 w2 w4 : W) (replace : ReplaceExisting) (record_status : NtStatus) (entry : W × NtStatus)
      (records_back : NtStatus)
      → nt_success record_status ≡ false
      → IsRenamed disk w w1 from to
      → (replace ≡ no → disk.entry_at w to ≡ none)
      → AreSame disk w1 w2
      → OnDiskAs disk w2 to from no entry
      → AreSame disk entry.0 w4
      → MovesAs disk w from to replace
          (undone service disk config from to record_status entry.1 (w4, records_back))
  undone-MovesAs w w1 w2 w4 replace record_status (w3, entry_back) records_back bad there free same
        (inl (good, back, empty)) same_again =
      rw good (
        inr (
          bad,
          came_back w w1 w2 w3 w4 there same back same_again,
          λ none_replaced. same_again to ∙ back.1 ∙ sym (free none_replaced),
        ))
  undone-MovesAs w w1 w2 w4 replace record_status (w3, entry_back) records_back bad there free same
        (inr (stuck, unmoved)) same_again =
      let renamed =
        IsRenamed-same disk w w1 w4 from to there
          (λ path. same_again path ∙ unmoved path ∙ same path) in
      elim (Bool-cases (not (nt_success records_back))) [
        | inl stay ↦ rw (stuck, stay) (inl (refl, renamed))
        | inr follow ↦
            rw (stuck, follow)
              (left-MovesAs w replace
                (move_sidecar_records_leaving_stuck_ones service config.sidecar config.use_sidecar
                  w4 from to (disk.entry_below w4 to))
                (IsRenamed-same disk w w4 _ from to renamed (stuck_kept w4)))
      ]

  records-MovesAs :
      (w w1 : W) (replace : ReplaceExisting) (records : (W × List MovedSidecarRecord) × NtStatus)
      → IsRenamed disk w w1 from to
      → (replace ≡ no → disk.entry_at w to ≡ none)
      → AreSame disk w1 records.0.0
      → MovesAs disk w from to replace (records_moved service disk config from to records)
  records-MovesAs w w1 replace ((w2, moved), status) there free same =
      elim (Bool-cases (nt_success status)) [
        | inl good ↦ rw good (inl (refl, IsRenamed-same disk w w1 w2 from to there same))
        | inr bad ↦
            let entry = move_upper_entry_on_disk disk w2 to from no in
            let back = move_sidecar_records_back service config.sidecar entry.0 moved in
            rw bad (
              undone-MovesAs w w1 w2 back.0 replace status entry back.1 bad there free same
                (on_disk-OnDiskAs disk IsApart config.sidecar service law to from
                  (law.apart_sym from to other) w2 no)
                (move_sidecar_records_back-keeps service config.sidecar (AreSame disk entry.0)
                  (kept_on_move entry.0) (kept_on_delete entry.0) entry.0 moved (λ path. refl)))
      ]

  moved-MovesAs :
      (w : W) (replace : ReplaceExisting) (moved : W × NtStatus)
      → OnDiskAs disk w from to replace moved
      → MovesAs disk w from to replace (entry_moved service disk config from to moved)
  moved-MovesAs w replace (w1, status) (inl (good, there, free)) = rw good (
      records-MovesAs w w1 replace
        (move_sidecar_records service config.sidecar config.use_sidecar w1 from to
          (disk.entry_below w1 to))
        there free
        (move_sidecar_records-keeps service config.sidecar (AreSame disk w1) (kept_on_move w1)
          (kept_on_delete w1) config.use_sidecar w1 from to (disk.entry_below w1 to)
          (λ path. refl)))
  moved-MovesAs w replace (w1, status) (inr (bad, same)) =
      rw bad (inr (bad, same from, λ none_replaced. same to))

  leaving-MovesAs :
      (w : W) (replace : ReplaceExisting) (moved : W × NtStatus)
      → OnDiskAs disk w from to replace moved
      → MovesAs disk w from to replace (moved_leaving service disk config from to moved)
  leaving-MovesAs w replace (w1, status) (inl (good, there, free)) = rw good (
      left-MovesAs w replace
        (move_sidecar_records_leaving_stuck_ones service config.sidecar config.use_sidecar w1 from
          to (disk.entry_below w1 to))
        (IsRenamed-same disk w w1 _ from to there (stuck_kept w1)))
  leaving-MovesAs w replace (w1, status) (inr (bad, same)) =
      rw bad (inr (bad, same from, λ none_replaced. same to))

  -- Where a rename on the disk does as documented and the files of sidecar records are no entries, for
  -- two paths that name different entries: a move of an upper entry whose status is a success has moved
  -- the entry, also where a record of it or the way back failed. One whose status is a failure left the
  -- entry at the old path, and the new path as it was where it was not allowed to replace. The same
  -- holds of the move that leaves stuck records.
  pub move_upper_entry-MovesAs :
      (w : W) (replace : ReplaceExisting)
      → MovesAs disk w from to replace (move_upper_entry service disk config w from to replace)
        × MovesAs disk w from to replace
            (move_upper_entry_leaving_stuck_records service disk config w from to replace)
  unfolding move_upper_entry move_upper_entry_leaving_stuck_records
  move_upper_entry-MovesAs w replace =
      let moved = move_upper_entry_on_disk disk w from to replace in
      let told = on_disk-OnDiskAs disk IsApart config.sidecar service law from to other w replace in
      (moved-MovesAs w replace moved told, leaving-MovesAs w replace moved told)
