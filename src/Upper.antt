-- ===== src/Upper.antt =====
-- The move and the removal of an upper entry, with the sidecar records of it and of those below it
-- (src/LayerMount.dll/impl/LayerPath.cpp: MoveUpperEntry to RemoveUpperEntry). The calls that read or
-- change the entries are parameters, over the world of Sidecar.
pub mod Tests
pub mod Preserved
pub mod Moves
use layer_mount.Base.{
  ℕ, Bool, true, false, not, ◌&&◌, ◌||◌, Option, none, some, List, [], ◌∷◌, if◌then◌else◌,
}
use layer_mount.Layer.Disk.{WString, EntryKind}
use layer_mount.Status.{Win32Error, NtStatus}
use layer_mount.Status.Mapping.{nt_success, nt_status_from_win32}
use layer_mount.Status.NtStatus.{
  status_success, status_object_name_not_found, status_object_path_not_found,
}
use layer_mount.Sidecar.{FileService, SidecarMetadata, is_not_found}
use layer_mount.Sidecar.Records.{
  EntryBelow, MovedSidecarRecord, move_sidecar_records, move_sidecar_records_leaving_stuck_ones,
  move_sidecar_records_back, list_sidecar_keyed_entries, remove_sidecar_records_of_gone_entries,
}

pub data ReplaceExisting : Type 0 where
  no yes : ReplaceExisting

-- The open of an entry by OpenReparseEntry and the rename through its handle, the three ways to
-- delete an entry, the probe of its attributes, EntryKindOf, and what the walk of the records sees
-- at a path. A failed call gives its error. The identity of the entry at a path is what a probe of
-- its file id would give.
pub record UpperDisk (W : Type 0) : Type 0 where
  pub open_entry : W → WString → Option Win32Error
  pub rename_entry : W → WString → WString → ReplaceExisting → W × Option Win32Error
  pub remove_all : W → WString → W × Option Win32Error
  pub remove_directory : W → WString → W × Option Win32Error
  pub delete_entry : W → WString → W × Option Win32Error
  pub probe : W → WString → Option Win32Error
  pub entry_kind_of : W → WString → NtStatus × EntryKind
  pub entry_below : W → WString → EntryBelow
  pub entry_at : W → WString → Option ℕ

pub record UpperEntryMove : Type 0 where
  pub status : NtStatus
  pub record_left_behind : NtStatus

module _ {W : Type 0} (disk : UpperDisk W) where
  abbrev pub call_status : W × Option Win32Error → W × NtStatus
  call_status (w, none) = (w, status_success)
  call_status (w, some error) = (w, nt_status_from_win32 error)

  abbrev pub rename_opened :
      W → WString → WString → ReplaceExisting → Option Win32Error → W × NtStatus
  rename_opened w from to replace (some error) = (w, nt_status_from_win32 error)
  rename_opened w from to replace none = call_status (disk.rename_entry w from to replace)

  unfoldable pub move_upper_entry_on_disk : W → WString → WString → ReplaceExisting → W × NtStatus
  move_upper_entry_on_disk w from to replace =
      rename_opened w from to replace (disk.open_entry w from)

  -- An entry that is gone already was removed.
  abbrev pub gone_is_removed : W × Option Win32Error → W × NtStatus
  gone_is_removed (w, none) = (w, status_success)
  gone_is_removed (w, some error) =
      if is_not_found error then (w, status_success) else (w, nt_status_from_win32 error)

  unfoldable pub remove_upper_entry_on_disk : W → WString → EntryKind → W × NtStatus
  remove_upper_entry_on_disk w path EntryKind.directory = call_status (disk.remove_all w path)
  remove_upper_entry_on_disk w path EntryKind.link = gone_is_removed (disk.remove_directory w path)
  remove_upper_entry_on_disk w path EntryKind.file = gone_is_removed (disk.delete_entry w path)

  abbrev pub probed : NtStatus × EntryKind → NtStatus × Option EntryKind
  probed (status_object_name_not_found, kind) = (status_success, none)
  probed (status_object_path_not_found, kind) = (status_success, none)
  probed (status, kind) = if nt_success status then (status_success, some kind) else (status, none)

  abbrev pub probed_kind : W → WString → Option Win32Error → NtStatus × Option EntryKind
  probed_kind w path (some error) =
      if is_not_found error then (status_success, none) else (nt_status_from_win32 error, none)
  probed_kind w path none = probed (disk.entry_kind_of w path)

  -- The kind is there where the source sets `exists`.
  unfoldable pub probe_upper_entry : W → WString → NtStatus × Option EntryKind
  probe_upper_entry w path = probed_kind w path (disk.probe w path)

-- UseSidecarFor of the configuration, and the records of its upper.
pub record RecordConfig : Type 0 where
  pub use_sidecar : Bool
  pub sidecar : SidecarMetadata

module _ {W : Type 0} (service : FileService W) (disk : UpperDisk W) (config : RecordConfig) where
  abbrev pub left_behind : W × NtStatus → W × UpperEntryMove
  left_behind (w, status) = (w, record { status = status_success; record_left_behind = status })

  -- The undo of a move whose records gave an error, once the entry and the records were asked to go
  -- back.
  abbrev pub undone : WString → WString → NtStatus → NtStatus → W × NtStatus → W × UpperEntryMove
  undone from to record_status entry_back (w, records_back) =
      if nt_success entry_back
      then (w, record { status = record_status; record_left_behind = records_back })
      else if not (nt_success records_back)
      then (w, record { status = status_success; record_left_behind = records_back })
      else left_behind (
          move_sidecar_records_leaving_stuck_ones service config.sidecar config.use_sidecar w from
            to (disk.entry_below w to))

  abbrev pub records_moved :
      WString → WString → (W × List MovedSidecarRecord) × NtStatus → W × UpperEntryMove
  records_moved from to ((w, moved), record_status) =
      if nt_success record_status
      then (w, record { status = status_success; record_left_behind = status_success })
      else let entry = move_upper_entry_on_disk disk w to from no in
        undone from to record_status entry.1
          (move_sidecar_records_back service config.sidecar entry.0 moved)

  abbrev pub entry_moved : WString → WString → W × NtStatus → W × UpperEntryMove
  entry_moved from to (w, status) =
      if nt_success status
      then records_moved from to (
          move_sidecar_records service config.sidecar config.use_sidecar w from to
            (disk.entry_below w to))
      else (w, record { status = status; record_left_behind = status_success })

  unfoldable pub move_upper_entry : W → WString → WString → ReplaceExisting → W × UpperEntryMove
  move_upper_entry w from to replace =
      entry_moved from to (move_upper_entry_on_disk disk w from to replace)

  abbrev pub moved_leaving : WString → WString → W × NtStatus → W × UpperEntryMove
  moved_leaving from to (w, status) =
      if nt_success status
      then left_behind (
          move_sidecar_records_leaving_stuck_ones service config.sidecar config.use_sidecar w from
            to (disk.entry_below w to))
      else (w, record { status = status; record_left_behind = status_success })

  unfoldable pub move_upper_entry_leaving_stuck_records :
      W → WString → WString → ReplaceExisting → W × UpperEntryMove
  move_upper_entry_leaving_stuck_records w from to replace =
      moved_leaving from to (move_upper_entry_on_disk disk w from to replace)

  -- The result is with the aside path, which is empty where nothing moved.
  abbrev pub set_aside : WString → W × UpperEntryMove → W × UpperEntryMove × WString
  set_aside target (w, move) = (w, move, if nt_success move.status then target else [])

  abbrev pub aside_if : W → WString → WString → Option Win32Error → W × UpperEntryMove × WString
  aside_if w path target (some error) =
      if is_not_found error
      then (w, record { status = status_success; record_left_behind = status_success }, [])
      else (
        w,
        record { status = nt_status_from_win32 error; record_left_behind = status_success },
        [],
      )
  aside_if w path target none = set_aside target (move_upper_entry w path target no)

  unfoldable pub move_upper_entry_aside : W → WString → WString → W × UpperEntryMove × WString
  move_upper_entry_aside w path target = aside_if w path target (disk.probe w path)

  unfoldable pub remove_upper_entry_of_kind : W → WString → EntryKind → W × NtStatus
  remove_upper_entry_of_kind w path kind =
      let entries = list_sidecar_keyed_entries config.use_sidecar path (disk.entry_below w path) in
      let removed = remove_upper_entry_on_disk disk w path kind in
      (
        remove_sidecar_records_of_gone_entries service config.sidecar config.use_sidecar
            (disk.probe removed.0) removed.0 entries,
        removed.1,
      )

  abbrev pub remove_probed : W → WString → NtStatus × Option EntryKind → W × NtStatus
  remove_probed w path (status, none) = (w, status)
  remove_probed w path (status, some kind) =
      if nt_success status then remove_upper_entry_of_kind w path kind else (w, status)

  unfoldable pub remove_upper_entry : W → WString → W × NtStatus
  remove_upper_entry w path = remove_probed w path (probe_upper_entry disk w path)
