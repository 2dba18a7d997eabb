-- ===== src/Rollback.antt =====
-- The steps of a rename that run after its entry moved, and their undo
-- (src/LayerMount.dll/impl/RenameRollback.cpp). The moves are those of Upper and the markers those of
-- Whiteouts, over one world. FindFirstFileW at a path with its extended prefix, which gives the stored
-- name of the entry there, is a parameter.
pub mod Kept
pub mod Places
mod Tests
use layer_mount.Base.{
  Bool, true, false, not, ◌&&◌, Option, none, some, List, [], ◌∷◌, if◌then◌else◌, codes, ◌++◌, ◌==◌,
  eq_nat,
}
use layer_mount.Cache.{invalidate_with_ancestors}
use layer_mount.Layer.Disk.{LayerConfig, WString, RelPath}
use layer_mount.Links.{separator, is_empty, join_all}
use layer_mount.Layer.Names.{TextService}
use layer_mount.Sidecar.{FileService}
use layer_mount.Sidecar.Records.{join_dir_path}
use layer_mount.Status.{NtStatus}
use layer_mount.Status.Mapping.{nt_success}
use layer_mount.Status.NtStatus.{status_success}
use layer_mount.Upper.{ReplaceExisting, UpperDisk, UpperEntryMove, RecordConfig, move_upper_entry}
use layer_mount.Upper.ReplaceExisting.{no}
use layer_mount.Whiteouts.{
  MarkerService, WhiteoutManager, WhiteoutType, create_whiteout, remove_whiteout, remove_opaque,
  update_cache,
}

pub data UndoOpaqueMarker : Type 0 where
  keep remove : UndoOpaqueMarker

pub record UpperRename : Type 0 where
  pub old_norm : RelPath
  pub new_norm : RelPath
  pub old_upper_path : WString
  pub opaque_marker : UndoOpaqueMarker

pub record RenameStepResult : Type 0 where
  pub status : NtStatus
  pub new_name_occupied : Bool

-- The event LM_EVT_WARNING: the status whose HRESULT it carries, or none for E_FAIL.
pub record Warning : Type 0 where
  pub failure : Option NtStatus
  pub relative_path : RelPath
  pub message : WString

-- The manager with its world and its cache, which is the cache of the undo too, and the warnings, the
-- newest first.
pub record RollbackState (W : Type 0) : Type 0 where
  pub manager : WhiteoutManager W
  pub warnings : List Warning

-- The text up to the last separator, that one included.
unfoldable pub up_to_last_separator : WString → WString
up_to_last_separator [] = []
up_to_last_separator (c ∷ rest) =
    let kept = up_to_last_separator rest in
    if is_empty kept && not (c == separator) then [] else c ∷ kept

abbrev pub stored_leaf : WString → Option WString → WString
stored_leaf target_path none = target_path
stored_leaf target_path (some name) = up_to_last_separator target_path ++ name

-- A path that has no components names the root of the upper.
unfoldable pub build_upper_path_preserve_case : WString → RelPath → WString
unfolding join_all
build_upper_path_preserve_case upper_root [] = upper_root
build_upper_path_preserve_case upper_root (name ∷ rest) =
    join_dir_path upper_root (join_all (name ∷ rest))

abbrev pub could_not_move_back : WString
could_not_move_back = codes "The undo of a failed rename could not move the entry back"

module _ {W : Type 0} (files : FileService W) (disk : UpperDisk W) (markers : MarkerService W)
    (records : RecordConfig) (text : TextService) (config : LayerConfig)
    (find_first_file : W → WString → Option WString) where
  unfoldable pub with_stored_leaf_name : W → WString → WString → WString
  with_stored_leaf_name w target_path entry_path =
      stored_leaf target_path (find_first_file w entry_path)

  unfoldable pub get_stored_upper_path : W → RelPath → WString
  unfolding build_upper_path_preserve_case
  get_stored_upper_path w path =
      let upper_path = build_upper_path_preserve_case config.upper_path path in
      with_stored_leaf_name w upper_path upper_path

  unfoldable pub warn_undo_failed :
      RollbackState W → Option NtStatus → RelPath → WString → RollbackState W
  warn_undo_failed state failure relative_path message = record state {
    warnings =
        record { failure = failure; relative_path = relative_path; message = message }
        ∷ state.warnings;
  }

  unfoldable pub warn_record_left_behind :
      RollbackState W → UpperEntryMove → RelPath → RollbackState W
  warn_record_left_behind state move relative_path =
      if nt_success move.record_left_behind
      then state
      else warn_undo_failed state (some move.record_left_behind) relative_path
          (codes "A sidecar record did not move with its entry")

  abbrev pub removes : UndoOpaqueMarker → Bool
  removes UndoOpaqueMarker.keep = false
  removes UndoOpaqueMarker.remove = true

  abbrev pub opaque_undone :
      RollbackState W → UpperRename → WhiteoutManager W × Bool → RollbackState W
  opaque_undone state rename (manager, removed) =
      if removed
      then record state { manager = manager }
      else warn_undo_failed (record state { manager = manager }) none rename.old_norm
          (codes "The undo of a failed rename could not remove the opaque marker it wrote")

  abbrev pub undo_opaque : RollbackState W → UpperRename → Bool → RollbackState W
  undo_opaque state rename applies =
      if applies
      then opaque_undone state rename
          (remove_opaque markers text config state.manager rename.old_norm)
      else state

  unfoldable pub forget_both : RollbackState W → UpperRename → RollbackState W
  forget_both state rename = record state {
    manager = record state.manager {
      cache = update_cache markers text config (invalidate_with_ancestors rename.new_norm) (
          update_cache markers text config (invalidate_with_ancestors rename.old_norm)
            state.manager.cache);
    };
  }

  abbrev pub moved_back :
      RollbackState W → UpperRename → W × UpperEntryMove → RollbackState W × NtStatus
  moved_back state rename (w, move) =
      let moved = nt_success move.status in
      let at_world : RollbackState W = record state {
        manager = record state.manager { world = w };
      } in
      let warned =
        warn_record_left_behind at_world move
          (if moved then rename.old_norm else rename.new_norm) in
      (
        forget_both (undo_opaque warned rename (moved && removes rename.opaque_marker)) rename,
        move.status,
      )

  unfoldable pub move_back : RollbackState W → UpperRename → RollbackState W × NtStatus
  move_back state rename = moved_back state rename (
      move_upper_entry files disk records state.manager.world
        (get_stored_upper_path state.manager.world rename.new_norm) rename.old_upper_path no)

  abbrev pub whiteout_dropped :
      RollbackState W → RelPath → WString → WhiteoutManager W × NtStatus → RollbackState W
  whiteout_dropped state relative_path message (manager, status) =
      if nt_success status
      then record state { manager = manager }
      else warn_undo_failed (record state { manager = manager }) (some status) relative_path message

  abbrev pub source_undone :
      UpperRename → NtStatus → RollbackState W × NtStatus → RollbackState W × RenameStepResult
  source_undone rename whiteout (state, moved) =
      if nt_success moved
      then (state, record { status = whiteout; new_name_occupied = false })
      else (
        whiteout_dropped (warn_undo_failed state (some moved) rename.new_norm could_not_move_back)
            rename.new_norm
            (codes "The undo of a failed rename could not remove the whiteout at the new name")
            (remove_whiteout markers text config state.manager rename.new_norm),
        record { status = whiteout; new_name_occupied = true },
      )

  abbrev pub source_whited_out :
      RollbackState W
      → UpperRename
      → WhiteoutManager W × NtStatus
      → RollbackState W × RenameStepResult
  source_whited_out state rename (manager, whiteout) =
      let next : RollbackState W = record state { manager = manager } in
      if nt_success whiteout
      then (next, record { status = status_success; new_name_occupied = false })
      else source_undone rename whiteout (move_back next rename)

  unfoldable pub white_out_source :
      RollbackState W → UpperRename → WhiteoutType → RollbackState W × RenameStepResult
  white_out_source state rename type =
      source_whited_out state rename
        (create_whiteout markers text config state.manager rename.old_norm type)

  abbrev pub removal_undone :
      UpperRename → NtStatus → RollbackState W × NtStatus → RollbackState W × RenameStepResult
  removal_undone rename removal (state, moved) =
      if nt_success moved
      then (
        whiteout_dropped state rename.old_norm
            (codes "The undo of a failed rename could not remove the whiteout at the old name")
            (remove_whiteout markers text config state.manager rename.old_norm),
        record { status = removal; new_name_occupied = false },
      )
      else (
        warn_undo_failed state (some moved) rename.new_norm could_not_move_back,
        record { status = removal; new_name_occupied = true },
      )

  abbrev pub destination_cleared :
      RollbackState W
      → UpperRename
      → WhiteoutManager W × NtStatus
      → RollbackState W × RenameStepResult
  destination_cleared state rename (manager, removal) =
      let next : RollbackState W = record state { manager = manager } in
      if nt_success removal
      then (next, record { status = status_success; new_name_occupied = false })
      else removal_undone rename removal (move_back next rename)

  unfoldable pub remove_destination_whiteout_or_undo :
      RollbackState W → UpperRename → RollbackState W × RenameStepResult
  remove_destination_whiteout_or_undo state rename =
      destination_cleared state rename
        (remove_whiteout markers text config state.manager rename.new_norm)
