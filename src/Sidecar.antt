-- ===== src/Sidecar.antt =====
-- The sidecar records of upper entries (src/LayerMount.dll/impl/SidecarMetadata.cpp). A record and an
-- opaque marker are files beside each other, named by the hash of the entry's path. The calls that
-- change files are parameters, over a world whose type is one too; so is the hash, which is empty
-- where it fails.
pub mod Tests
pub mod Effects
pub mod Keys
pub mod Moves
pub mod Records
use layer_mount.Base.{
  Bool, true, false, ◌||◌, not, Option, none, some, ◌++◌, ◌==◌, eq_nat, eq_list, if◌then◌else◌,
  codes, map,
}
use layer_mount.Layer.Disk.{WString}
use layer_mount.Layer.Names.{TextService}
use layer_mount.Status.{Win32Error, NtStatus}
use layer_mount.Status.Mapping.{is_no_error, nt_status_from_win32}
use layer_mount.Status.NtStatus.{status_success}
use layer_mount.Status.Win32Error.{error_success, error_file_not_found, error_path_not_found}
use layer_mount.Tracker.{is_empty}

-- MoveFileExW over an existing file, DeleteFileW, and CreateFileW of an empty file, each with the
-- error of a call that failed; whether the directories of a path could be made; whether GetFileAttributesW finds a file; and what a file holds.
pub record FileService (W : Type 0) : Type 0 where
  pub move_file : W → WString → WString → W × Option Win32Error
  pub delete_file : W → WString → W × Option Win32Error
  pub create_file : W → WString → W × Option Win32Error
  pub ensure_directory : W → WString → W × Bool
  pub has_attributes : W → WString → Bool
  pub file_at : W → WString → Option WString

abbrev pub is_not_found : Win32Error → Bool
is_not_found error_file_not_found = true
is_not_found error_path_not_found = true
is_not_found _ = false

module _ {W : Type 0} (service : FileService W) where
  abbrev pub record_deleted : W × Option Win32Error → W × Win32Error
  record_deleted (w, none) = (w, error_success)
  record_deleted (w, some error) = (w, if is_not_found error then error_success else error)

  abbrev pub record_moved : WString → W × Option Win32Error → W × Win32Error
  record_moved to (w, none) = (w, error_success)
  record_moved to (w, some error) =
      if is_not_found error then record_deleted (service.delete_file w to) else (w, error)

  unfoldable pub move_record_file : W → WString → WString → W × Win32Error
  move_record_file w from to = record_moved to (service.move_file w from to)

abbrev pub meta_suffix : WString
meta_suffix = codes ".meta.json"

abbrev pub opaque_suffix : WString
opaque_suffix = codes ".opaque"

-- The directory of the records, and the hash of a text's UTF-8 form, in hexadecimal digits.
pub record SidecarMetadata : Type 0 where
  pub directory : WString
  pub text : TextService
  pub sha1_hex : WString → WString

unfoldable pub base_of : SidecarMetadata → WString → Option WString
base_of sidecar entry_path =
    let hash = sidecar.sha1_hex (map sidecar.text.lower entry_path) in
    if is_empty hash then none else some (sidecar.directory ++ (codes "\\" ++ hash))

abbrev pub with_suffix : WString → Option WString → Option WString
with_suffix suffix none = none
with_suffix suffix (some base) = some (base ++ suffix)

unfoldable pub file_of : SidecarMetadata → WString → WString → Option WString
file_of sidecar entry_path suffix = with_suffix suffix (base_of sidecar entry_path)

module _ {W : Type 0} (service : FileService W) where
  -- The end of a move whose opaque marker gave an error: the record goes back.
  abbrev pub opaque_moved : WString → WString → W × Win32Error → W × NtStatus
  opaque_moved from_base to_base (w, error) = if is_no_error error then (w, status_success) else (
    (move_record_file service w (to_base ++ meta_suffix) (from_base ++ meta_suffix)).0,
    nt_status_from_win32 error,
  )

  abbrev pub meta_moved : WString → WString → W × Win32Error → W × NtStatus
  meta_moved from_base to_base (w, error) =
      if is_no_error error
      then opaque_moved from_base to_base
          (move_record_file service w (from_base ++ opaque_suffix) (to_base ++ opaque_suffix))
      else (w, nt_status_from_win32 error)

  abbrev pub move_bases : W → Option WString → Option WString → W × NtStatus
  move_bases w none to = (w, status_success)
  move_bases w (some from_base) none = (w, status_success)
  move_bases w (some from_base) (some to_base) =
      if from_base == to_base
      then (w, status_success)
      else meta_moved from_base to_base
          (move_record_file service w (from_base ++ meta_suffix) (to_base ++ meta_suffix))

  module _ (sidecar : SidecarMetadata) where
    unfoldable pub move : W → WString → WString → W × NtStatus
    move w from_path to_path = move_bases w (base_of sidecar from_path) (base_of sidecar to_path)

    -- A record that is not there is success only for the first of the errors.
    abbrev pub removed : W × Option Win32Error → W × Bool
    removed (w, none) = (w, true)
    removed (w, some error_file_not_found) = (w, true)
    removed (w, some _) = (w, false)

    abbrev pub remove_file : W → Option WString → W × Bool
    remove_file w none = (w, true)
    remove_file w (some file) = removed (service.delete_file w file)

    unfoldable pub remove : W → WString → W × Bool
    remove w file_path = remove_file w (file_of sidecar file_path meta_suffix)

    abbrev pub marker_removed : W × Option Win32Error → W × Bool
    marker_removed (w, none) = (w, true)
    marker_removed (w, some error) = (w, is_not_found error)

    abbrev pub remove_marker : W → Option WString → W × Bool
    remove_marker w none = (w, true)
    remove_marker w (some file) = marker_removed (service.delete_file w file)

    unfoldable pub remove_opaque : W → WString → W × Bool
    remove_opaque w dir_path = remove_marker w (file_of sidecar dir_path opaque_suffix)

    abbrev pub has_file : W → Option WString → Bool
    has_file w none = false
    has_file w (some file) = service.has_attributes w file

    unfoldable pub has_record : W → WString → Bool
    has_record w file_path = has_file w (file_of sidecar file_path meta_suffix)

    unfoldable pub has_opaque : W → WString → Bool
    has_opaque w dir_path = has_file w (file_of sidecar dir_path opaque_suffix)

    abbrev pub created : W × Option Win32Error → W × Bool
    created (w, none) = (w, true)
    created (w, some error) = (w, false)

    abbrev pub create_marker : W → Option WString → W × Bool
    create_marker w none = (w, false)
    create_marker w (some file) = created (service.create_file w file)

    abbrev pub mark_in : WString → W × Bool → W × Bool
    mark_in dir_path (w, false) = (w, false)
    mark_in dir_path (w, true) = create_marker w (file_of sidecar dir_path opaque_suffix)

    unfoldable pub set_opaque : W → WString → W × Bool
    set_opaque w dir_path = mark_in dir_path (service.ensure_directory w sidecar.directory)
