-- ===== src/Whiteouts.antt =====
-- The writes of markers to the upper (src/LayerMount.dll/impl/WhiteoutManager.cpp: CreateWhiteout,
-- RemoveWhiteout, SetOpaque, RemoveOpaque). The calls that change the disk are
-- parameters over a world, which the reads of Layer see as a disk. A path is its components, and
-- NormalizePath folds their case.
pub mod Effects
mod Tests
use layer_mount.Base.{
  ℕ, Bool, true, false, ◌&&◌, ◌||◌, Option, none, some, List, [], ◌∷◌, ◌++◌, map, if◌then◌else◌,
  drop_last, Outcome, ok, failed,
}
use layer_mount.Cache.{Cache, invalidate, invalidate_with_ancestors}
use layer_mount.Layer.Disk.{Disk, LayerConfig, WString, RelPath, Attributes, is_directory_link}
use layer_mount.Layer.Lookup.{ResolvedPath}
use layer_mount.Layer.Markers.{whiteout_file_name, opaque_marker_file, has_whiteout}
use layer_mount.Layer.Names.{TextService}
use layer_mount.Layer.View.{LinkInView, find_link_in_view}
use layer_mount.Layer.Walk.{LinkStop, LinkOnPath, find_link_on_path}
use layer_mount.Status.{Win32Error, NtStatus}
use layer_mount.Status.Mapping.{nt_success, nt_status_from_win32, status_from_win32_error}
use layer_mount.Status.NtStatus.{status_success, status_not_a_directory, status_access_denied}
use layer_mount.Status.Win32Error.{error_file_not_found, error_write_fault}

-- CreateFileW of a hidden file, and DeleteFileW, with the error of a failed call; the directories
-- made on the way, whose failure is ignored; the opaque metadata of a directory, with whether the
-- call worked; and the times of a directory.
pub record MarkerService (W : Type 0) : Type 0 where
  pub disk : W → Disk
  pub ensure_directory_exists : W → WString → RelPath → W
  pub create_file : W → WString → RelPath → W × Option Win32Error
  pub delete_file : W → WString → RelPath → W × Option Win32Error
  pub set_opaque_metadata : W → WString → RelPath → W × Bool
  pub remove_opaque_metadata : W → WString → RelPath → W × Bool
  pub read_entry_times : W → WString → RelPath → Option ℕ
  pub write_entry_times : W → WString → RelPath → ℕ → W

pub data WhiteoutType : Type 0 where
  no_whiteout file directory opaque : WhiteoutType

-- The events of whiteouts are kept in their order, the newest first.
pub record WhiteoutManager (W : Type 0) : Type 0 where
  pub world : W
  pub cache : Option (Cache ResolvedPath)
  pub has_emitter : Bool
  pub created : List RelPath

abbrev pub marker_directory_of : RelPath → RelPath
marker_directory_of path = drop_last path

unfoldable pub marker_directory_status : LinkStop → NtStatus
marker_directory_status LinkStop.link = status_not_a_directory
marker_directory_status LinkStop.unreadable = status_access_denied
marker_directory_status LinkStop.none = status_success

abbrev pub normalized : TextService → RelPath → RelPath
normalized text path = map (map text.lower) path

abbrev pub is_file_not_found : Win32Error → Bool
is_file_not_found error_file_not_found = true
is_file_not_found _ = false

abbrev pub is_deleted : Option Win32Error → Bool
is_deleted none = true
is_deleted (some error) = is_file_not_found error

module _ {W : Type 0} (service : MarkerService W) (text : TextService) (config : LayerConfig) where
  abbrev pub update_cache :
      (Cache ResolvedPath → Cache ResolvedPath)
      → Option (Cache ResolvedPath)
      → Option (Cache ResolvedPath)
  update_cache change none = none
  update_cache change (some cache) = some (change cache)

  abbrev pub marker_created :
      WhiteoutManager W → RelPath → W × Option Win32Error → WhiteoutManager W × NtStatus
  marker_created manager path (w, some error) =
      (record manager { world = w }, nt_status_from_win32 error)
  marker_created manager path (w, none) = (
    record manager {
      world = w;
      cache = update_cache (invalidate_with_ancestors (normalized text path)) manager.cache;
      created = if manager.has_emitter then path ∷ manager.created else manager.created;
    },
    status_success,
  )

  abbrev pub create_if : WhiteoutManager W → RelPath → NtStatus → WhiteoutManager W × NtStatus
  create_if manager path status =
      if nt_success status
      then marker_created manager path (
          service.create_file
            (service.ensure_directory_exists manager.world config.upper_path
              (marker_directory_of (whiteout_file_name path)))
            config.upper_path (whiteout_file_name path))
      else (manager, status)

  abbrev pub times_restored : RelPath → Option ℕ → W → W
  times_restored dir none w = w
  times_restored dir (some times) w = service.write_entry_times w config.upper_path dir times

  -- Either marker is enough.
  abbrev pub either_marker : Bool → Option Win32Error → NtStatus
  either_marker metadata_ok none = status_success
  either_marker metadata_ok (some error) =
      if metadata_ok then status_success else nt_status_from_win32 error

  unfoldable pub write_opaque_markers : W → RelPath → W × NtStatus
  write_opaque_markers w dir =
      let before = service.read_entry_times w config.upper_path dir in
      let metadata = service.set_opaque_metadata w config.upper_path dir in
      let marker =
        service.create_file metadata.0 config.upper_path (dir ++ opaque_marker_file ∷ []) in
      (times_restored dir before marker.0, either_marker metadata.1 marker.1)

  abbrev pub opaque_written :
      WhiteoutManager W → RelPath → W × NtStatus → WhiteoutManager W × NtStatus
  opaque_written manager dir (w, status) = (
    record manager {
      world = w;
      cache = update_cache (invalidate (normalized text dir)) manager.cache;
    },
    status,
  )

  abbrev pub set_opaque_if : WhiteoutManager W → RelPath → NtStatus → WhiteoutManager W × NtStatus
  set_opaque_if manager dir status =
      if nt_success status
      then opaque_written manager dir (
          write_opaque_markers (service.ensure_directory_exists manager.world config.upper_path dir)
            dir)
      else (manager, status)

  unfoldable pub set_opaque : WhiteoutManager W → RelPath → WhiteoutManager W × NtStatus
  set_opaque manager dir =
      set_opaque_if manager dir
        (marker_directory_status (find_link_in_view (service.disk manager.world) config dir).stop)

  unfoldable pub create_whiteout :
      WhiteoutManager W → RelPath → WhiteoutType → WhiteoutManager W × NtStatus
  create_whiteout manager path WhiteoutType.opaque = set_opaque manager path
  create_whiteout manager path _ = create_if manager path (
      marker_directory_status
        (find_link_in_view (service.disk manager.world) config (marker_directory_of path)).stop)

  abbrev pub forget_path : WhiteoutManager W → W → RelPath → WhiteoutManager W
  forget_path manager w path = record manager {
    world = w;
    cache = update_cache (invalidate_with_ancestors (normalized text path)) manager.cache;
  }

  abbrev pub marker_deleted :
      WhiteoutManager W → RelPath → W × Option Win32Error → WhiteoutManager W × NtStatus
  marker_deleted manager path (w, none) = (forget_path manager w path, status_success)
  marker_deleted manager path (w, some error) =
      if is_file_not_found error
      then (forget_path manager w path, status_success)
      else (record manager { world = w }, status_from_win32_error error error_write_fault)

  abbrev pub remove_off_links :
      WhiteoutManager W → RelPath → LinkOnPath → WhiteoutManager W × NtStatus
  remove_off_links manager path LinkOnPath.self = (manager, status_success)
  remove_off_links manager path LinkOnPath.ancestor = (manager, status_success)
  remove_off_links manager path LinkOnPath.unreadable = (manager, status_access_denied)
  remove_off_links manager path LinkOnPath.none =
      marker_deleted manager path
        (service.delete_file manager.world config.upper_path (whiteout_file_name path))

  unfoldable pub remove_whiteout : WhiteoutManager W → RelPath → WhiteoutManager W × NtStatus
  remove_whiteout manager path =
      remove_off_links manager path (
        find_link_on_path (service.disk manager.world) config.upper_path (marker_directory_of path))

  abbrev pub marker_gone : Bool → W × Option Win32Error → W × Bool
  marker_gone metadata_ok (w, error) = (w, metadata_ok && is_deleted error)

  abbrev pub opaque_removed : WhiteoutManager W → RelPath → W × Bool → WhiteoutManager W × Bool
  opaque_removed manager dir (w, done) = (
    record manager {
      world = w;
      cache = update_cache (invalidate (normalized text dir)) manager.cache;
    },
    done,
  )

  abbrev pub remove_opaque_at : WhiteoutManager W → RelPath → LinkOnPath → WhiteoutManager W × Bool
  remove_opaque_at manager dir LinkOnPath.ancestor = (manager, true)
  remove_opaque_at manager dir LinkOnPath.unreadable = (manager, false)
  remove_opaque_at manager dir LinkOnPath.self =
      opaque_removed manager dir
        (service.remove_opaque_metadata manager.world config.upper_path dir)
  remove_opaque_at manager dir LinkOnPath.none =
      let metadata = service.remove_opaque_metadata manager.world config.upper_path dir in
      opaque_removed manager dir (
        marker_gone metadata.1
          (service.delete_file metadata.0 config.upper_path (dir ++ opaque_marker_file ∷ [])))

  unfoldable pub remove_opaque : WhiteoutManager W → RelPath → WhiteoutManager W × Bool
  remove_opaque manager dir =
      remove_opaque_at manager dir
        (find_link_on_path (service.disk manager.world) config.upper_path dir)

  -- HasWhiteout of the upper, and then of each lower.
  unfoldable pub any_layer_has_whiteout : Disk → RelPath → List WString → Bool
  any_layer_has_whiteout disk path [] = false
  any_layer_has_whiteout disk path (layer ∷ layers) =
      has_whiteout disk layer path || any_layer_has_whiteout disk path layers

  unfoldable pub has_whiteout_in_any_layer : WhiteoutManager W → RelPath → Bool
  has_whiteout_in_any_layer manager path =
      any_layer_has_whiteout (service.disk manager.world) path
        (config.upper_path ∷ config.lower_paths)
