-- ===== src/Whiteouts/Effects.antt =====
-- What the lookup sees after a whiteout was written or removed
-- (src/LayerMount.dll/impl/WhiteoutManager.cpp: CreateWhiteout, RemoveWhiteout, HasWhiteout).
use layer_mount.Base.{
  ◌≡◌, ◌≢◌, refl, Bool, true, false, ◌&&◌, Option, none, some, inl, inr, Bool-cases, arith, is_ok,
}
use layer_mount.Layer.Disk.{Disk, LayerConfig, WString, RelPath}
use layer_mount.Layer.Markers.{
  whiteout_file_name, has_whiteout, marker_file_exists, has_whiteout_under_walked_directory,
}
use layer_mount.Layer.Names.{TextService}
use layer_mount.Layer.View.{find_link_in_view}
use layer_mount.Layer.Walk.{
  LinkOnPath, find_link_on_path, is_off_links, walk_to_first_non_directory, WalkStop, link_stop_of,
  ends_at_link_or_unreadable,
}
use layer_mount.Status.{Win32Error, NtStatus}
use layer_mount.Status.Mapping.{nt_success, succeeds_as, status_from_win32_error}
use layer_mount.Status.Success.{nt_success-from, nt_success-status_from_win32_error}
use layer_mount.Status.Win32Error.{error_write_fault}
use layer_mount.Whiteouts.{
  MarkerService, WhiteoutManager, WhiteoutType, create_whiteout, remove_whiteout, create_if,
  marker_created, marker_deleted, remove_off_links, is_file_not_found, marker_directory_status,
  marker_directory_of,
}

and_false : (b : Bool) → (b && false) ≡ false
and_false true = refl
and_false false = refl

module _ {W : Type 0} (service : MarkerService W) where
  abbrev is_off_link_at : W → WString → RelPath → Bool
  is_off_link_at w layer dir = is_off_links (find_link_on_path (service.disk w) layer dir)

  abbrev pub CreatesAs : W → WString → RelPath → W × Option Win32Error → Type 0
  CreatesAs before layer path (after, none) =
      is_ok ((service.disk after).attributes layer path) ≡ true
  CreatesAs before layer path (after, some error) = succeeds_as error ≡ false

  abbrev pub DeletesAs : W → WString → RelPath → W × Option Win32Error → Type 0
  DeletesAs before layer path (after, none) =
      is_ok ((service.disk after).attributes layer path) ≡ false
  DeletesAs before layer path (after, some error) =
      (succeeds_as error ≡ false)
      × (is_file_not_found error ≡ true
          → is_ok ((service.disk after).attributes layer path) ≡ false)

  -- What Win32 documents: a created file is there and a deleted one is not; an error is neither zero
  -- nor the one of a pending call, and a delete whose error is a missing file found none. A new
  -- directory or file puts no link on a path.
  pub record IsMarkerService : Type 0 where
    pub creates :
        (w : W) (layer : WString) (path : RelPath)
        → CreatesAs w layer path (service.create_file w layer path)
    pub deletes :
        (w : W) (layer : WString) (path : RelPath)
        → DeletesAs w layer path (service.delete_file w layer path)
    pub create_adds_no_link :
        (w : W) (layer : WString) (path dir : RelPath)
        → is_off_link_at w layer dir ≡ true
        → is_off_link_at (service.create_file w layer path).0 layer dir ≡ true
    pub ensure_adds_no_link :
        (w : W) (layer : WString) (path dir : RelPath)
        → is_off_link_at w layer dir ≡ true
        → is_off_link_at (service.ensure_directory_exists w layer path) layer dir ≡ true

  module _ (law : IsMarkerService) (text : TextService) (config : LayerConfig) where
    -- Whether the upper has a whiteout of a path.
    abbrev pub is_whited_out : WhiteoutManager W → RelPath → Bool
    is_whited_out manager path = has_whiteout (service.disk manager.world) config.upper_path path

    at_stop :
        (disk : Disk) (dir : RelPath) (stop : WalkStop)
        → (walk_to_first_non_directory disk config.upper_path dir).stop ≡ stop
        → nt_success (marker_directory_status (find_link_in_view disk config dir).stop) ≡ true
        → is_off_links (find_link_on_path disk config.upper_path dir) ≡ true
    unfolding find_link_on_path find_link_in_view ends_at_link_or_unreadable link_stop_of
        marker_directory_status
    at_stop disk dir WalkStop.none is good = rw (is, is_off_links) refl
    at_stop disk dir WalkStop.file is good = rw (is, is_off_links) refl
    at_stop disk dir WalkStop.link is good =
        let clash : false ≡ true = rw is at good in ground (arith, clash)
    at_stop disk dir WalkStop.unreadable is good =
        let clash : false ≡ true = rw is at good in ground (arith, clash)

    off_links-stop :
        (disk : Disk) (dir : RelPath)
        → nt_success (marker_directory_status (find_link_in_view disk config dir).stop) ≡ true
        → is_off_links (find_link_on_path disk config.upper_path dir) ≡ true
    off_links-stop disk dir good = at_stop disk dir _ refl good

    deleted_lem :
        (manager : WhiteoutManager W) (path : RelPath) (result : W × Option Win32Error)
        → DeletesAs manager.world config.upper_path (whiteout_file_name path) result
        → nt_success (marker_deleted service text config manager path result).1 ≡ true
        → is_whited_out (marker_deleted service text config manager path result).0 path ≡ false
    unfolding has_whiteout has_whiteout_under_walked_directory marker_file_exists
    deleted_lem manager path (w, none) gone good = rw gone refl
    deleted_lem manager path (w, some error) told good =
        elim (Bool-cases (is_file_not_found error)) [
          | inl missing ↦ rw (missing, told.1 missing) refl
          | inr other ↦
              let succeeds : nt_success (status_from_win32_error error error_write_fault) ≡ true =
                rw other at good in
              absurd (
                ground (
                  arith,
                  succeeds,
                  nt_success-status_from_win32_error error error_write_fault told.0,
                ))
        ]

    removed_lem :
        (manager : WhiteoutManager W) (path : RelPath) (link : LinkOnPath)
        → find_link_on_path
            (service.disk manager.world)
            config.upper_path
            (marker_directory_of path)
          ≡ link
        → nt_success (remove_off_links service text config manager path link).1 ≡ true
        → is_whited_out (remove_off_links service text config manager path link).0 path ≡ false
    unfolding has_whiteout
    removed_lem manager path LinkOnPath.self is good = rw is (and_false _)
    removed_lem manager path LinkOnPath.ancestor is good = rw is (and_false _)
    removed_lem manager path LinkOnPath.unreadable is good = ground (arith, good)
    removed_lem manager path LinkOnPath.none is good =
        deleted_lem manager path _ (law.deletes _ _ _) good

    written_lem :
        (manager : WhiteoutManager W) (path : RelPath) (result : W × Option Win32Error)
        → CreatesAs manager.world config.upper_path (whiteout_file_name path) result
        → is_off_link_at result.0 config.upper_path (marker_directory_of path) ≡ true
        → nt_success (marker_created service text config manager path result).1 ≡ true
        → is_whited_out (marker_created service text config manager path result).0 path ≡ true
    unfolding has_whiteout has_whiteout_under_walked_directory marker_file_exists
    written_lem manager path (w, none) there off good = rw (there, off) refl
    written_lem manager path (w, some error) failed off good =
        absurd (ground (arith, good, failed, nt_success-from error))

    created_lem :
        (manager : WhiteoutManager W) (path : RelPath) (status : NtStatus)
        → (nt_success status ≡ true
            → is_off_link_at manager.world config.upper_path (marker_directory_of path) ≡ true)
        → nt_success (create_if service text config manager path status).1 ≡ true
        → is_whited_out (create_if service text config manager path status).0 path ≡ true
    created_lem manager path status off good = elim (Bool-cases (nt_success status)) [
      | inl fine ↦
          let upper = config.upper_path in
          let marker = whiteout_file_name path in
          let ensured =
            service.ensure_directory_exists manager.world upper (marker_directory_of marker) in
          rw fine (
            written_lem manager path (service.create_file ensured upper marker)
              (law.creates ensured upper marker)
              (law.create_adds_no_link ensured upper marker (marker_directory_of path) (
                law.ensure_adds_no_link manager.world upper (marker_directory_of marker)
                  (marker_directory_of path) (off fine)))
              (rw fine at good))
      | inr bad ↦
          let succeeds : nt_success status ≡ true = rw bad at good in
          absurd (ground (arith, succeeds, bad))
    ]

    -- Where the calls do as Win32 documents: after a whiteout of a file or a directory was written
    -- with success, the upper has a whiteout of the path, and after one was removed with success it
    -- has none, also where a link on the way keeps the markers out of sight.
    pub whiteout-written_removed :
        (manager : WhiteoutManager W) (path : RelPath) (type : WhiteoutType)
        → (nt_success (create_whiteout service text config manager path type).1 ≡ true
            → type ≢ WhiteoutType.opaque
            → is_whited_out (create_whiteout service text config manager path type).0 path ≡ true)
          × (nt_success (remove_whiteout service text config manager path).1 ≡ true
              → is_whited_out (remove_whiteout service text config manager path).0 path ≡ false)
    unfolding create_whiteout remove_whiteout
    whiteout-written_removed manager path WhiteoutType.opaque =
        (λ good other. absurd (other refl), λ good. removed_lem manager path _ refl good)
    whiteout-written_removed manager path _ = (
      λ good other.
          created_lem manager path
            (marker_directory_status
              (find_link_in_view (service.disk manager.world) config
                (marker_directory_of path)).stop)
            (off_links-stop (service.disk manager.world) (marker_directory_of path)) good,
      λ good. removed_lem manager path _ refl good,
    )
