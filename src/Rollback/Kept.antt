-- ===== src/Rollback/Kept.antt =====
-- What no call on markers changes, no operation on whiteouts changes
-- (src/LayerMount.dll/impl/WhiteoutManager.cpp).
use layer_mount.Base.{◌≢◌, refl, Option, none, some, [], ◌∷◌, ◌++◌, inl, inr, Bool-cases}
use layer_mount.Layer.Disk.{LayerConfig, WString, RelPath}
use layer_mount.Layer.Markers.{whiteout_file_name, opaque_marker_file}
use layer_mount.Layer.Names.{TextService}
use layer_mount.Layer.View.{find_link_in_view}
use layer_mount.Layer.Walk.{LinkOnPath, find_link_on_path}
use layer_mount.Status.{Win32Error, NtStatus}
use layer_mount.Status.Mapping.{nt_success}
use layer_mount.Whiteouts.{
  MarkerService, WhiteoutManager, WhiteoutType, create_whiteout, create_if, marker_created,
  is_file_not_found, marker_deleted, remove_off_links, remove_whiteout, remove_opaque_at,
  remove_opaque, marker_directory_status, marker_directory_of,
}

module _ {W : Type 0} (service : MarkerService W) (source : RelPath) (P : W → Type 0) where
  -- It is kept by the calls on whiteouts and opaque markers, and by the directories made above a
  -- whiteout of the source.
  pub record IsKept : Type 0 where
    pub on_ensure :
        (w : W) (layer : WString)
        → P w
        → P (
            service.ensure_directory_exists w layer
              (marker_directory_of (whiteout_file_name source)))
    pub on_create :
        (w : W) (layer : WString) (path : RelPath)
        → P w
        → P (service.create_file w layer (whiteout_file_name path)).0
    pub on_delete :
        (w : W) (layer : WString) (path : RelPath)
        → P w
        → P (service.delete_file w layer (whiteout_file_name path)).0
    pub on_delete_opaque :
        (w : W) (layer : WString) (dir : RelPath)
        → P w
        → P (service.delete_file w layer (dir ++ opaque_marker_file ∷ [])).0
    pub on_remove_opaque :
        (w : W) (layer : WString) (path : RelPath)
        → P w
        → P (service.remove_opaque_metadata w layer path).0

  module _ (kept : IsKept) (text : TextService) (config : LayerConfig) where
    created-keeps :
        (manager : WhiteoutManager W) (path : RelPath) (result : W × Option Win32Error)
        → P result.0
        → P (marker_created service text config manager path result).0.world
    created-keeps manager path (w, none) holds = holds
    created-keeps manager path (w, some error) holds = holds

    create_if-keeps :
        (manager : WhiteoutManager W) (status : NtStatus)
        → P manager.world
        → P (create_if service text config manager source status).0.world
    create_if-keeps manager status holds = elim (Bool-cases (nt_success status)) [
      | inl good ↦
          let upper = config.upper_path in
          let marker = whiteout_file_name source in
          let ensured =
            service.ensure_directory_exists manager.world upper (marker_directory_of marker) in
          rw good (
            created-keeps manager source (service.create_file ensured upper marker)
              (kept.on_create ensured upper source (kept.on_ensure manager.world upper holds)))
      | inr bad ↦ rw bad holds
    ]

    pub create_whiteout-keeps :
        (manager : WhiteoutManager W) (type : WhiteoutType)
        → type ≢ WhiteoutType.opaque
        → P manager.world
        → P (create_whiteout service text config manager source type).0.world
    unfolding create_whiteout
    create_whiteout-keeps manager WhiteoutType.opaque other holds = absurd (other refl)
    create_whiteout-keeps manager _ other holds =
        create_if-keeps manager
          (marker_directory_status
            (find_link_in_view (service.disk manager.world) config
              (marker_directory_of source)).stop)
          holds

    deleted-keeps :
        (manager : WhiteoutManager W) (path : RelPath) (result : W × Option Win32Error)
        → P result.0
        → P (marker_deleted service text config manager path result).0.world
    deleted-keeps manager path (w, none) holds = holds
    deleted-keeps manager path (w, some error) holds = elim (Bool-cases (is_file_not_found error)) [
      | inl missing ↦ rw missing holds
      | inr other ↦ rw other holds
    ]

    off_links-keep :
        (manager : WhiteoutManager W) (path : RelPath) (link : LinkOnPath)
        → P manager.world
        → P (remove_off_links service text config manager path link).0.world
    off_links-keep manager path LinkOnPath.self holds = holds
    off_links-keep manager path LinkOnPath.ancestor holds = holds
    off_links-keep manager path LinkOnPath.unreadable holds = holds
    off_links-keep manager path LinkOnPath.none holds =
        deleted-keeps manager path
          (service.delete_file manager.world config.upper_path (whiteout_file_name path))
          (kept.on_delete manager.world config.upper_path path holds)

    pub remove_whiteout-keeps :
        (manager : WhiteoutManager W) (path : RelPath)
        → P manager.world
        → P (remove_whiteout service text config manager path).0.world
    unfolding remove_whiteout
    remove_whiteout-keeps manager path holds =
        off_links-keep manager path
          (find_link_on_path (service.disk manager.world) config.upper_path
            (marker_directory_of path))
          holds

    opaque_at-keeps :
        (manager : WhiteoutManager W) (dir : RelPath) (link : LinkOnPath)
        → P manager.world
        → P (remove_opaque_at service text config manager dir link).0.world
    opaque_at-keeps manager dir LinkOnPath.ancestor holds = holds
    opaque_at-keeps manager dir LinkOnPath.unreadable holds = holds
    opaque_at-keeps manager dir LinkOnPath.self holds =
        kept.on_remove_opaque manager.world config.upper_path dir holds
    opaque_at-keeps manager dir LinkOnPath.none holds =
        kept.on_delete_opaque (service.remove_opaque_metadata manager.world config.upper_path dir).0
          config.upper_path dir (kept.on_remove_opaque manager.world config.upper_path dir holds)

    pub remove_opaque-keeps :
        (manager : WhiteoutManager W) (dir : RelPath)
        → P manager.world
        → P (remove_opaque service text config manager dir).0.world
    unfolding remove_opaque
    remove_opaque-keeps manager dir holds =
        opaque_at-keeps manager dir
          (find_link_on_path (service.disk manager.world) config.upper_path dir) holds

pub both_kept :
    {W : Type 0} (service : MarkerService W) (source : RelPath) (P Q : W → Type 0)
    → IsKept service source P
    → IsKept service source Q
    → IsKept service source (λ w. P w × Q w)
both_kept service source P Q p q = record {
  on_ensure = λ w layer h. (p.on_ensure w layer h.0, q.on_ensure w layer h.1);
  on_create = λ w layer path h. (p.on_create w layer path h.0, q.on_create w layer path h.1);
  on_delete = λ w layer path h. (p.on_delete w layer path h.0, q.on_delete w layer path h.1);
  on_delete_opaque =
      λ w layer dir h. (p.on_delete_opaque w layer dir h.0, q.on_delete_opaque w layer dir h.1);
  on_remove_opaque =
      λ w layer path h. (p.on_remove_opaque w layer path h.0, q.on_remove_opaque w layer path h.1);
}
