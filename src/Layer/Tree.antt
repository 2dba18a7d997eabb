-- ===== src/Layer/Tree.antt =====
-- What a file system guarantees of the entries of one layer, and what follows for its markers.
use layer_mount.Base.{◌≡◌, Bool, true, false, ◌&&◌, not, arith}
use layer_mount.Base.{Outcome, ok, failed, [], ◌∷◌, ◌++◌}
use layer_mount.Base.{drop_last-snoc}
use layer_mount.Layer.Disk.{Disk, ComponentKind, WString, RelPath}
use layer_mount.Layer.Disk.{component_kind_in_layer, is_gone}
use layer_mount.Layer.Walk.{walk_to_first_non_directory}
use layer_mount.Layer.Walk.{find_link_on_path, is_off_links, ends_at_link_or_unreadable}
use layer_mount.Layer.Markers.{has_whiteout}
use layer_mount.Layer.Markers.{has_whiteout_under_walked_directory, holds_opaque_marker}
use layer_mount.Layer.Markers.{has_opaque_metadata, marker_file_exists}
use layer_mount.Layer.Markers.{whiteout_prefix, file_name}
use layer_mount.Layer.Markers.{opaque_marker_file}

abbrev pub is_gone_entry {ℓ} : {A : Type ℓ} → Outcome A → Bool
is_gone_entry (ok a) = false
is_gone_entry (failed error) = is_gone error

-- Nothing can stand below an entry of this kind.
abbrev pub is_closed : ComponentKind → Bool
is_closed ComponentKind.missing = true
is_closed ComponentKind.file = true
is_closed ComponentKind.directory = false
is_closed ComponentKind.link = false
is_closed ComponentKind.unreadable = false

-- A layer as a file system keeps it: a probe below a missing entry or a file finds nothing, and
-- no opaque stream or sidecar record stands at a missing entry or at a file.
pub record IsTree (disk : Disk) (layer : WString) : Type 0 where
  pub nothing_below :
      (path : RelPath) (name : WString)
      → is_closed (component_kind_in_layer disk layer path) ≡ true
      → is_gone_entry (disk.attributes layer (path ++ name ∷ [])) ≡ true
  pub no_stray_opaque :
      (path : RelPath)
      → is_closed (component_kind_in_layer disk layer path) ≡ true
      → has_opaque_metadata disk layer path ≡ false

module _ (disk : Disk) (layer : WString) where
  pub off_links_lem :
      (path : RelPath)
      → is_off_links (find_link_on_path disk layer path)
        ≡ not (ends_at_link_or_unreadable (walk_to_first_non_directory disk layer path).stop)
  unfolding find_link_on_path ends_at_link_or_unreadable
  off_links_lem path = ground arith

  pub has_whiteout-snoc :
      (path : RelPath) (c : WString)
      → has_whiteout disk layer (path ++ c ∷ []) ≡ (
          has_whiteout_under_walked_directory disk layer (path ++ c ∷ [])
          && not (ends_at_link_or_unreadable (walk_to_first_non_directory disk layer path).stop))
  unfolding has_whiteout
  has_whiteout-snoc path c = rw (drop_last-snoc path c, off_links_lem path)

  module _ (tree : IsTree disk layer) where
    pub missing_below :
        (path : RelPath) (c : WString)
        → is_closed (component_kind_in_layer disk layer path) ≡ true
        → component_kind_in_layer disk layer (path ++ c ∷ []) ≡ ComponentKind.missing
    unfolding component_kind_in_layer
    missing_below path c h = ground (arith, tree.nothing_below path c h)

    pub no_marker_below :
        (path : RelPath) (c : WString)
        → is_closed (component_kind_in_layer disk layer path) ≡ true
        → marker_file_exists disk layer (path ++ c ∷ []) ≡ false
    unfolding marker_file_exists
    no_marker_below path c h = ground (arith, tree.nothing_below path c h)

    pub no_whiteout_below :
        (path : RelPath) (c : WString)
        → is_closed (component_kind_in_layer disk layer path) ≡ true
        → has_whiteout_under_walked_directory disk layer (path ++ c ∷ []) ≡ false
    unfolding has_whiteout_under_walked_directory
    no_whiteout_below path c h =
        rw (drop_last-snoc path c)
          (no_marker_below path (whiteout_prefix ++ file_name (path ++ c ∷ [])) h)

    pub no_opaque_at :
        (path : RelPath)
        → is_closed (component_kind_in_layer disk layer path) ≡ true
        → holds_opaque_marker disk layer path ≡ false
    no_opaque_at path h =
        unfold holds_opaque_marker in
        ground (arith, tree.no_stray_opaque path h, no_marker_below path opaque_marker_file h)
