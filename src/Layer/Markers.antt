-- ===== src/Layer/Markers.antt =====
-- Whiteout and opaque markers in one layer (WhiteoutManager.cpp, MetadataStore.cpp).
pub mod Upward
use layer_mount.Base.{ℕ, zero, suc, Bool, false, ◌&&◌, ◌||◌, none, some}
use layer_mount.Base.{[], ◌∷◌, ◌++◌, codes, length, drop_last, if◌then◌else◌, is_ok}
use layer_mount.Layer.Disk.{Disk, WString, RelPath}
use layer_mount.Layer.Walk.{find_link_on_path, is_off_links}
use layer_mount.Layer.Walk.{has_non_directory_or_link_self_or_ancestor}

abbrev pub whiteout_prefix : WString
whiteout_prefix = codes ".wh."

abbrev pub opaque_marker_file : WString
opaque_marker_file = codes ".wh..wh..opq"

abbrev pub opaque_ads_stream : WString
opaque_ads_stream = codes ":overlay.opaque"

abbrev pub opaque_suffix : WString
opaque_suffix = codes ".opaque"

-- std::filesystem::path::filename.
abbrev pub file_name : RelPath → WString
file_name [] = []
file_name (name ∷ []) = name
file_name (name ∷ next ∷ rest) = file_name (next ∷ rest)

unfoldable pub whiteout_file_name : RelPath → RelPath
whiteout_file_name path = drop_last path ++ (whiteout_prefix ++ file_name path) ∷ []

pub data LayerRoot : Type 0 where
  probed skipped : LayerRoot

module _ (has_marker : RelPath → Bool) where
  -- The loop from a directory of `depth` components up to the root.
  unfoldable pub any_up : ℕ → LayerRoot → RelPath → Bool
  any_up zero probed dir = has_marker []
  any_up zero skipped dir = false
  any_up (suc depth) root dir = has_marker dir || any_up depth root (drop_last dir)

  unfoldable pub any_directory_up_to_root : LayerRoot → RelPath → Bool
  unfolding any_up
  any_directory_up_to_root root dir = any_up (length dir) root dir

module _ (disk : Disk) (layer : WString) where
  unfoldable pub marker_file_exists : RelPath → Bool
  marker_file_exists path = is_ok (disk.attributes layer path)

  unfoldable pub has_opaque_metadata : RelPath → Bool
  has_opaque_metadata dir =
      is_ok (disk.stream_attributes layer dir opaque_ads_stream)
      || elim (disk.record_attributes layer dir opaque_suffix) [
        | none ↦ false
        | some probe ↦ is_ok probe
      ]

  unfoldable pub has_whiteout_under_walked_directory : RelPath → Bool
  unfolding whiteout_file_name marker_file_exists
  has_whiteout_under_walked_directory path = marker_file_exists (whiteout_file_name path)

  unfoldable pub has_whiteout : RelPath → Bool
  has_whiteout path =
      has_whiteout_under_walked_directory path
      && is_off_links (find_link_on_path disk layer (drop_last path))

  unfoldable pub holds_opaque_marker : RelPath → Bool
  unfolding has_opaque_metadata marker_file_exists
  holds_opaque_marker dir =
      has_opaque_metadata dir || marker_file_exists (dir ++ opaque_marker_file ∷ [])

  unfoldable pub is_opaque_in_layer : RelPath → Bool
  is_opaque_in_layer dir =
      holds_opaque_marker dir && is_off_links (find_link_on_path disk layer dir)

  unfoldable pub has_opaque_self_or_ancestor : RelPath → Bool
  unfolding any_directory_up_to_root
  has_opaque_self_or_ancestor = any_directory_up_to_root is_opaque_in_layer probed

  unfoldable pub has_whited_out_ancestor : RelPath → Bool
  unfolding any_directory_up_to_root
  has_whited_out_ancestor path = any_directory_up_to_root has_whiteout skipped (drop_last path)

pub data LowerVisibility : Type 0 where
  visible hidden_by_opaque_marker hidden_by_non_directory_or_link : LowerVisibility

module _ (disk : Disk) where
  unfoldable pub lowers_below : WString → RelPath → LowerVisibility
  unfolding has_opaque_self_or_ancestor has_non_directory_or_link_self_or_ancestor
  lowers_below layer dir =
      if has_opaque_self_or_ancestor disk layer dir
      then hidden_by_opaque_marker
      else if has_non_directory_or_link_self_or_ancestor disk layer dir
      then hidden_by_non_directory_or_link
      else visible
