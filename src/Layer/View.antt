-- ===== src/Layer/View.antt =====
-- Links in the merged view, and the paths that the view never shows (LayerPath.cpp:
-- FindLinkInView; DirectoryMerge.cpp: IsReservedOverlayPath; LayerMount.cpp: the path checks).
use layer_mount.Base.{ℕ, suc, Bool, true, false, ◌&&◌, ◌||◌, not, Option, none, some, List, [], ◌∷◌}
use layer_mount.Base.{◌++◌, codes, ◌==◌, eq_nat, eq_list, if◌then◌else◌, drop_last}
use layer_mount.Layer.Source.{LayerSource}
use layer_mount.Layer.Disk.{Disk, LayerConfig, WString, RelPath}
use layer_mount.Layer.Walk.{WalkStop, LinkStop, link_stop_of, is_link_stop}
use layer_mount.Layer.Walk.{ends_at_link_or_unreadable, walk_to_first_non_directory}
use layer_mount.Layer.Names.{TextService, is_whiteout_name, sidecar_dir_name}
use layer_mount.Layer.Ancestry.{layer_ancestry_of}

pub record LinkInView : Type 0 where
  pub stop : LinkStop
  pub source : LayerSource
  pub path : RelPath

abbrev pub no_link : LinkInView
no_link = record { stop = LinkStop.none; source = LayerSource.none; path = [] }

abbrev pub is_file : WalkStop → Bool
is_file WalkStop.file = true
is_file WalkStop.none = false
is_file WalkStop.link = false
is_file WalkStop.unreadable = false

module _ (disk : Disk) (config : LayerConfig) where
  unfoldable pub any_lower_link : RelPath → List WString → Bool
  unfolding ends_at_link_or_unreadable
  any_lower_link dir [] = false
  any_lower_link dir (layer ∷ layers) =
      ends_at_link_or_unreadable (walk_to_first_non_directory disk layer dir).stop
      || any_lower_link dir layers

  -- The loop over the lowers that are left, from the index of the first of them.
  unfoldable pub link_in_lowers : RelPath → ℕ → List WString → LinkInView
  unfolding ends_at_link_or_unreadable link_stop_of
  link_in_lowers dir i [] = no_link
  link_in_lowers dir i (layer ∷ layers) =
      let deeper = link_in_lowers dir (suc i) layers in
      let lower = layer_ancestry_of disk config layer (some i) dir in
      let walk = walk_to_first_non_directory disk layer dir in
      if lower.whited_out || lower.link_under_higher_entry
      then no_link
      else if ends_at_link_or_unreadable walk.stop
      then record {
        stop = link_stop_of walk.stop;
        source = LayerSource.lower;
        path = walk.component;
      }
      else if lower.opaque || is_file walk.stop
      then no_link
      else deeper

  unfoldable pub find_link_in_view : RelPath → LinkInView
  unfolding any_lower_link link_in_lowers
  find_link_in_view dir =
      let upper_walk = walk_to_first_non_directory disk config.upper_path dir in
      let upper = layer_ancestry_of disk config config.upper_path none dir in
      if ends_at_link_or_unreadable upper_walk.stop
      then record {
        stop = link_stop_of upper_walk.stop;
        source = LayerSource.upper;
        path = upper_walk.component;
      }
      else if is_file upper_walk.stop
      then no_link
      else if not (any_lower_link dir config.lower_paths)
      then no_link
      else if upper.whited_out || upper.opaque
      then no_link
      else link_in_lowers dir 0 config.lower_paths

  unfoldable pub find_link_above : RelPath → LinkInView
  unfolding find_link_in_view
  find_link_above path = find_link_in_view (drop_last path)

  unfoldable pub is_in_link_target : RelPath → Bool
  unfolding find_link_in_view
  is_in_link_target dir = is_link_stop (find_link_in_view dir).stop

-- The checks of a normalized path, on its components.
unfoldable pub has_colon : WString → Bool
has_colon [] = false
has_colon (c ∷ rest) = c == b':' || has_colon rest

unfoldable pub all_safe : RelPath → Bool
unfolding has_colon
all_safe [] = true
all_safe (name ∷ rest) = not (has_colon name || name == codes "..") && all_safe rest

unfoldable pub is_root_sidecar_path : RelPath → Bool
is_root_sidecar_path [] = false
is_root_sidecar_path (name ∷ rest) = name == sidecar_dir_name

module _ (text : TextService) where
  -- The components above the first that is a marker name.
  unfoldable pub parent_of_first_marker : RelPath → RelPath → Option RelPath
  parent_of_first_marker walked [] = none
  parent_of_first_marker walked (name ∷ rest) =
      if is_whiteout_name text name
      then some walked
      else parent_of_first_marker (walked ++ name ∷ []) rest

  abbrev is_root : RelPath → Bool
  is_root [] = true
  is_root (name ∷ rest) = false

  unfoldable pub is_reserved_overlay_path : Disk → LayerConfig → RelPath → Bool
  unfolding is_root_sidecar_path parent_of_first_marker is_in_link_target
  is_reserved_overlay_path disk config path =
      if is_root_sidecar_path path then true else elim (parent_of_first_marker [] path) [
        | none ↦ false
        | some parent ↦ is_root parent || not (is_in_link_target disk config parent)
      ]
