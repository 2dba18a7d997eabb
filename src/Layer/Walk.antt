-- ===== src/Layer/Walk.antt =====
-- The walk of a path in one layer up to its first component that is not a plain directory
-- (LayerPath.cpp: WalkToFirstNonDirectory and what reads it).
pub mod Snoc
use layer_mount.Base.{ℕ, ◌==◌, eq_nat, eq_list, Bool, true, false, ◌&&◌, ◌||◌, take}
use layer_mount.Base.{List, [], ◌∷◌, ◌++◌, if◌then◌else◌}
use layer_mount.Layer.Disk.{Disk, LayerConfig, ComponentKind, WString, RelPath}
use layer_mount.Layer.Disk.{component_kind_in_layer, holds_entry_in_layer}

pub data WalkStop : Type 0 where
  none file link unreadable : WalkStop

pub data LinkStop : Type 0 where
  none link unreadable : LinkStop

pub data LinkOnPath : Type 0 where
  none self ancestor unreadable : LinkOnPath

-- Where the walk stopped. The component is empty when the stop is `none`.
pub record LayerWalk : Type 0 where
  pub stop : WalkStop
  pub component : RelPath

abbrev pub no_stop : LayerWalk
no_stop = record { stop = WalkStop.none; component = [] }

unfoldable pub walk_stop_at : ComponentKind → WalkStop
walk_stop_at ComponentKind.file = WalkStop.file
walk_stop_at ComponentKind.link = WalkStop.link
walk_stop_at ComponentKind.unreadable = WalkStop.unreadable
walk_stop_at ComponentKind.missing = WalkStop.none
walk_stop_at ComponentKind.directory = WalkStop.none

unfoldable pub link_stop_of : WalkStop → LinkStop
link_stop_of WalkStop.link = LinkStop.link
link_stop_of WalkStop.unreadable = LinkStop.unreadable
link_stop_of WalkStop.none = LinkStop.none
link_stop_of WalkStop.file = LinkStop.none

abbrev pub is_link_stop : LinkStop → Bool
is_link_stop LinkStop.none = false
is_link_stop LinkStop.link = true
is_link_stop LinkStop.unreadable = true

unfoldable pub ends_at_link_or_unreadable : WalkStop → Bool
unfolding link_stop_of
ends_at_link_or_unreadable stop = is_link_stop (link_stop_of stop)

abbrev pub stops : WalkStop → Bool
stops WalkStop.none = false
stops WalkStop.file = true
stops WalkStop.link = true
stops WalkStop.unreadable = true

abbrev pub is_link : WalkStop → Bool
is_link WalkStop.link = true
is_link WalkStop.none = false
is_link WalkStop.file = false
is_link WalkStop.unreadable = false

module _ (disk : Disk) (layer : WString) where
  -- The loop over the components that are left, below the components walked.
  unfoldable pub walk_from : RelPath → RelPath → LayerWalk
  walk_from walked [] = no_stop
  walk_from walked (component ∷ rest) =
      let next = walked ++ component ∷ [] in
      elim (component_kind_in_layer disk layer next) [
        | ComponentKind.missing ↦ no_stop
        | ComponentKind.unreadable ↦ record { stop = WalkStop.unreadable; component = next }
        | ComponentKind.file ↦ record { stop = WalkStop.file; component = next }
        | ComponentKind.link ↦ record { stop = WalkStop.link; component = next }
        | ComponentKind.directory ↦ walk_from next rest
      ]

  unfoldable pub walk_to_first_non_directory : RelPath → LayerWalk
  unfolding walk_from
  walk_to_first_non_directory dir = walk_from [] dir

  unfoldable pub has_non_directory_or_link_self_or_ancestor : RelPath → Bool
  unfolding walk_to_first_non_directory
  has_non_directory_or_link_self_or_ancestor dir = stops (walk_to_first_non_directory dir).stop

  unfoldable pub find_link_on_path : RelPath → LinkOnPath
  unfolding link_stop_of
  find_link_on_path dir =
      let walk = walk_to_first_non_directory dir in
      elim (link_stop_of walk.stop) [
        | LinkStop.link ↦ if walk.component == dir then LinkOnPath.self else LinkOnPath.ancestor
        | LinkStop.unreadable ↦ LinkOnPath.unreadable
        | LinkStop.none ↦ LinkOnPath.none
      ]

abbrev pub is_off_links : LinkOnPath → Bool
is_off_links LinkOnPath.none = true
is_off_links LinkOnPath.self = false
is_off_links LinkOnPath.ancestor = false
is_off_links LinkOnPath.unreadable = false

module _ (disk : Disk) where
  unfoldable pub any_layer_holds : List WString → RelPath → Bool
  any_layer_holds [] path = false
  any_layer_holds (layer ∷ layers) path =
      holds_entry_in_layer disk layer path || any_layer_holds layers path

  module _ (config : LayerConfig) where
    unfoldable pub higher_layer_holds_entry : ℕ → RelPath → Bool
    unfolding any_layer_holds
    higher_layer_holds_entry lower_index path =
        holds_entry_in_layer disk config.upper_path path
        || any_layer_holds (take lower_index config.lower_paths) path

    -- `layer` is the root of the lower at `lower_index`.
    unfoldable pub has_link_under_higher_layer_entry : WString → ℕ → RelPath → Bool
    has_link_under_higher_layer_entry layer lower_index dir =
        let walk = walk_to_first_non_directory disk layer dir in
        is_link walk.stop && higher_layer_holds_entry lower_index walk.component
