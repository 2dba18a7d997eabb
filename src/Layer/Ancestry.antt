-- ===== src/Layer/Ancestry.antt =====
-- The ancestry of a directory in one layer, kept step by step (LayerPath.cpp: StepLayerAncestry,
-- LayerAncestryOf).
pub mod Agreement
pub mod Growth
use layer_mount.Base.{ℕ, Bool, true, false, ◌&&◌, ◌||◌, Option, none, some, [], ◌∷◌, ◌++◌}
use layer_mount.Base.{if◌then◌else◌}
use layer_mount.Layer.Disk.{Disk, LayerConfig, ComponentKind, WString, RelPath}
use layer_mount.Layer.Disk.{component_kind_in_layer}
use layer_mount.Layer.Walk.{WalkStop, walk_stop_at, stops, higher_layer_holds_entry}
use layer_mount.Layer.Markers.{has_whiteout_under_walked_directory, holds_opaque_marker}
use layer_mount.Layer.Markers.{is_opaque_in_layer}

pub record LayerAncestry : Type 0 where
  pub whited_out : Bool
  pub opaque : Bool
  pub first_non_directory : WalkStop
  pub link_under_higher_entry : Bool
  pub absent : Bool

abbrev pub is_directory_kind : ComponentKind → Bool
is_directory_kind ComponentKind.directory = true
is_directory_kind ComponentKind.missing = false
is_directory_kind ComponentKind.file = false
is_directory_kind ComponentKind.link = false
is_directory_kind ComponentKind.unreadable = false

abbrev pub is_missing_kind : ComponentKind → Bool
is_missing_kind ComponentKind.missing = true
is_missing_kind ComponentKind.directory = false
is_missing_kind ComponentKind.file = false
is_missing_kind ComponentKind.link = false
is_missing_kind ComponentKind.unreadable = false

abbrev pub is_link_kind : ComponentKind → Bool
is_link_kind ComponentKind.link = true
is_link_kind ComponentKind.missing = false
is_link_kind ComponentKind.directory = false
is_link_kind ComponentKind.file = false
is_link_kind ComponentKind.unreadable = false

-- The index of a lower, or `none` for the upper's -1.
module _ (disk : Disk) (config : LayerConfig) (layer : WString) (lower_index : Option ℕ) where
  abbrev pub higher_holds : RelPath → Bool
  higher_holds path = elim lower_index [
    | none ↦ false
    | some i ↦ higher_layer_holds_entry disk config i path
  ]

  unfoldable pub step_layer_ancestry : RelPath → LayerAncestry → LayerAncestry
  unfolding walk_stop_at
  step_layer_ancestry dir parent =
      if parent.absent
      then parent
      else if stops parent.first_non_directory
      then parent
      else let kind = component_kind_in_layer disk layer dir in
        record {
          whited_out = parent.whited_out || has_whiteout_under_walked_directory disk layer dir;
          opaque = parent.opaque || (is_directory_kind kind && holds_opaque_marker disk layer dir);
          first_non_directory = walk_stop_at kind;
          link_under_higher_entry = is_link_kind kind && higher_holds dir;
          absent = is_missing_kind kind;
        }

  -- The loop over the components that are left, below the components walked.
  unfoldable pub ancestry_from : RelPath → RelPath → LayerAncestry → LayerAncestry
  ancestry_from walked [] ancestry = ancestry
  ancestry_from walked (component ∷ rest) ancestry =
      let next = walked ++ component ∷ [] in
      ancestry_from next rest (step_layer_ancestry next ancestry)

  abbrev pub root_ancestry : LayerAncestry
  root_ancestry = record {
    whited_out = false;
    opaque = is_opaque_in_layer disk layer [];
    first_non_directory = WalkStop.none;
    link_under_higher_entry = false;
    absent = false;
  }

  unfoldable pub layer_ancestry_of : RelPath → LayerAncestry
  unfolding ancestry_from
  layer_ancestry_of dir = ancestry_from [] dir root_ancestry
