-- ===== src/Layer/Listing.antt =====
-- The listing of a directory of the merged view (DirectoryMerge.cpp: MergeLayers,
-- MergeDirectoryWithAncestry, MergeChildDirectory).
pub mod Child
use layer_mount.Base.{Bool, ℕ, suc, ◌+◌, ◌&&◌, ◌||◌, not, none, some, List, [], ◌∷◌}
use layer_mount.Base.{◌++◌, length, take, get_elem?, if◌then◌else◌, Outcome, ok, failed}
use layer_mount.Layer.Source.{LayerSource}
use layer_mount.Layer.Disk.{Disk, LayerConfig, WString, RelPath}
use layer_mount.Layer.Names.{TextService}
use layer_mount.Layer.Ancestry.{
  LayerAncestry, layer_ancestry_of, step_layer_ancestry, root_ancestry,
}
use layer_mount.Layer.Merge.{MergeLayer, MergedEntry, DirectoryMerge, merge_layers_from, is_empty}
use layer_mount.Layer.View.{all_safe, is_reserved_overlay_path}

-- The entries of a merge, or the error of the scan that failed, with the ancestry of each layer
-- that the merge reached.
pub record MergedDirectoryWithAncestry : Type 0 where
  pub entries : Outcome (List (WString × MergedEntry))
  pub dir_path : RelPath
  pub layers : List LayerAncestry

abbrev pub upper_layer : LayerConfig → MergeLayer
upper_layer config = record {
  path = config.upper_path;
  layer_source = LayerSource.upper;
  layer_index = none;
}

abbrev pub lower_layer : ℕ → WString → MergeLayer
lower_layer i root = record { path = root; layer_source = LayerSource.lower; layer_index = some i }

abbrev pub lower_layers : ℕ → List WString → List MergeLayer
lower_layers i [] = []
lower_layers i (root ∷ roots) = lower_layer i root ∷ lower_layers (suc i) roots

-- Slot 0 is the upper, and slot i + 1 is lower i.
abbrev pub merge_layer_slots : LayerConfig → List MergeLayer
merge_layer_slots config = upper_layer config ∷ lower_layers 0 config.lower_paths

abbrev pub empty_merge : DirectoryMerge
empty_merge = record { merged_entries = []; hidden_names = [] }

abbrev pub entries_of : Outcome DirectoryMerge → Outcome (List (WString × MergedEntry))
entries_of (ok merge) = ok merge.merged_entries
entries_of (failed error) = failed error

-- The text of a directory, a separator and a name, by the parts between its separators. A text that
-- starts with a separator, as below the root, has an empty part in front.
abbrev pub child_path_of : RelPath → WString → RelPath
child_path_of [] name = [] ∷ name ∷ []
child_path_of (first ∷ rest) name = (first ∷ rest) ++ name ∷ []

module _ (text : TextService) (disk : Disk) (config : LayerConfig) where
  unfoldable pub merge_layers :
      RelPath → ℕ → (ℕ → MergeLayer → LayerAncestry) → MergedDirectoryWithAncestry
  merge_layers dir slot_limit ancestry_at =
      let merge =
        merge_layers_from text disk dir ancestry_at 0 (take slot_limit (merge_layer_slots config))
          empty_merge in
      record { entries = entries_of merge.outcome; dir_path = dir; layers = merge.layers }

  abbrev pub ancestry_of : RelPath → ℕ → MergeLayer → LayerAncestry
  ancestry_of dir slot layer = layer_ancestry_of disk config layer.path layer.layer_index dir

  -- The path check of a listing.
  unfoldable pub is_refused : RelPath → Bool
  is_refused dir =
      (not (is_empty dir) && not (all_safe dir)) || is_reserved_overlay_path text disk config dir

  unfoldable pub merge_directory_with_ancestry : RelPath → MergedDirectoryWithAncestry
  unfolding is_refused
  merge_directory_with_ancestry dir =
      if is_refused dir
      then record { entries = ok []; dir_path = dir; layers = [] }
      else merge_layers dir (length config.lower_paths + 1) (ancestry_of dir)

  -- The ancestry of the parent in a slot that its merge reached.
  abbrev pub parent_ancestry : List LayerAncestry → ℕ → MergeLayer → LayerAncestry
  parent_ancestry layers slot layer = elim (get_elem? layers slot) [
    | some ancestry ↦ ancestry
    | none ↦ root_ancestry disk config layer.path layer.layer_index
  ]

  unfoldable pub merge_child_directory :
      MergedDirectoryWithAncestry → WString → MergedDirectoryWithAncestry
  merge_child_directory parent child =
      let child_path = child_path_of parent.dir_path child in
      merge_layers child_path (length parent.layers) (λ slot layer.
        step_layer_ancestry disk config layer.path layer.layer_index child_path
          (parent_ancestry parent.layers slot layer))
