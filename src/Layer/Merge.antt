-- ===== src/Layer/Merge.antt =====
-- The merge of one directory across the layers (DirectoryMerge.cpp).
use layer_mount.Base.{ℕ, suc, Bool, true, false, ◌&&◌, ◌||◌, Option, none, some}
use layer_mount.Base.{List, [], ◌∷◌, ◌++◌, codes, nat_eq}
use layer_mount.Base.{◌==◌, eq_nat, eq_list, if◌then◌else◌, Outcome, ok, failed}
use layer_mount.Layer.Source.{LayerSource}
use layer_mount.Layer.Disk.{Disk, FindData, not_opened, read, is_gone}
use layer_mount.Layer.Disk.{WString, RelPath}
use layer_mount.Layer.Walk.{stops, ends_at_link_or_unreadable}
use layer_mount.Layer.Names.{TextService, case_folded_name, is_whiteout_name, sidecar_dir_name}
use layer_mount.Layer.Names.{whited_out_name_of_entry}
use layer_mount.Layer.Ancestry.{LayerAncestry}

pub data WhiteoutNames : Type 0 where
  are_markers are_ordinary : WhiteoutNames

unfoldable pub whiteout_names_in : LayerAncestry → WhiteoutNames
unfolding ends_at_link_or_unreadable
whiteout_names_in ancestry =
    if ends_at_link_or_unreadable ancestry.first_non_directory then are_ordinary else are_markers

pub record LayerDirectoryEntry : Type 0 where
  pub key : WString
  pub find_data : FindData

-- A scan that did not fail. A failed one is `failed` with its Win32 error.
pub record LayerDirectoryScan : Type 0 where
  pub whited_out_names : List WString
  pub entries : List LayerDirectoryEntry

abbrev pub error_no_more_files : ℕ
error_no_more_files = 18

abbrev pub error_directory : ℕ
error_directory = 267

abbrev pub is_directory_absent_error : ℕ → Bool
is_directory_absent_error error = is_gone error || nat_eq error error_directory

abbrev pub is_empty : RelPath → Bool
is_empty [] = true
is_empty (name ∷ rest) = false

abbrev pub empty_scan : LayerDirectoryScan
empty_scan = record { whited_out_names = []; entries = [] }

module _ (text : TextService) where
  -- IsReservedRelativePath of a single name: the sidecar directory or a name with the prefix.
  unfoldable pub is_reserved_name : WString → Bool
  is_reserved_name key = key == sidecar_dir_name || is_whiteout_name text key

  unfoldable pub visible_entry_key : RelPath → WString → Option WString
  unfolding is_reserved_name
  visible_entry_key dir name =
      if name == codes "." || name == codes ".."
      then none
      else let key = case_folded_name text name in
        if is_empty dir && is_reserved_name key then none else some key

  unfoldable pub add_ordinary_entry : RelPath → FindData → LayerDirectoryScan → LayerDirectoryScan
  unfolding visible_entry_key
  add_ordinary_entry dir found scan = elim (visible_entry_key dir found.name) [
    | none ↦ scan
    | some key ↦ record scan {
      entries = scan.entries ++ record { key = key; find_data = found } ∷ [];
    }
  ]

  unfoldable pub add_marker_or_entry : RelPath → FindData → LayerDirectoryScan → LayerDirectoryScan
  unfolding add_ordinary_entry
  add_marker_or_entry dir found scan = elim (whited_out_name_of_entry text found.name) [
    | some hidden ↦ record scan {
      whited_out_names = scan.whited_out_names ++ case_folded_name text hidden ∷ [];
    }
    | none ↦ if is_whiteout_name text found.name then scan else add_ordinary_entry dir found scan
  ]

  abbrev pub add_entry :
      WhiteoutNames → RelPath → FindData → LayerDirectoryScan → LayerDirectoryScan
  add_entry are_markers = add_marker_or_entry
  add_entry are_ordinary = add_ordinary_entry

  unfoldable pub scan_entries :
      WhiteoutNames → RelPath → List FindData → LayerDirectoryScan → LayerDirectoryScan
  unfolding add_marker_or_entry
  scan_entries names dir [] scan = scan
  scan_entries names dir (found ∷ rest) scan =
      scan_entries names dir rest (add_entry names dir found scan)

  module _ (disk : Disk) where
    unfoldable pub scan_layer_directory :
        WString → RelPath → WhiteoutNames → Outcome LayerDirectoryScan
    unfolding scan_entries
    scan_layer_directory layer dir names = elim (disk.enumerate layer dir) [
      | not_opened error ↦ if is_directory_absent_error error then ok empty_scan else failed error
      | read found end_error ↦
          if nat_eq end_error error_no_more_files
          then ok (scan_entries names dir found empty_scan)
          else failed end_error
    ]

pub record MergedEntry : Type 0 where
  pub merged_data : FindData
  pub source : LayerSource
  pub lower_index : Option ℕ

-- The map of merged entries as an association list, and the set of hidden names as a list.
pub record DirectoryMerge : Type 0 where
  pub merged_entries : List (WString × MergedEntry)
  pub hidden_names : List WString

pub record MergeLayer : Type 0 where
  pub path : WString
  pub layer_source : LayerSource
  pub layer_index : Option ℕ

unfoldable pub has_key {ℓ} : {V : Type ℓ} → WString → List (WString × V) → Bool
has_key key [] = false
has_key key ((k, v) ∷ rest) = k == key || has_key key rest

unfoldable pub has_name : WString → List WString → Bool
has_name key [] = false
has_name key (k ∷ rest) = k == key || has_name key rest

-- The entry of a key.
unfoldable pub entry_of {ℓ} : {V : Type ℓ} → WString → List (WString × V) → Option V
entry_of key [] = none
entry_of key ((k, v) ∷ rest) = if k == key then some v else entry_of key rest

abbrev pub is_lower : LayerSource → Bool
is_lower LayerSource.lower = true
is_lower LayerSource.upper = false
is_lower LayerSource.none = false

abbrev pub is_upper : LayerSource → Bool
is_upper LayerSource.upper = true
is_upper LayerSource.lower = false
is_upper LayerSource.none = false

module _ (layer : MergeLayer) where
  unfoldable pub add_layer_whiteouts : LayerDirectoryScan → DirectoryMerge → DirectoryMerge
  add_layer_whiteouts scan merge = record merge {
    hidden_names = scan.whited_out_names ++ merge.hidden_names;
  }

  abbrev pub entry_from : LayerDirectoryEntry → MergedEntry
  entry_from entry = record {
    merged_data = entry.find_data;
    source = layer.layer_source;
    lower_index = layer.layer_index;
  }

  unfoldable pub add_layer_entries : List LayerDirectoryEntry → DirectoryMerge → DirectoryMerge
  unfolding has_key has_name
  add_layer_entries [] merge = merge
  add_layer_entries (entry ∷ rest) merge = add_layer_entries rest (
      if has_key entry.key merge.merged_entries || has_name entry.key merge.hidden_names
      then merge
      else record merge {
        merged_entries = merge.merged_entries ++ (entry.key, entry_from entry) ∷ [];
      })

  unfoldable pub merge_scan : LayerDirectoryScan → DirectoryMerge → DirectoryMerge
  unfolding add_layer_entries add_layer_whiteouts
  merge_scan scan merge =
      let before = if is_lower layer.layer_source then add_layer_whiteouts scan merge else merge in
      let after = add_layer_entries scan.entries before in
      if is_upper layer.layer_source then add_layer_whiteouts scan after else after

  unfoldable pub hides_layer_and_below : LayerAncestry → Bool
  hides_layer_and_below ancestry =
      is_lower layer.layer_source && (ancestry.whited_out || ancestry.link_under_higher_entry)

  unfoldable pub hides_layers_below : LayerAncestry → Bool
  hides_layers_below ancestry =
      ancestry.opaque
      || (stops ancestry.first_non_directory
          || (is_upper layer.layer_source && ancestry.whited_out))

-- What a walk over the layers gives, with the ancestry of each layer that it reached.
pub record LayersMerge : Type 0 where
  pub outcome : Outcome DirectoryMerge
  pub layers : List LayerAncestry

module _ (text : TextService) (disk : Disk) where
  unfoldable pub merge_layer_entries :
      MergeLayer → RelPath → WhiteoutNames → DirectoryMerge → Outcome DirectoryMerge
  unfolding scan_layer_directory merge_scan
  merge_layer_entries layer dir names merge =
      elim (scan_layer_directory text disk layer.path dir names) [
        | failed error ↦ failed error
        | ok scan ↦ ok (merge_scan layer scan merge)
      ]

  -- The walk over the layers that are left, from the slot of the first of them. `ancestry_at` gives
  -- the ancestry of the directory in a layer.
  unfoldable pub merge_layers_from :
      RelPath
      → (ℕ → MergeLayer → LayerAncestry)
      → ℕ
      → List MergeLayer
      → DirectoryMerge
      → LayersMerge
  merge_layers_from dir ancestry_at slot [] merge = record { outcome = ok merge; layers = [] }
  merge_layers_from dir ancestry_at slot (layer ∷ layers) merge =
      let ancestry = ancestry_at slot layer in
      if hides_layer_and_below layer ancestry
      then record { outcome = ok merge; layers = ancestry ∷ [] }
      else elim (merge_layer_entries layer dir (whiteout_names_in ancestry) merge) [
        | failed error ↦ record { outcome = failed error; layers = ancestry ∷ [] }
        | ok merged ↦
            let rest = merge_layers_from dir ancestry_at (suc slot) layers merged in
            if hides_layers_below layer ancestry
            then record { outcome = ok merged; layers = ancestry ∷ [] }
            else record { outcome = rest.outcome; layers = ancestry ∷ rest.layers }
      ]
