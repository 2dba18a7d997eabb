-- ===== src/Layer/Consistency/View.antt =====
-- The listing of a directory shows a name exactly from the layer that the lookup of it finds.
use layer_mount.Base.{ℕ, suc, ◌≡◌, Bool, false, ◌&&◌, ◌||◌, Option, none, some}
use layer_mount.Base.{List, [], ◌∷◌, ◌++◌, arith, is_ok, if◌then◌else◌, ok}
use layer_mount.Base.{Outcome-cases, inl, inr}
use layer_mount.Layer.Source.{LayerSource}
use layer_mount.Layer.Disk.{Disk, LayerConfig, WString, RelPath}
use layer_mount.Layer.Markers.{whiteout_prefix}
use layer_mount.Layer.Names.{TextService}
use layer_mount.Layer.Tree.{IsTree}
use layer_mount.Layer.Ancestry.{layer_ancestry_of}
use layer_mount.Layer.Lookup.{ResolvedPath, found, find_from, look_up}
use layer_mount.Layer.Lookup.{find_in_lowers}
use layer_mount.Layer.Merge.{MergedEntry, DirectoryMerge, merge_layers_from, has_name}
use layer_mount.Layer.Merge.{merge_layer_entries, merge_scan, add_layer_whiteouts, entry_of}
use layer_mount.Layer.Merge.{hides_layer_and_below, whiteout_names_in}
use layer_mount.Layer.Merge.{WhiteoutNames, scan_layer_directory}
use layer_mount.Layer.Listing.{
  upper_layer, lower_layer, lower_layers, ancestry_of, empty_merge, entries_of,
}
use layer_mount.Layer.Listing.{merge_layer_slots, merge_directory_with_ancestry, is_refused}
use layer_mount.Layer.Listing.{merge_layers}
use layer_mount.Layer.Listing.Child.{all_slots, merge_directory-passes}
use layer_mount.Layer.Consistency.Folding.{IsFolding}
use layer_mount.Layer.Consistency.Scans.{IsUserKey, has_name-append, marks}
use layer_mount.Layer.Consistency.Merges.{
  IsListed, origin_of, Origin, shown, adds, add_layer_entries-key,
}
use layer_mount.Layer.Consistency.Merges.{scan_layer_directory-key}
use layer_mount.Layer.Consistency.Layers.{find_from-ancestry, hiding_in_upper-ancestry}

-- The layer that a lookup answers from.
abbrev pub origin : ResolvedPath → Option Origin
origin r = if found r then some (r.source, r.lower_index) else none

-- A layer as a file system keeps it and lists it.
abbrev pub IsLayer : TextService → Disk → RelPath → WString → Type 0
IsLayer text disk dir layer = IsTree disk layer × IsListed text disk layer dir

abbrev pub All : (WString → Type 0) → List WString → Type 0
All P [] = Unit {0}
All P (layer ∷ layers) = P layer × All P layers

-- What the layers below show of a key that is shown, hidden or neither above them.
abbrev settle : Option Origin → Bool → Option Origin → Option Origin
settle (some o) hidden below = some o
settle none hidden below = if hidden then none else below

module _ (text : TextService) (folding : IsFolding text) (disk : Disk) (config : LayerConfig)
    (dir : RelPath) (key : WString) (user : IsUserKey text dir key) where
  abbrev marker : WString → Bool
  marker layer = is_ok (disk.attributes layer (dir ++ (whiteout_prefix ++ key) ∷ []))

  abbrev there : WString → Bool
  there layer = is_ok (disk.attributes layer (dir ++ key ∷ []))

  merge_lower-key :
      (i : ℕ) (layer : WString) (names : WhiteoutNames) (m m' : DirectoryMerge)
      → IsListed text disk layer dir
      → merge_layer_entries text disk (lower_layer i layer) dir names m ≡ ok m'
      → (shown key m'
          ≡ adds
              (shown key m)
              ((marks names && marker layer) || has_name key m.hidden_names)
              (there layer)
              (LayerSource.lower, some i))
        × (has_name key m'.hidden_names
            ≡ ((marks names && marker layer) || has_name key m.hidden_names))
  unfolding merge_layer_entries merge_scan add_layer_whiteouts shown
  merge_lower-key i layer names m m' lists e =
      elim (Outcome-cases (scan_layer_directory text disk layer dir names)) [
        | inr (error, bad) ↦ absurd (ground arith)
        | inl (scan, good) ↦
            let before : DirectoryMerge = record m {
              hidden_names = scan.whited_out_names ++ m.hidden_names;
            } in
            ground (
              arith,
              scan_layer_directory-key text folding dir key user disk layer names lists scan good,
              add_layer_entries-key (lower_layer i layer) key scan.entries before,
              has_name-append key scan.whited_out_names m.hidden_names,
            )
      ]

  merge_upper-key :
      (names : WhiteoutNames) (m m' : DirectoryMerge)
      → IsListed text disk config.upper_path dir
      → merge_layer_entries text disk (upper_layer config) dir names m ≡ ok m'
      → (shown key m'
          ≡ adds
              (shown key m)
              (has_name key m.hidden_names)
              (there config.upper_path)
              (LayerSource.upper, none))
        × (has_name key m'.hidden_names
            ≡ ((marks names && marker config.upper_path) || has_name key m.hidden_names))
  unfolding merge_layer_entries merge_scan add_layer_whiteouts shown
  merge_upper-key names m m' lists e =
      elim (Outcome-cases (scan_layer_directory text disk config.upper_path dir names)) [
        | inr (error, bad) ↦ absurd (ground arith)
        | inl (scan, good) ↦ ground (
          arith,
          scan_layer_directory-key text folding dir key user disk config.upper_path names lists scan
              good,
          add_layer_entries-key (upper_layer config) key scan.entries m,
          has_name-append key scan.whited_out_names m.hidden_names,
        )
      ]

  merge_lowers-key :
      (slot i : ℕ) (layers : List WString) (m m' : DirectoryMerge)
      → All (IsLayer text disk dir) layers
      → (merge_layers_from text disk dir
          (ancestry_of text disk config dir)
          slot
          (lower_layers i layers)
          m).outcome
        ≡ ok m'
      → shown key m'
        ≡ settle
            (shown key m)
            (has_name key m.hidden_names)
            (origin (find_from disk config (dir ++ key ∷ []) i layers))
  unfolding merge_layers_from found
  merge_lowers-key slot i [] m m' h e = unfold find_from in ground arith
  merge_lowers-key slot i (layer ∷ layers) m m' h e =
      let a = layer_ancestry_of disk config layer (some i) dir in
      let step = find_from-ancestry disk config dir key i layer layers h.0.0 in
      elim (Outcome-cases
        (merge_layer_entries text disk (lower_layer i layer) dir (whiteout_names_in a) m)) [
          | inr (error, bad) ↦ ground (arith, step)
          | inl (merged, good) ↦ ground (
            arith,
            step,
            merge_lower-key i layer (whiteout_names_in a) m merged h.0.1 good,
            merge_lowers-key (suc slot) (suc i) layers merged m' h.1,
          )
        ]

  merge_slots-key :
      (m' : DirectoryMerge)
      → IsLayer text disk dir config.upper_path
      → All (IsLayer text disk dir) config.lower_paths
      → (merge_layers_from text disk dir
          (ancestry_of text disk config dir)
          0
          (merge_layer_slots config)
          empty_merge).outcome
        ≡ ok m'
      → shown key m' ≡ origin (look_up disk config (dir ++ key ∷ []))
  unfolding merge_layers_from look_up found find_in_lowers
  merge_slots-key m' up low e =
      let a = layer_ancestry_of disk config config.upper_path none dir in
      let hiding = hiding_in_upper-ancestry disk config dir key up.0 in
      elim (Outcome-cases (
        merge_layer_entries text disk (upper_layer config) dir (whiteout_names_in a) empty_merge)) [
          | inr (error, bad) ↦ unfold hides_layer_and_below in absurd (ground arith)
          | inl (merged, good) ↦
              unfold hides_layer_and_below shown entry_of has_name in
              ground (
                arith,
                hiding,
                merge_upper-key (whiteout_names_in a) empty_merge merged up.1 good,
                merge_lowers-key 1 0 config.lower_paths merged m' low,
              )
        ]

  -- In a merged directory whose layers are trees that list what their probes find, the listing
  -- shows a user's name exactly where the lookup of that name finds an entry, and from the same
  -- layer: the upper or the lower of that index. The listing must have succeeded, and its path
  -- check must accept the directory.
  pub merge_directory-look_up :
      (entries : List (WString × MergedEntry))
      → IsLayer text disk dir config.upper_path
      → All (IsLayer text disk dir) config.lower_paths
      → is_refused text disk config dir ≡ false
      → (merge_directory_with_ancestry text disk config dir).entries ≡ ok entries
      → origin_of (entry_of key entries) ≡ origin (look_up disk config (dir ++ key ∷ []))
  unfolding merge_layers
  merge_directory-look_up entries up low accepted e =
      let outcome =
        (merge_layers_from text disk dir (ancestry_of text disk config dir) 0
          (merge_layer_slots config) empty_merge).outcome in
      let same : entries_of outcome ≡ ok entries =
        rw
          (
            merge_directory-passes text disk config dir accepted,
            merge_layers,
            all_slots text disk config,
          )
          at e in
      elim (Outcome-cases outcome) [
        | inr (error, bad) ↦ absurd (ground arith)
        | inl (m', good) ↦ unfold shown in ground (arith, merge_slots-key m' up low good)
      ]
