-- ===== src/Layer/Consistency/Layers.antt =====
-- One layer's part in a lookup, told by the ancestry that the listing keeps.
use layer_mount.Base.{ℕ, suc, ◌≡◌, refl, Bool, true, false, ◌&&◌, ◌||◌, not, Option, none, some}
use layer_mount.Base.{List, [], ◌∷◌, ◌++◌, arith, is_ok, if◌then◌else◌, ok, failed, drop_last-snoc}
use layer_mount.Layer.Source.{UpperHiding}
use layer_mount.Layer.Disk.{Disk, LayerConfig, WString, RelPath}
use layer_mount.Layer.Walk.{stops}
use layer_mount.Layer.Walk.{has_link_under_higher_layer_entry}
use layer_mount.Layer.Markers.{whiteout_prefix, has_whiteout, has_whited_out_ancestor, lowers_below}
use layer_mount.Layer.Markers.{file_name, has_whiteout_under_walked_directory}
use layer_mount.Layer.Tree.{IsTree, has_whiteout-snoc}
use layer_mount.Layer.Ancestry.{LayerAncestry, layer_ancestry_of}
use layer_mount.Layer.Ancestry.Agreement.{layer_ancestry_of-Agrees}
use layer_mount.Layer.Lookup.{nothing, find_from, lower_hit, is_visible, hiding_in_upper}
use layer_mount.Layer.Merge.{hides_layer_and_below, hides_layers_below, whiteout_names_in}
use layer_mount.Layer.Listing.{upper_layer, lower_layer}
use layer_mount.Layer.Consistency.Scans.{marks}

file_name-snoc : (dir : RelPath) (name : WString) → file_name (dir ++ name ∷ []) ≡ name
file_name-snoc [] name = refl
file_name-snoc (x ∷ []) name = refl
file_name-snoc (x ∷ y ∷ rest) name = file_name-snoc (y ∷ rest) name

module _ (disk : Disk) (config : LayerConfig) (layer : WString) (lower_index : Option ℕ)
    (tree : IsTree disk layer) (dir : RelPath) (key : WString) where
  abbrev here : LayerAncestry
  here = layer_ancestry_of disk config layer lower_index dir

  abbrev pub marker_at : Bool
  marker_at = is_ok (disk.attributes layer (dir ++ (whiteout_prefix ++ key) ∷ []))

  has_whiteout-ancestry :
      has_whiteout disk layer (dir ++ key ∷ []) ≡ (marks (whiteout_names_in here) && marker_at)
  unfolding has_whiteout_under_walked_directory whiteout_names_in
  has_whiteout-ancestry =
      let agrees = layer_ancestry_of-Agrees disk layer tree config lower_index dir in
      ground (
        arith,
        has_whiteout-snoc disk layer dir key,
        agrees.first_non_directory,
        file_name-snoc dir key,
        drop_last-snoc dir key,
      )

  has_whited_out_ancestor-ancestry :
      has_whited_out_ancestor disk layer (dir ++ key ∷ []) ≡ here.whited_out
  unfolding has_whited_out_ancestor
  has_whited_out_ancestor-ancestry =
      let agrees = layer_ancestry_of-Agrees disk layer tree config lower_index dir in
      ground (arith, agrees.whited_out, drop_last-snoc dir key)

  lowers_below-ancestry :
      is_visible (lowers_below disk layer dir) ≡ not (here.opaque || stops here.first_non_directory)
  unfolding lowers_below
  lowers_below-ancestry =
      let agrees = layer_ancestry_of-Agrees disk layer tree config lower_index dir in
      ground (arith, agrees.opaque, agrees.first_non_directory)

module _ (disk : Disk) (config : LayerConfig) (dir : RelPath) (key : WString) where
  pub find_from-ancestry :
      (i : ℕ) (layer : WString) (layers : List WString)
      → IsTree disk layer
      → let a = layer_ancestry_of disk config layer (some i) dir in
        find_from disk config (dir ++ key ∷ []) i (layer ∷ layers) ≡ (
          if marks (whiteout_names_in a)
            && is_ok (disk.attributes layer (dir ++ (whiteout_prefix ++ key) ∷ []))
          then nothing
          else if hides_layer_and_below (lower_layer i layer) a
          then nothing
          else elim (disk.attributes layer (dir ++ key ∷ [])) [
            | ok attrs ↦ lower_hit layer i (dir ++ key ∷ []) attrs
            | failed error ↦
                if hides_layers_below (lower_layer i layer) a
                then nothing
                else find_from disk config (dir ++ key ∷ []) (suc i) layers
          ])
  unfolding find_from hides_layer_and_below hides_layers_below has_link_under_higher_layer_entry
  find_from-ancestry i layer layers tree =
      let agrees = layer_ancestry_of-Agrees disk layer tree config (some i) dir in
      ground (
        arith,
        has_whiteout-ancestry disk config layer (some i) tree dir key,
        has_whited_out_ancestor-ancestry disk config layer (some i) tree dir key,
        lowers_below-ancestry disk config layer (some i) tree dir key,
        agrees.link_under_higher_entry,
        drop_last-snoc dir key,
      )

  pub hiding_in_upper-ancestry :
      IsTree disk config.upper_path
      → let a = layer_ancestry_of disk config config.upper_path none dir in
        (elim (hiding_in_upper disk config (dir ++ key ∷ [])) [
          | UpperHiding.none ↦ false
          | _ ↦ true
        ])
        ≡ ((marks (whiteout_names_in a)
              && is_ok (disk.attributes config.upper_path (dir ++ (whiteout_prefix ++ key) ∷ [])))
            || hides_layers_below (upper_layer config) a)
  unfolding hiding_in_upper hides_layers_below
  hiding_in_upper-ancestry tree = ground (
    arith,
    has_whiteout-ancestry disk config config.upper_path none tree dir key,
    has_whited_out_ancestor-ancestry disk config config.upper_path none tree dir key,
    lowers_below-ancestry disk config config.upper_path none tree dir key,
    drop_last-snoc dir key,
  )
