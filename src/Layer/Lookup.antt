-- ===== src/Layer/Lookup.antt =====
-- The lookup of a path in the lower layers, and what in the upper hides them (PathResolver.cpp).
use layer_mount.Base.{ℕ, suc, Bool, true, false, ◌&&◌, Option, none, some, List, [], ◌∷◌}
use layer_mount.Base.{ok, failed, if◌then◌else◌, drop, drop_last}
use layer_mount.Layer.Source.{LayerSource, UpperHiding}
use layer_mount.Layer.Disk.{Disk, LayerConfig, Attributes, WString, RelPath}
use layer_mount.Layer.Walk.{has_link_under_higher_layer_entry}
use layer_mount.Layer.Markers.{has_whiteout, has_whited_out_ancestor, LowerVisibility, lowers_below}
use layer_mount.Layer.Markers.{visible, hidden_by_opaque_marker, hidden_by_non_directory_or_link}

-- The absolute path is the root of a layer and the path below it, or `none` for the empty text.
-- The lower index is `none` for -1.
pub record ResolvedPath : Type 0 where
  pub absolute_path : Option (WString × RelPath)
  pub source : LayerSource
  pub lower_index : Option ℕ
  pub is_whiteout : Bool
  pub attributes : Option Attributes

abbrev pub nothing : ResolvedPath
nothing = record {
  absolute_path = none;
  source = LayerSource.none;
  lower_index = none;
  is_whiteout = false;
  attributes = none;
}

abbrev is_layer : LayerSource → Bool
is_layer LayerSource.none = false
is_layer LayerSource.upper = true
is_layer LayerSource.lower = true

abbrev has_path : Option (WString × RelPath) → Bool
has_path none = false
has_path (some p) = true

unfoldable pub found : ResolvedPath → Bool
found r = has_path r.absolute_path && is_layer r.source

abbrev pub lower_hit : WString → ℕ → RelPath → Attributes → ResolvedPath
lower_hit layer i path attrs = record {
  absolute_path = some (layer, path);
  source = LayerSource.lower;
  lower_index = some i;
  is_whiteout = false;
  attributes = some attrs;
}

abbrev pub is_visible : LowerVisibility → Bool
is_visible visible = true
is_visible hidden_by_opaque_marker = false
is_visible hidden_by_non_directory_or_link = false

module _ (disk : Disk) (config : LayerConfig) where
  -- The loop over the lowers that are left, from the index of the first of them.
  unfoldable pub find_from : RelPath → ℕ → List WString → ResolvedPath
  find_from path i [] = nothing
  find_from path i (layer ∷ layers) =
      let deeper = find_from path (suc i) layers in
      let parent = drop_last path in
      if has_whiteout disk layer path
      then nothing
      else if has_whited_out_ancestor disk layer path
      then nothing
      else if has_link_under_higher_layer_entry disk config layer i parent
      then nothing
      else elim (disk.attributes layer path) [
        | ok attrs ↦ lower_hit layer i path attrs
        | failed error ↦ if is_visible (lowers_below disk layer parent) then deeper else nothing
      ]

  unfoldable pub find_in_lowers : RelPath → ℕ → ResolvedPath
  unfolding find_from
  find_in_lowers path first_lower = find_from path first_lower (drop first_lower config.lower_paths)

  abbrev hiding_of : LowerVisibility → UpperHiding
  hiding_of hidden_by_opaque_marker = UpperHiding.opaque_marker
  hiding_of hidden_by_non_directory_or_link = UpperHiding.non_directory_or_link
  hiding_of visible = UpperHiding.none

  unfoldable pub upper_ancestor_hiding : RelPath → UpperHiding
  upper_ancestor_hiding path =
      if has_whited_out_ancestor disk config.upper_path path
      then UpperHiding.whiteout
      else hiding_of (lowers_below disk config.upper_path (drop_last path))

  unfoldable pub hiding_in_upper : RelPath → UpperHiding
  unfolding upper_ancestor_hiding
  hiding_in_upper path =
      if has_whiteout disk config.upper_path path
      then UpperHiding.whiteout
      else upper_ancestor_hiding path

  abbrev pub upper_hit : RelPath → Attributes → ResolvedPath
  upper_hit path attrs = record {
    absolute_path = some (config.upper_path, path);
    source = LayerSource.upper;
    lower_index = none;
    is_whiteout = false;
    attributes = some attrs;
  }

  abbrev pub whiteout_hit : ResolvedPath
  whiteout_hit = record nothing { is_whiteout = true }

  -- What a path shows that the upper does not hold.
  unfoldable pub below_upper : RelPath → UpperHiding → ResolvedPath
  below_upper path UpperHiding.whiteout = whiteout_hit
  below_upper path UpperHiding.opaque_marker = nothing
  below_upper path UpperHiding.non_directory_or_link = nothing
  below_upper path UpperHiding.none = find_in_lowers path 0

  -- What a path shows where the upper entry has no redirect and nothing is cached.
  unfoldable pub look_up : RelPath → ResolvedPath
  unfolding below_upper
  look_up path = elim (disk.attributes config.upper_path path) [
    | ok attrs ↦ upper_hit path attrs
    | failed error ↦ below_upper path (hiding_in_upper path)
  ]
