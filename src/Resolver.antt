-- ===== src/Resolver.antt =====
-- The path resolver with its cache and its redirects (src/LayerMount.dll/impl/PathResolver.cpp).
-- A call's cache comes back with its result. `redirect` gives the normalized redirect in the
-- metadata of an upper entry, or nothing where the metadata holds none.
mod Tests
pub mod Caching
pub mod Transparency
pub mod Conflict
pub mod Through
use layer_mount.Base.{
  ℕ, suc, zero, Bool, true, false, ◌&&◌, ◌||◌, not, Option, none, some, List, [], ◌∷◌,
}
use layer_mount.Base.{Outcome, ok, failed, if◌then◌else◌}
use layer_mount.Cache.{Cache, get, put}
use layer_mount.Layer.Source.{LayerSource, UpperHiding}
use layer_mount.Layer.Disk.{Disk, LayerConfig, Attributes, WString, RelPath}
use layer_mount.Layer.Markers.{has_whiteout}
use layer_mount.Layer.Names.{TextService}
use layer_mount.Layer.View.{all_safe, is_reserved_overlay_path}
use layer_mount.Layer.Lookup.{ResolvedPath, nothing, found, upper_hit, whiteout_hit, look_up}
use layer_mount.Layer.Lookup.{find_in_lowers, hiding_in_upper, upper_ancestor_hiding}

-- What a resolution gives: the result, the cache after it, and what it wrote through `lowerWalk`.
pub record Resolution : Type 0 where
  pub result : ResolvedPath
  pub cache : Cache ResolvedPath
  pub lower_walk : Option ResolvedPath

pub record CreateResolution : Type 0 where
  pub overlay_hit : ResolvedPath
  pub whiteout_at_path : Bool
  pub lower : ResolvedPath

abbrev pub max_redirect_depth : ℕ
max_redirect_depth = 40

abbrev pub same_type : Bool → Bool → Bool
same_type true other = other
same_type false other = not other

abbrev pub is_none : UpperHiding → Bool
is_none UpperHiding.none = true
is_none UpperHiding.whiteout = false
is_none UpperHiding.opaque_marker = false
is_none UpperHiding.non_directory_or_link = false

module _ (text : TextService) (disk : Disk) (config : LayerConfig) where
  unfoldable pub is_resolvable_path : RelPath → Bool
  is_resolvable_path path = all_safe path && not (is_reserved_overlay_path text disk config path)

  unfoldable pub resolve_lower_path : RelPath → ResolvedPath
  unfolding is_resolvable_path
  resolve_lower_path [] = nothing
  resolve_lower_path (name ∷ path) =
      if is_resolvable_path (name ∷ path)
        && is_none (upper_ancestor_hiding disk config (name ∷ path))
      then find_in_lowers disk config (name ∷ path) 0
      else nothing

  abbrev attributes_of : Outcome Attributes → Option Attributes
  attributes_of (ok attrs) = some attrs
  attributes_of (failed error) = none

  unfoldable pub resolve_root : ResolvedPath
  resolve_root = record {
    absolute_path = some (config.upper_path, []);
    source = LayerSource.upper;
    lower_index = none;
    is_whiteout = false;
    attributes = attributes_of (disk.attributes config.upper_path []);
  }

  module _ (redirect : RelPath → Option RelPath) (now : ℕ) where
    -- The walk of the lowers, for a path that the upper neither holds nor hides.
    unfoldable pub resolve_in_lowers : RelPath → Cache ResolvedPath → Resolution
    resolve_in_lowers path cache =
        let lower_result = find_in_lowers disk config path 0 in
        record {
          result = if found lower_result then lower_result else nothing;
          cache = if found lower_result then put now path lower_result cache else cache;
          lower_walk = some lower_result;
        }

    -- What follows when the upper does not hold the path.
    unfoldable pub resolve_below_upper : RelPath → Cache ResolvedPath → UpperHiding → Resolution
    unfolding resolve_in_lowers
    resolve_below_upper path cache UpperHiding.whiteout = record {
      result = whiteout_hit disk config;
      cache = put now path (whiteout_hit disk config) cache;
      lower_walk = none;
    }
    resolve_below_upper path cache UpperHiding.non_directory_or_link = record {
      result = nothing;
      cache = put now path nothing cache;
      lower_walk = some nothing;
    }
    resolve_below_upper path cache UpperHiding.opaque_marker = record {
      result = nothing;
      cache = put now path nothing cache;
      lower_walk = some nothing;
    }
    resolve_below_upper path cache UpperHiding.none = resolve_in_lowers path cache

    -- The upper's entry. `follow` resolves the target of a redirect.
    unfoldable pub resolve_upper_entry :
        (RelPath → Cache ResolvedPath → Resolution)
        → RelPath
        → Cache ResolvedPath
        → Attributes
        → Option RelPath
        → Resolution
    resolve_upper_entry follow path cache attrs (some target) =
        let followed = follow target cache in
        record { result = followed.result; cache = followed.cache; lower_walk = none }
    resolve_upper_entry follow path cache attrs none = record {
      result = upper_hit disk config path attrs;
      cache = put now path (upper_hit disk config path attrs) cache;
      lower_walk = none;
    }

    -- What follows the upper's probe of the path.
    unfoldable pub resolve_probed :
        (RelPath → Cache ResolvedPath → Resolution)
        → RelPath
        → Cache ResolvedPath
        → Outcome Attributes
        → Resolution
    unfolding resolve_upper_entry resolve_below_upper
    resolve_probed follow path cache (ok attrs) =
        resolve_upper_entry follow path cache attrs (redirect path)
    resolve_probed follow path cache (failed error) =
        resolve_below_upper path cache (hiding_in_upper disk config path)

    -- What follows the read of the cache.
    unfoldable pub resolve_read :
        (RelPath → Cache ResolvedPath → Resolution)
        → RelPath
        → Option ResolvedPath × Cache ResolvedPath
        → Resolution
    unfolding resolve_probed
    resolve_read follow path (some resolved, cache) = record {
      result = resolved;
      cache = cache;
      lower_walk = none;
    }
    resolve_read follow path (none, cache) =
        resolve_probed follow path cache (disk.attributes config.upper_path path)

    -- `depth_left` counts the redirects that may still be followed, and one more.
    unfoldable pub resolve_path_internal : ℕ → RelPath → Cache ResolvedPath → Resolution
    unfolding is_resolvable_path resolve_root resolve_read
    resolve_path_internal zero path cache = record {
      result = nothing;
      cache = cache;
      lower_walk = none;
    }
    resolve_path_internal (suc depth_left) [] cache = record {
      result = resolve_root;
      cache = cache;
      lower_walk = none;
    }
    resolve_path_internal (suc depth_left) (name ∷ rest) cache =
        let resolved =
          resolve_read (resolve_path_internal depth_left) (name ∷ rest)
            (get now (name ∷ rest) cache) in
        if is_resolvable_path (name ∷ rest)
        then resolved
        else record { result = nothing; cache = cache; lower_walk = none }

    unfoldable pub resolve_path : RelPath → Cache ResolvedPath → Resolution
    unfolding resolve_path_internal
    resolve_path = resolve_path_internal (suc max_redirect_depth)

    abbrev pub lower_of : RelPath → Option ResolvedPath → ResolvedPath
    unfolding resolve_lower_path
    lower_of path (some walked) = walked
    lower_of path none = resolve_lower_path path

    unfoldable pub resolve_for_create :
        RelPath → Cache ResolvedPath → CreateResolution × Cache ResolvedPath
    unfolding resolve_path_internal resolve_lower_path
    resolve_for_create path cache =
        let resolved = resolve_path_internal (suc max_redirect_depth) path cache in
        (
          record {
            overlay_hit = resolved.result;
            whiteout_at_path = has_whiteout disk config.upper_path path;
            lower = lower_of path resolved.lower_walk;
          },
          resolved.cache,
        )

-- HasTypeConflict reads the attributes of every layer's entry at the path.
module _ (disk : Disk) where
  unfoldable pub found_attributes_of : RelPath → List WString → List Attributes
  found_attributes_of path [] = []
  found_attributes_of path (layer ∷ layers) =
      let others = found_attributes_of path layers in
      elim (disk.attributes layer path) [ ok attrs ↦ attrs ∷ others | failed error ↦ others ]

  unfoldable pub any_other_type : Bool → List Attributes → Bool
  any_other_type first_is_directory [] = false
  any_other_type first_is_directory (attrs ∷ rest) =
      not (same_type attrs.directory first_is_directory) || any_other_type first_is_directory rest

  -- Fewer than two entries are no conflict.
  abbrev pub types_differ : List Attributes → Bool
  unfolding any_other_type
  types_differ [] = false
  types_differ (first ∷ []) = false
  types_differ (first ∷ second ∷ rest) = any_other_type first.directory (second ∷ rest)

  unfoldable pub has_type_conflict : LayerConfig → RelPath → Bool
  unfolding types_differ found_attributes_of
  has_type_conflict config path =
      types_differ (found_attributes_of path (config.upper_path ∷ config.lower_paths))
