-- ===== src/Resolver/Tests.antt =====
-- A resolver over the flat layers whose upper entry `b` redirects to `c`, with `c` in its cache.
use layer_mount.Base.{◌≡◌, refl, Option, none, some, [], ◌∷◌, codes, arith}
use layer_mount.Base.{◌==◌, eq_nat, eq_list, if◌then◌else◌}
use layer_mount.Base.{ok}
use layer_mount.Layer.Disk.{Disk, RelPath, WString}
use layer_mount.Resolver.Through.{ReparseLink, relative_symlink}
use layer_mount.Layer.Markers.{has_whiteout}
use layer_mount.Layer.Lookup.{ResolvedPath, look_up}
use layer_mount.Layer.Tests.{ascii, flat, config, upper}
use layer_mount.Layer.View.{all_safe, is_reserved_overlay_path}
use layer_mount.Layer.Names.{is_whiteout_name}
use layer_mount.Layer.Consistency.Scans.{listed}
use layer_mount.Cache.{Cache, CacheEntry, find}
use layer_mount.Cache.Contents.{Holds-cons}
use layer_mount.Base.{◌&&◌, true, false}
use layer_mount.Resolver.Conflict.{any_layer_holds_type, has_type_conflict-both}
use layer_mount.Resolver.{
  has_type_conflict, resolve_path, resolve_for_create, resolve_lower_path, is_resolvable_path,
}
use layer_mount.Resolver.Caching.{IsCoherent, IsCurrent, redirect_in_upper, resolve_uncached}
use layer_mount.Resolver.Transparency.{resolve_path-resolve_uncached, resolve_for_create_lem}

abbrev path_b : RelPath
path_b = codes "b" ∷ []

abbrev path_c : RelPath
path_c = codes "c" ∷ []

abbrev redirect : RelPath → Option RelPath
redirect path = if path == path_b then some path_c else none

abbrev shown_c : CacheEntry ResolvedPath
unfolding look_up
shown_c = record { resolved = look_up flat config path_c; last_access_ticks = 4 }

abbrev cached : Cache ResolvedPath
cached = record { entries = (path_c, shown_c) ∷ []; max_capacity = 8; hits = 0; misses = 1 }

cached-IsCoherent : IsCoherent ascii flat config redirect cached
unfolding find shown_c is_resolvable_path all_safe is_reserved_overlay_path is_whiteout_name
    redirect_in_upper listed
cached-IsCoherent =
    Holds-cons (IsCurrent ascii flat config redirect) path_c shown_c [] (refl, refl, refl, refl)
      (λ k e at. absurd (ground arith))

resolve_path-resolve_uncached_example :
    ((resolve_path ascii flat config redirect 9 path_b cached).result
      ≡ resolve_uncached ascii flat config redirect 41 path_b)
    × IsCoherent ascii flat config redirect
        (resolve_path ascii flat config redirect 9 path_b cached).cache
resolve_path-resolve_uncached_example =
    resolve_path-resolve_uncached ascii flat config redirect 9 path_b cached cached-IsCoherent

resolve_for_create_lem_example :
    ((resolve_for_create ascii flat config redirect 9 path_c cached).0.overlay_hit
      ≡ resolve_uncached ascii flat config redirect 41 path_c)
    × ((resolve_for_create ascii flat config redirect 9 path_c cached).0.whiteout_at_path
        ≡ has_whiteout flat upper path_c)
    × ((resolve_for_create ascii flat config redirect 9 path_c cached).0.lower
        ≡ resolve_lower_path ascii flat config path_c)
    × IsCoherent ascii flat config redirect
        (resolve_for_create ascii flat config redirect 9 path_c cached).1
resolve_for_create_lem_example =
    resolve_for_create_lem ascii flat config redirect 9 path_c cached cached-IsCoherent

has_type_conflict-both_example : has_type_conflict flat config path_b ≡ (
    any_layer_holds_type flat true path_b (config.upper_path ∷ config.lower_paths)
    && any_layer_holds_type flat false path_b (config.upper_path ∷ config.lower_paths))
has_type_conflict-both_example = has_type_conflict-both flat config path_b

-- The upper's `b` as a symbolic link to `c`.
abbrev linked : Disk
linked = record flat {
  attributes = λ layer path.
      if layer == upper && path == path_b
      then ok (record { directory = false; reparse_point = true })
      else flat.attributes layer path;
}

abbrev links : Option (WString × RelPath) → ReparseLink
links place = relative_symlink (codes "./c")

abbrev empty_cache : Cache ResolvedPath
empty_cache = record { entries = []; max_capacity = 8; hits = 0; misses = 0 }
