-- ===== src/Resolver/Through.antt =====
-- The view path that a path names behind the relative links in it (src/LayerMount.dll/impl/
-- PathResolver.cpp: ViewPathThroughLinks), on the components of the caller's path. The text form of
-- the result, with its stream suffix, is left out. `read_link` is the reparse read of an entry.
pub mod Plain
use layer_mount.Base.{
  ℕ, suc, zero, Bool, true, false, ◌&&◌, ◌||◌, not, Option, none, some, List, [], ◌∷◌, ◌++◌, map,
}
use layer_mount.Base.{Outcome, ok, failed, if◌then◌else◌, codes, ◌==◌, eq_nat, eq_list, length}
use layer_mount.Cache.{Cache}
use layer_mount.Layer.Disk.{Disk, LayerConfig, Attributes, WString, RelPath}
use layer_mount.Layer.Names.{TextService, case_folded_name}
use layer_mount.Layer.Lookup.{ResolvedPath, found}
use layer_mount.Resolver.{Resolution, resolve_path}
use layer_mount.Links.{splice_link_target}

pub data ReparseLink : Type 0 where
  no_link other_link : ReparseLink
  relative_symlink : WString → ReparseLink

pub data FinalLink : Type 0 where
  keep follow : FinalLink

-- The components of the view path or the status of the failure, and the cache after the walk.
pub record ViewLookup : Type 0 where
  pub view_path : Outcome (List WString)
  pub cache : Cache ResolvedPath

abbrev pub max_link_hops : ℕ
max_link_hops = 40

abbrev pub status_reparse_point_not_resolved : ℕ
status_reparse_point_not_resolved = 3221226112

abbrev pub is_directory : Option Attributes → Bool
is_directory none = true
is_directory (some attrs) = attrs.directory

abbrev pub is_reparse_point : Option Attributes → Bool
is_reparse_point none = true
is_reparse_point (some attrs) = attrs.reparse_point

abbrev pub is_kept : FinalLink → List WString → Bool
is_kept keep [] = true
is_kept keep (c ∷ rest) = false
is_kept follow rest = false

abbrev pub has_dots : List WString → Bool
has_dots [] = false
has_dots (c ∷ rest) = c == codes ".." || has_dots rest

unfoldable pub without_dot : List WString → List WString
without_dot [] = []
without_dot (c ∷ rest) = if c == codes "." then without_dot rest else c ∷ without_dot rest

module _ (text : TextService) (disk : Disk) (config : LayerConfig)
    (redirect : RelPath → Option RelPath) (now : ℕ)
    (read_link : Option (WString × RelPath) → ReparseLink) (final_link : FinalLink) where
  -- What the walk does at a shown entry. `walk_on` goes on below it, and `restart` walks again from
  -- the root.
  unfoldable pub at_entry :
      (List WString → Cache ResolvedPath → ViewLookup)
      → (Cache ResolvedPath → ViewLookup)
      → List WString
      → ℕ
      → ResolvedPath
      → Cache ResolvedPath
      → ReparseLink
      → ViewLookup
  at_entry restart walk_on components walked shown cache other_link = record {
    view_path = ok components;
    cache = cache;
  }
  at_entry restart walk_on components walked shown cache (relative_symlink target) =
      restart (splice_link_target components walked target) cache
  at_entry restart walk_on components walked shown cache no_link =
      if is_directory shown.attributes
      then walk_on cache
      else record { view_path = ok components; cache = cache }

  -- The link of a shown entry, which is read where the entry is a reparse point.
  unfoldable pub link_of : ResolvedPath → ReparseLink
  link_of shown =
      if is_reparse_point shown.attributes then read_link shown.absolute_path else no_link

  -- The walk from a component on, below the components that were walked.
  unfoldable pub walk_components :
      (List WString → Cache ResolvedPath → ViewLookup)
      → List WString
      → List WString
      → Cache ResolvedPath
      → ViewLookup
  unfolding at_entry link_of
  walk_components restart done [] cache = record { view_path = ok done; cache = cache }
  walk_components restart done (c ∷ rest) cache =
      let resolved =
        resolve_path text disk config redirect now (map (case_folded_name text) (done ++ c ∷ []))
          cache in
      let next =
        at_entry restart (walk_components restart (done ++ c ∷ []) rest) (done ++ c ∷ rest)
          (length done) resolved.result resolved.cache (link_of resolved.result) in
      if is_kept final_link rest
      then record { view_path = ok (done ++ c ∷ rest); cache = cache }
      else if not (found resolved.result)
      then record { view_path = ok (done ++ c ∷ rest); cache = resolved.cache }
      else next

  -- A walk from the root. `walks_left` counts the links that may still be followed, and one more.
  unfoldable pub walk_view : ℕ → List WString → Cache ResolvedPath → ViewLookup
  unfolding walk_components
  walk_view zero components cache = record {
    view_path = failed status_reparse_point_not_resolved;
    cache = cache;
  }
  walk_view (suc walks_left) components cache =
      walk_components (walk_view walks_left) [] components cache

  unfoldable pub view_path_through_links : List WString → Cache ResolvedPath → ViewLookup
  unfolding walk_view without_dot
  view_path_through_links components cache =
      if has_dots components
      then record { view_path = ok components; cache = cache }
      else walk_view (suc max_link_hops) (without_dot components) cache
