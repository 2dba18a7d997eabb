-- ===== src/Cache/Tests.antt =====
-- A cache of two results with room for two, and the properties of the cache applied to it.
use layer_mount.Base.{◌<◌, suc, ℕ, ◌≡◌, refl, true, none, some, [], ◌∷◌, codes}
use layer_mount.Base.{
  ◌==◌, eq_nat, eq_list, ◌||◌, ◌&&◌, not, if◌then◌else◌, arith, ◌⊎◌, length, leb,
}
use layer_mount.Layer.Disk.{RelPath}
use layer_mount.Cache.{
  erase_if, Cache, CacheEntry, find, put, invalidate, invalidate_with_ancestors,
}
use layer_mount.Cache.{is_root, is_strict_prefix}
use layer_mount.Cache.Laws.{All}
use layer_mount.Cache.Eviction.{IsBounded, put-IsBounded, find-put, find-put_other}
use layer_mount.Cache.Invalidation.{find-invalidate}

abbrev path_a : RelPath
path_a = codes "a" ∷ []

abbrev path_ab : RelPath
path_ab = codes "a" ∷ codes "b" ∷ []

abbrev path_c : RelPath
path_c = codes "c" ∷ []

abbrev entry : ℕ → ℕ → CacheEntry ℕ
entry value ticks = record { resolved = value; last_access_ticks = ticks }

abbrev full : Cache ℕ
full = record {
  entries = (path_a, entry 1 5) ∷ (path_ab, entry 2 6) ∷ [];
  max_capacity = 2;
  hits = 0;
  misses = 2;
}

full-IsBounded : IsBounded full
unfolding find
full-IsBounded = ((refl, (refl, tt)), omega arith)

put-IsBounded_example : IsBounded (put 9 path_c 3 full)
put-IsBounded_example = put-IsBounded 9 path_c 3 full full-IsBounded

find-put_example : find path_c (put 9 path_c 3 full).entries ≡ some (entry 3 9)
find-put_example =
    find-put 9 path_c 3 full full-IsBounded.0 (omega arith, (omega arith, tt)) (omega arith)

-- The entry of `a`, the least recent, makes room.
find-put_other_example :
    (find path_a (put 9 path_c 3 full).entries ≡ find path_a full.entries)
    ⊎ (2 < suc (length (erase_if (λ j. j == path_c) full.entries)))
      × (find path_a (put 9 path_c 3 full).entries ≡ none)
      × ((e : CacheEntry ℕ) × (find path_a full.entries ≡ some e)
          × All
              (λ j d. (j == path_c || leb e.last_access_ticks d.last_access_ticks) ≡ true)
              full.entries)
find-put_other_example = find-put_other 9 path_c 3 full path_a full-IsBounded.0 refl

find-invalidate_example :
    (find path_ab (invalidate path_a full).entries ≡ (
      if path_ab == path_a || (not (is_root path_a) && is_strict_prefix path_a path_ab)
      then none
      else find path_ab full.entries))
    × (find path_ab (invalidate_with_ancestors path_a full).entries ≡ (
        if path_ab == path_a
          || ((not (is_root path_a) && is_strict_prefix path_a path_ab)
              || (not (is_root path_ab) && is_strict_prefix path_ab path_a))
        then none
        else find path_ab full.entries))
find-invalidate_example = find-invalidate path_a path_ab full
