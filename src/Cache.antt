-- ===== src/Cache.antt =====
-- The path cache (src/LayerMount.dll/impl/Cache.cpp), over any cached value. A key is a normalized
-- path by its components. The map is an association list, whose order is the order in which the
-- eviction visits the entries.
mod Tests
pub mod Laws
pub mod Eviction
pub mod Contents
pub mod Invalidation
use layer_mount.Base.{ℕ, suc, ◌+◌, Bool, true, false, ◌&&◌, ◌||◌, not, Option, none, some}
use layer_mount.Base.{
  List, [], ◌∷◌, ◌==◌, eq_nat, eq_list, if◌then◌else◌, length, ltb, drop_last, zero,
}
use layer_mount.Layer.Disk.{RelPath, WString}

abbrev pub is_root : RelPath → Bool
is_root [] = true
is_root (name ∷ rest) = false

-- Whether the second path goes on below the first.
unfoldable pub is_strict_prefix : RelPath → RelPath → Bool
is_strict_prefix dir [] = false
is_strict_prefix [] (name ∷ path) = true
is_strict_prefix (d ∷ dir) (name ∷ path) = d == name && is_strict_prefix dir path

-- No normalized text is inside the empty one, which has no separator behind it.
unfoldable pub is_inside_directory : RelPath → RelPath → Bool
unfolding is_strict_prefix
is_inside_directory path dir = not (is_root dir) && is_strict_prefix dir path

-- The parents of a path that are not the root, the nearest first.
unfoldable pub ancestors_from : ℕ → RelPath → List RelPath
ancestors_from zero path = []
ancestors_from (suc depth) path =
    let parent = drop_last path in
    let above = ancestors_from depth parent in if is_root parent then [] else parent ∷ above

unfoldable pub ancestors : RelPath → List RelPath
unfolding ancestors_from
ancestors path = ancestors_from (length path) path

unfoldable pub has_path : RelPath → List RelPath → Bool
has_path path [] = false
has_path path (p ∷ rest) = path == p || has_path path rest

pub record CacheEntry {ℓ} (V : Type ℓ) : Type ℓ where
  pub resolved : V
  pub last_access_ticks : ℕ

pub record Cache {ℓ} (V : Type ℓ) : Type ℓ where
  pub entries : List (RelPath × CacheEntry V)
  pub max_capacity : ℕ
  pub hits : ℕ
  pub misses : ℕ

abbrev pub stale : RelPath → RelPath → Bool
unfolding is_inside_directory has_path ancestors
stale key k = k == key || (is_inside_directory k key || has_path k (ancestors key))

module _ {ℓ} {V : Type ℓ} where
  unfoldable pub find : RelPath → List (RelPath × CacheEntry V) → Option (CacheEntry V)
  find key [] = none
  find key ((k, e) ∷ rest) = if k == key then some e else find key rest

  unfoldable pub erase_if :
      (RelPath → Bool) → List (RelPath × CacheEntry V) → List (RelPath × CacheEntry V)
  erase_if test [] = []
  erase_if test ((k, e) ∷ rest) =
      let kept = erase_if test rest in if test k then kept else (k, e) ∷ kept

  -- A hit stores the time of the access in its entry.
  unfoldable pub touch : RelPath → ℕ → List (RelPath × CacheEntry V) → List (RelPath × CacheEntry V)
  touch key now [] = []
  touch key now ((k, e) ∷ rest) =
      if k == key
      then (k, record e { last_access_ticks = now }) ∷ rest
      else (k, e) ∷ touch key now rest

  -- What `get` does with the entry that it finds.
  unfoldable pub read : ℕ → RelPath → Cache V → Option (CacheEntry V) → Option V × Cache V
  unfolding touch
  read now key c none = (none, record c { misses = c.misses + 1 })
  read now key c (some e) =
      (some e.resolved, record c { hits = c.hits + 1; entries = touch key now c.entries })

  unfoldable pub get : ℕ → RelPath → Cache V → Option V × Cache V
  unfolding find read
  get now key c = read now key c (find key c.entries)

  -- The loop of EvictLRU over the entries that are left: the key of the least recent so far.
  unfoldable pub oldest_key : RelPath → CacheEntry V → List (RelPath × CacheEntry V) → RelPath
  oldest_key key oldest [] = key
  oldest_key key oldest ((k, e) ∷ rest) =
      let newer = oldest_key k e rest in
      let same = oldest_key key oldest rest in
      if ltb e.last_access_ticks oldest.last_access_ticks then newer else same

  unfoldable pub evict_lru : List (RelPath × CacheEntry V) → List (RelPath × CacheEntry V)
  unfolding oldest_key erase_if
  evict_lru [] = []
  evict_lru ((k, e) ∷ rest) = erase_if (λ j. j == oldest_key k e ((k, e) ∷ rest)) ((k, e) ∷ rest)

  unfoldable pub put : ℕ → RelPath → V → Cache V → Cache V
  unfolding erase_if evict_lru
  put now key v c =
      let stored =
        (key, record { resolved = v; last_access_ticks = now })
        ∷ erase_if (λ k. k == key) c.entries in
      record c { entries = if ltb c.max_capacity (length stored) then evict_lru stored else stored }

  unfoldable pub invalidate : RelPath → Cache V → Cache V
  unfolding erase_if is_inside_directory
  invalidate key c = record c {
    entries = erase_if (λ k. is_inside_directory k key) (erase_if (λ k. k == key) c.entries);
  }

  unfoldable pub invalidate_with_ancestors : RelPath → Cache V → Cache V
  unfolding erase_if is_inside_directory has_path ancestors
  invalidate_with_ancestors key c = record c { entries = erase_if (stale key) c.entries }

  unfoldable pub clear : Cache V → Cache V
  clear c = record c { entries = [] }
