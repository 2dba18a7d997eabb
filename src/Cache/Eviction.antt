-- ===== src/Cache/Eviction.antt =====
-- The bound of the path cache and what it forgets to keep it: `Put` with `EvictLRU`.
use layer_mount.Base.{ℕ, suc, ◌≤◌, ◌<◌, ◌≡◌, refl, true, false, ◌||◌, none, some}
use layer_mount.Base.{List, [], ◌∷◌, ◌==◌, eq_nat, eq_list, length, ltb, leb, arith}
use layer_mount.Base.{Bool-cases, inl, inr, ==_eq, ==_refl, ==_false_sym, ◌⊎◌, ltb→lt}
use layer_mount.Layer.Disk.{RelPath}
use layer_mount.Cache.{Cache, CacheEntry, find, erase_if, oldest_key, evict_lru, put}
use layer_mount.Cache.Laws.{find-erase_if, IsUnique, IsUnique-erase_if, length-erase_if, All}
use layer_mount.Cache.Laws.{
  length-erase_if_found, oldest_key_lem, All-find, All-erase_if, All-before_erase_if, All-map,
}

module _ {V : Type 0} where
  -- A cache whose keys are all different and whose size is at most its capacity.
  abbrev pub IsBounded : Cache V → Type 0
  IsBounded c = IsUnique c.entries × (length c.entries ≤ c.max_capacity)

  -- The list without the entry that the eviction drops, which is one of its entries.
  pub evict_lru_lem :
      (k : RelPath) (e : CacheEntry V) (rest : List (RelPath × CacheEntry V))
      → IsUnique ((k, e) ∷ rest)
      → (victim : RelPath) × (gone : CacheEntry V) × (evict_lru ((k, e) ∷ rest)
          ≡ erase_if (λ j. j == victim) ((k, e) ∷ rest))
        × (find victim ((k, e) ∷ rest) ≡ some gone)
        × All (λ j d. gone.last_access_ticks ≤ d.last_access_ticks) ((k, e) ∷ rest)
  unfolding evict_lru
  evict_lru_lem k e rest u =
      let all = All-find ((k, e) ∷ rest) u in
      let (gone, at, le, least) = oldest_key_lem ((k, e) ∷ rest) k e ((k, e) ∷ rest) all.0 all in
      (oldest_key k e ((k, e) ∷ rest), gone, refl, at, least)

  pub IsUnique-put_first :
      (key : RelPath) (e : CacheEntry V) (l : List (RelPath × CacheEntry V))
      → IsUnique l
      → IsUnique ((key, e) ∷ erase_if (λ k. k == key) l)
  IsUnique-put_first key e l u = (
    ground (arith, find-erase_if (λ k. k == key) key l, ==_refl key),
    IsUnique-erase_if (λ k. k == key) l u,
  )

  -- The size of the list that `put` stores in before it evicts.
  pub length-put_first :
      (key : RelPath) (e : CacheEntry V) (c : Cache V)
      → IsBounded c
      → length ((key, e) ∷ erase_if (λ k. k == key) c.entries) ≤ suc c.max_capacity
  length-put_first key e c (u, bound) = omega (arith, length-erase_if (λ k. k == key) c.entries)

  -- Storing a result keeps the keys of a cache different and its size within the capacity, also
  -- when the key is new and the cache is full.
  pub put-IsBounded :
      (now : ℕ) (key : RelPath) (v : V) (c : Cache V) → IsBounded c → IsBounded (put now key v c)
  unfolding put
  put-IsBounded now key v c (u, bound) =
      let entry : CacheEntry V = record { resolved = v; last_access_ticks = now } in
      let others = erase_if (λ k. k == key) c.entries in
      let unique = IsUnique-put_first key entry c.entries u in
      let short = length-put_first key entry c (u, bound) in
      elim (Bool-cases (ltb c.max_capacity (length ((key, entry) ∷ others)))) [
        | inl full ↦
            let (victim, gone, evicts, at, least) = evict_lru_lem key entry others unique in
            let less =
              length-erase_if_found (λ j. j == victim) victim gone ((key, entry) ∷ others)
                (==_refl victim) at in
            rw (full, evicts)
              (IsUnique-erase_if (λ j. j == victim) ((key, entry) ∷ others) unique, omega arith)
        | inr room ↦ rw room (unique, ground arith)
      ]

  -- The least recent of entries that are older than `now` is older too.
  pub least_before :
      (now : ℕ) (gone : CacheEntry V) (l : List (RelPath × CacheEntry V))
      → 1 ≤ length l
      → All (λ k e. e.last_access_ticks < now) l
      → All (λ k e. gone.last_access_ticks ≤ e.last_access_ticks) l
      → gone.last_access_ticks < now
  least_before now gone [] h older least = absurd (omega arith)
  least_before now gone ((k, e) ∷ rest) h older least = omega (arith, older.0, least.0)

  -- In a cache whose entries were all used before `now` and whose capacity is not zero, the
  -- entry that was just stored is one that a lookup finds.
  pub find-put :
      (now : ℕ) (key : RelPath) (v : V) (c : Cache V)
      → IsUnique c.entries
      → All (λ k e. e.last_access_ticks < now) c.entries
      → 1 ≤ c.max_capacity
      → find key (put now key v c).entries ≡ some (record { resolved = v; last_access_ticks = now })
  unfolding put find
  find-put now key v c u older capacity =
      let entry : CacheEntry V = record { resolved = v; last_access_ticks = now } in
      let others = erase_if (λ k. k == key) c.entries in
      let unique = IsUnique-put_first key entry c.entries u in
      let before =
        All-erase_if (λ k e. e.last_access_ticks < now) (λ k. k == key) c.entries older in
      elim (Bool-cases (ltb c.max_capacity (length ((key, entry) ∷ others)))) [
        | inl full ↦
            let (victim, gone, evicts, at, least) = evict_lru_lem key entry others unique in
            let old = least_before now gone others (ground arith) before least.1 in
            rw (full, evicts, find-erase_if (λ j. j == victim) key ((key, entry) ∷ others))
              (ground (arith, old, at, ==_refl key, ==_eq key victim))
        | inr room ↦ rw (room, ==_refl key) refl
      ]

  pub find-put_first :
      (key k : RelPath) (e : CacheEntry V) (l : List (RelPath × CacheEntry V))
      → (k == key) ≡ false
      → find k ((key, e) ∷ erase_if (λ j. j == key) l) ≡ find k l
  unfolding find
  find-put_first key k e l other =
      rw (==_false_sym k key other, find-erase_if (λ j. j == key) k l, other) refl

  All-or :
      (gone : CacheEntry V) (key : RelPath) (l : List (RelPath × CacheEntry V))
      → All (λ j d. gone.last_access_ticks ≤ d.last_access_ticks) (erase_if (λ j. j == key) l)
      → All (λ j d. (j == key || leb gone.last_access_ticks d.last_access_ticks) ≡ true) l
  All-or gone key l least =
      All-map (λ j d. (j == key) ≡ false → gone.last_access_ticks ≤ d.last_access_ticks)
        (λ j d. (j == key || leb gone.last_access_ticks d.last_access_ticks) ≡ true)
        (λ j d step. elim (Bool-cases (j == key)) [
          | inl same ↦ ground (arith, same)
          | inr other ↦ ground (arith, other, step other)
        ])
        l
        (All-before_erase_if (λ j d. gone.last_access_ticks ≤ d.last_access_ticks) (λ j. j == key) l
          least)

  -- What a lookup finds for another key after a result is stored: what it found before, except
  -- that, when the stored entry and the entries of all other keys are more than the capacity, one
  -- entry is gone, and none of the entries that were there with it is less recent.
  pub find-put_other :
      (now : ℕ) (key : RelPath) (v : V) (c : Cache V) (k : RelPath)
      → IsUnique c.entries
      → (k == key) ≡ false
      → (find k (put now key v c).entries ≡ find k c.entries)
        ⊎ (c.max_capacity < suc (length (erase_if (λ j. j == key) c.entries)))
          × (find k (put now key v c).entries ≡ none)
          × ((e : CacheEntry V) × (find k c.entries ≡ some e)
              × All
                  (λ j d. (j == key || leb e.last_access_ticks d.last_access_ticks) ≡ true)
                  c.entries)
  unfolding put find
  find-put_other now key v c k u other =
      let entry : CacheEntry V = record { resolved = v; last_access_ticks = now } in
      let others = erase_if (λ k. k == key) c.entries in
      let unique = IsUnique-put_first key entry c.entries u in
      elim (Bool-cases (ltb c.max_capacity (length ((key, entry) ∷ others)))) [
        | inl full ↦
            let (victim, gone, evicts, at, least) = evict_lru_lem key entry others unique in
            elim (Bool-cases (k == victim)) [
              | inl same ↦ inr (
                ltb→lt _ _ full,
                rw (full, evicts, find-erase_if (λ j. j == victim) k ((key, entry) ∷ others), same)
                    refl,
                (
                  gone,
                  ground
                      (arith, at, ==_eq k victim same, find-put_first key k entry c.entries other),
                  All-or gone key c.entries least.1,
                ),
              )
              | inr kept ↦ inl (
                  rw
                    (full, evicts, find-erase_if (λ j. j == victim) k ((key, entry) ∷ others), kept)
                    (find-put_first key k entry c.entries other))
            ]
        | inr room ↦ inl (rw room (find-put_first key k entry c.entries other))
      ]
