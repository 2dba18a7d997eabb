-- ===== src/Cache/Contents.antt =====
-- What is true of every cached value stays true under the operations of the path cache.
use layer_mount.Base.{ℕ, ◌≡◌, refl, sym, Bool, Option, none, some}
use layer_mount.Base.{List, [], ◌∷◌, ◌==◌, eq_nat, eq_list, length, ltb, arith}
use layer_mount.Base.{Bool-cases, inl, inr, ==_eq, subst}
use layer_mount.Layer.Disk.{RelPath}
use layer_mount.Cache.{
  Cache, CacheEntry, find, erase_if, touch, get, read, oldest_key, evict_lru, put,
}
use layer_mount.Cache.Laws.{find-erase_if}

module _ {V : Type 0} where
  pub find-touch :
      (key : RelPath) (now : ℕ) (l : List (RelPath × CacheEntry V))
      → ((k : RelPath) (e : CacheEntry V)
          → find k (touch key now l) ≡ some e
          → (d : CacheEntry V) × (find k l ≡ some d) × (d.resolved ≡ e.resolved))
  unfolding find touch
  find-touch key now [] k e at = absurd (ground arith)
  find-touch key now ((j, d) ∷ rest) k e at = elim (Bool-cases (j == key)) [
    | inl touched ↦ elim (Bool-cases (j == k)) [
      | inl here ↦ (d, ground (arith, here), ground (arith, here, touched, at))
      | inr other ↦ (e, ground (arith, other, at, touched), refl)
    ]
    | inr untouched ↦ elim (Bool-cases (j == k)) [
      | inl here ↦ (e, ground (arith, here, at, untouched), refl)
      | inr other ↦
          let (d', below, same) =
            find-touch key now rest k e (ground (arith, at, other, untouched)) in
          (d', ground (arith, other, below), same)
    ]
  ]

module _ {V : Type 0} (P : RelPath → V → Type 0) where
  abbrev pub Holds : List (RelPath × CacheEntry V) → Type 0
  Holds l = (k : RelPath) (e : CacheEntry V) → find k l ≡ some e → P k e.resolved

  pub Holds-erase_if :
      (test : RelPath → Bool) (l : List (RelPath × CacheEntry V))
      → Holds l
      → Holds (erase_if test l)
  Holds-erase_if test l holds k e at = elim (Bool-cases (test k)) [
    | inl out ↦ absurd (ground (arith, find-erase_if test k l))
    | inr kept ↦ holds k e (ground (arith, find-erase_if test k l))
  ]

  pub Holds-cons :
      (key : RelPath) (e : CacheEntry V) (l : List (RelPath × CacheEntry V))
      → P key e.resolved
      → Holds l
      → Holds ((key, e) ∷ l)
  unfolding find
  Holds-cons key e l here holds k d at = elim (Bool-cases (key == k)) [
    | inl same ↦
        let eq : d ≡ e = ground (arith, at, same) in
        subst (λ k. P k d.resolved) (==_eq key k same) (subst (λ d. P key d.resolved) (sym eq) here)
    | inr other ↦ holds k d (ground (arith, at, other))
  ]

  pub Holds-read :
      (now : ℕ) (key : RelPath) (c : Cache V) (hit : Option (CacheEntry V))
      → Holds c.entries
      → Holds (read now key c hit).1.entries
  unfolding read
  Holds-read now key c none holds k e at = holds k e at
  Holds-read now key c (some d) holds k e at =
      let (old, there, same) = find-touch key now c.entries k e at in
      subst (P k) same (holds k old there)

  pub Holds-get :
      (now : ℕ) (key : RelPath) (c : Cache V) → Holds c.entries → Holds (get now key c).1.entries
  unfolding get
  Holds-get now key c = Holds-read now key c (find key c.entries)

  pub Holds-evict_lru : (l : List (RelPath × CacheEntry V)) → Holds l → Holds (evict_lru l)
  unfolding evict_lru
  Holds-evict_lru [] holds = holds
  Holds-evict_lru ((k, e) ∷ rest) holds =
      Holds-erase_if (λ j. j == oldest_key k e ((k, e) ∷ rest)) ((k, e) ∷ rest) holds

  pub Holds-put :
      (now : ℕ) (key : RelPath) (v : V) (c : Cache V)
      → P key v
      → Holds c.entries
      → Holds (put now key v c).entries
  unfolding put
  Holds-put now key v c here holds =
      let entry : CacheEntry V = record { resolved = v; last_access_ticks = now } in
      let others = erase_if (λ k. k == key) c.entries in
      let stored =
        Holds-cons key entry others here (Holds-erase_if (λ k. k == key) c.entries holds) in
      elim (Bool-cases (ltb c.max_capacity (length ((key, entry) ∷ others)))) [
        | inl full ↦ rw full (Holds-evict_lru ((key, entry) ∷ others) stored)
        | inr room ↦ rw room stored
      ]
