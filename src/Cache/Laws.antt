-- ===== src/Cache/Laws.antt =====
-- What the entries of the path cache hold after each operation.
use layer_mount.Base.{◌≤◌, ◌≡◌, subst, Bool, true, false, none, some}
use layer_mount.Base.{List, [], ◌∷◌, ◌==◌, eq_nat, eq_list, if◌then◌else◌, length, ltb, arith}
use layer_mount.Base.{Bool-cases, inl, inr, ==_eq, ==_refl, ◌<◌}
use layer_mount.Layer.Disk.{RelPath}
use layer_mount.Cache.{CacheEntry, find, erase_if, oldest_key}

module _ {V : Type 0} where
  pub find-erase_if :
      (test : RelPath → Bool) (key : RelPath) (l : List (RelPath × CacheEntry V))
      → find key (erase_if test l) ≡ (if test key then none else find key l)
  unfolding find erase_if
  find-erase_if test key [] = ground arith
  find-erase_if test key ((k, e) ∷ rest) = elim (Bool-cases (k == key)) [
    | inl same ↦ rw (==_eq k key same) (ground (arith, find-erase_if test key rest, ==_refl key))
    | inr other ↦ ground (arith, find-erase_if test key rest)
  ]

  -- Every entry of the list is one that the predicate allows.
  abbrev pub All : (RelPath → CacheEntry V → Type 0) → List (RelPath × CacheEntry V) → Type 0
  All P [] = Unit {0}
  All P ((k, e) ∷ rest) = P k e × All P rest

  pub All-erase_if :
      (P : RelPath → CacheEntry V → Type 0) (test : RelPath → Bool)
      (l : List (RelPath × CacheEntry V))
      → All P l
      → All P (erase_if test l)
  unfolding erase_if
  All-erase_if P test [] h = tt
  All-erase_if P test ((k, e) ∷ rest) h = elim (Bool-cases (test k)) [
    | inl out ↦ rw out (All-erase_if P test rest h.1)
    | inr kept ↦ rw kept (h.0, All-erase_if P test rest h.1)
  ]

  pub All-before_erase_if :
      (P : RelPath → CacheEntry V → Type 0) (test : RelPath → Bool)
      (l : List (RelPath × CacheEntry V))
      → All P (erase_if test l)
      → All (λ j d. test j ≡ false → P j d) l
  unfolding erase_if
  All-before_erase_if P test [] h = tt
  All-before_erase_if P test ((k, e) ∷ rest) h = elim (Bool-cases (test k)) [
    | inl out ↦ (
      λ no. absurd (ground (arith, out, no)),
      All-before_erase_if P test rest (
          subst (λ b. All P (if b then erase_if test rest else (k, e) ∷ erase_if test rest)) out h),
    )
    | inr kept ↦
        let g =
          subst (λ b. All P (if b then erase_if test rest else (k, e) ∷ erase_if test rest)) kept
            h in
        (λ no. g.0, All-before_erase_if P test rest g.1)
  ]

  -- The keys of a map are all different.
  abbrev pub IsUnique : List (RelPath × CacheEntry V) → Type 0
  IsUnique [] = Unit {0}
  IsUnique ((k, e) ∷ rest) = (find k rest ≡ none) × IsUnique rest

  pub IsUnique-erase_if :
      (test : RelPath → Bool) (l : List (RelPath × CacheEntry V))
      → IsUnique l
      → IsUnique (erase_if test l)
  unfolding erase_if
  IsUnique-erase_if test [] h = tt
  IsUnique-erase_if test ((k, e) ∷ rest) h = elim (Bool-cases (test k)) [
    | inl out ↦ rw out (IsUnique-erase_if test rest h.1)
    | inr kept ↦
        rw kept (ground (arith, find-erase_if test k rest, h.0), IsUnique-erase_if test rest h.1)
  ]

  pub length-erase_if :
      (test : RelPath → Bool) (l : List (RelPath × CacheEntry V))
      → length (erase_if test l) ≤ length l
  unfolding erase_if
  length-erase_if test [] = omega arith
  length-erase_if test ((k, e) ∷ rest) = ground (arith, length-erase_if test rest)

  -- An entry that the test matches is dropped.
  pub length-erase_if_found :
      (test : RelPath → Bool) (key : RelPath) (e : CacheEntry V) (l : List (RelPath × CacheEntry V))
      → test key ≡ true
      → find key l ≡ some e
      → length (erase_if test l) < length l
  unfolding erase_if find
  length-erase_if_found test key e [] out at = absurd (ground arith)
  length-erase_if_found test key e ((k, d) ∷ rest) out at = elim (Bool-cases (k == key)) [
    | inl same ↦ ground (arith, length-erase_if test rest, ==_eq k key same, out)
    | inr other ↦
        ground (
          arith,
          length-erase_if test rest,
          length-erase_if_found test key e rest out (ground arith),
        )
  ]

  pub All-map :
      (P Q : RelPath → CacheEntry V → Type 0)
      (step : (k : RelPath) (e : CacheEntry V) → P k e → Q k e) (l : List (RelPath × CacheEntry V))
      → All P l
      → All Q l
  All-map P Q step [] h = tt
  All-map P Q step ((k, e) ∷ rest) h = (step k e h.0, All-map P Q step rest h.1)

  pub All-find : (l : List (RelPath × CacheEntry V)) → IsUnique l → All (λ k e. find k l ≡ some e) l
  unfolding find
  All-find [] u = tt
  All-find ((k, e) ∷ rest) u = (
    ground (arith, ==_refl k),
    All-map (λ j d. find j rest ≡ some d) (λ j d. find j ((k, e) ∷ rest) ≡ some d)
        (λ j d at. elim (Bool-cases (k == j)) [
          | inl same ↦ absurd (ground (arith, ==_eq k j same, u.0))
          | inr other ↦ ground arith
        ])
        rest (All-find rest u.1),
  )

  -- The key to evict is that of an entry, and no other entry is less recent.
  pub oldest_key_lem :
      (whole : List (RelPath × CacheEntry V)) (key : RelPath) (oldest : CacheEntry V)
      (l : List (RelPath × CacheEntry V))
      → find key whole ≡ some oldest
      → All (λ k e. find k whole ≡ some e) l
      → (e : CacheEntry V) × (find (oldest_key key oldest l) whole ≡ some e)
        × (e.last_access_ticks ≤ oldest.last_access_ticks)
        × All (λ k d. e.last_access_ticks ≤ d.last_access_ticks) l
  unfolding oldest_key
  oldest_key_lem whole key oldest [] at all = (oldest, at, omega arith, tt)
  oldest_key_lem whole key oldest ((k, d) ∷ rest) at all =
      elim (Bool-cases (ltb d.last_access_ticks oldest.last_access_ticks)) [
        | inl less ↦
            let (e, here, le, below) = oldest_key_lem whole k d rest all.0 all.1 in
            (e, ground (arith, here), ground (arith, le), (le, below))
        | inr more ↦
            let (e, here, le, below) = oldest_key_lem whole key oldest rest at all.1 in
            (e, ground (arith, here), le, (ground (arith, le), below))
      ]
