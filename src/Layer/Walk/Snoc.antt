-- ===== src/Layer/Walk/Snoc.antt =====
-- How a walk, and a search for a marker up to the root, go on by one component.
use layer_mount.Base.{◌≡◌, refl, Bool, true, false, ◌||◌, ◌&&◌, not, [], ◌∷◌, ◌++◌}
use layer_mount.Base.{append_assoc, arith}
use layer_mount.Base.{if◌then◌else◌}
use layer_mount.Layer.Disk.{Disk, ComponentKind, WString, RelPath, component_kind_in_layer}
use layer_mount.Layer.Walk.{LayerWalk, no_stop, walk_from, walk_stop_at, stops}
use layer_mount.Layer.Walk.{walk_to_first_non_directory}

module _ (disk : Disk) (layer : WString) where
  misses_from : RelPath → RelPath → Bool
  misses_from walked [] = false
  misses_from walked (component ∷ rest) =
      let next = walked ++ component ∷ [] in
      elim (component_kind_in_layer disk layer next) [
        | ComponentKind.missing ↦ true
        | ComponentKind.directory ↦ misses_from next rest
        | _ ↦ false
      ]

  -- Whether the walk of the path ends at a component that does not exist.
  unfoldable pub walk_misses : RelPath → Bool
  unfolding misses_from
  walk_misses path = misses_from [] path

  -- What the walk makes of one more component, under plain directories.
  abbrev pub walk_at : RelPath → LayerWalk
  walk_at path = elim (component_kind_in_layer disk layer path) [
    | ComponentKind.missing ↦ no_stop
    | ComponentKind.directory ↦ no_stop
    | kind ↦ record { stop = walk_stop_at kind; component = path }
  ]

  abbrev is_missing : RelPath → Bool
  is_missing path = elim (component_kind_in_layer disk layer path) [
    | ComponentKind.missing ↦ true
    | _ ↦ false
  ]

  walk_from-snoc :
      (walked rest : RelPath) (c : WString)
      → walk_from disk layer walked (rest ++ c ∷ []) ≡ (
          if misses_from walked rest
          then no_stop
          else if stops (walk_from disk layer walked rest).stop
          then walk_from disk layer walked rest
          else walk_at (walked ++ (rest ++ c ∷ [])))
  unfolding walk_from misses_from walk_stop_at
  walk_from-snoc walked [] c = ground arith
  walk_from-snoc walked (x ∷ rest) c =
      let ih = walk_from-snoc (walked ++ x ∷ []) rest c in
      let e = append_assoc walked (x ∷ []) (rest ++ c ∷ []) in ground (arith, e, ih)

  misses_from-snoc :
      (walked rest : RelPath) (c : WString)
      → misses_from walked (rest ++ c ∷ []) ≡ (
          misses_from walked rest
          || (not (stops (walk_from disk layer walked rest).stop)
              && is_missing (walked ++ (rest ++ c ∷ []))))
  unfolding walk_from misses_from
  misses_from-snoc walked [] c = ground arith
  misses_from-snoc walked (x ∷ rest) c =
      let ih = misses_from-snoc (walked ++ x ∷ []) rest c in
      let e = append_assoc walked (x ∷ []) (rest ++ c ∷ []) in ground (arith, e, ih)

  -- A walk that has passed plain directories only takes one more component; any other walk stays.
  pub walk-snoc :
      (path : RelPath) (c : WString)
      → walk_to_first_non_directory disk layer (path ++ c ∷ []) ≡ (
          if walk_misses path
          then no_stop
          else if stops (walk_to_first_non_directory disk layer path).stop
          then walk_to_first_non_directory disk layer path
          else walk_at (path ++ c ∷ []))
  unfolding walk_to_first_non_directory walk_misses
  walk-snoc path c = walk_from-snoc [] path c

  pub walk_misses-snoc :
      (path : RelPath) (c : WString)
      → walk_misses (path ++ c ∷ []) ≡ (
          walk_misses path
          || (not (stops (walk_to_first_non_directory disk layer path).stop)
              && is_missing (path ++ c ∷ [])))
  unfolding walk_to_first_non_directory walk_misses
  walk_misses-snoc path c = misses_from-snoc [] path c

  -- A walk that ends at a missing component meets no file, link or unreadable entry.
  pub walk_misses-no_stop :
      (path : RelPath)
      → walk_misses path ≡ true
      → walk_to_first_non_directory disk layer path ≡ no_stop
  unfolding walk_to_first_non_directory walk_misses walk_from misses_from
  walk_misses-no_stop path = from [] path
    where
      from :
          (walked rest : RelPath)
          → misses_from walked rest ≡ true
          → walk_from disk layer walked rest ≡ no_stop
      from walked [] h = refl
      from walked (x ∷ rest) h = ground (arith, from (walked ++ x ∷ []) rest)
