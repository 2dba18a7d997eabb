-- ===== src/Resolver/Conflict.antt =====
-- What HasTypeConflict reports.
use layer_mount.Base.{
  ◌≡◌, refl, Bool, true, false, ◌&&◌, ◌||◌, not, List, [], ◌∷◌, arith, ok, failed,
}
use layer_mount.Layer.Disk.{Disk, LayerConfig, Attributes, WString, RelPath}
use layer_mount.Resolver.{
  found_attributes_of, any_other_type, types_differ, has_type_conflict, same_type,
}

module _ (disk : Disk) where
  -- Whether some layer holds an entry at the path that is a directory or not, as given.
  unfoldable pub any_layer_holds_type : Bool → RelPath → List WString → Bool
  any_layer_holds_type directory path [] = false
  any_layer_holds_type directory path (layer ∷ layers) =
      let others = any_layer_holds_type directory path layers in
      elim (disk.attributes layer path) [
        | ok attrs ↦ same_type attrs.directory directory || others
        | failed error ↦ others
      ]

  abbrev any_of_type : Bool → List Attributes → Bool
  any_of_type directory [] = false
  any_of_type directory (attrs ∷ rest) =
      same_type attrs.directory directory || any_of_type directory rest

  any_of_type-found :
      (directory : Bool) (path : RelPath) (layers : List WString)
      → any_of_type directory (found_attributes_of disk path layers)
        ≡ any_layer_holds_type directory path layers
  unfolding found_attributes_of any_layer_holds_type
  any_of_type-found directory path [] = refl
  any_of_type-found directory path (layer ∷ layers) =
      ground (arith, any_of_type-found directory path layers)

  any_other_type-of :
      (directory : Bool) (l : List Attributes)
      → any_other_type disk directory l ≡ any_of_type (not directory) l
  unfolding any_other_type
  any_other_type-of directory [] = refl
  any_other_type-of directory (attrs ∷ rest) = ground (arith, any_other_type-of directory rest)

  types_differ-both :
      (l : List Attributes) → types_differ disk l ≡ (any_of_type true l && any_of_type false l)
  unfolding types_differ any_other_type
  types_differ-both [] = refl
  types_differ-both (first ∷ []) = ground arith
  types_differ-both (first ∷ second ∷ rest) = ground (arith, any_other_type-of first.directory rest)

  -- A path has a type conflict exactly when one of the layers, the upper or a lower, holds a
  -- directory at the path and another holds an entry there that is not a directory.
  pub has_type_conflict-both :
      (config : LayerConfig) (path : RelPath)
      → has_type_conflict disk config path ≡ (
          any_layer_holds_type true path (config.upper_path ∷ config.lower_paths)
          && any_layer_holds_type false path (config.upper_path ∷ config.lower_paths))
  unfolding has_type_conflict
  has_type_conflict-both config path = ground (
    arith,
    types_differ-both (found_attributes_of disk path (config.upper_path ∷ config.lower_paths)),
    any_of_type-found true path (config.upper_path ∷ config.lower_paths),
    any_of_type-found false path (config.upper_path ∷ config.lower_paths),
  )
