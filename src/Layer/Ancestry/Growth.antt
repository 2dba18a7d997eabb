-- ===== src/Layer/Ancestry/Growth.antt =====
-- What an ancestry hides, it hides below: the step to a child clears nothing.
use layer_mount.Base.{ℕ, ◌≡◌, true, Option, [], ◌∷◌, ◌++◌, arith}
use layer_mount.Base.{snoc_induction}
use layer_mount.Layer.Disk.{Disk, LayerConfig, WString, RelPath}
use layer_mount.Layer.Walk.{walk_stop_at, stops}
use layer_mount.Layer.Ancestry.{LayerAncestry, step_layer_ancestry, layer_ancestry_of}
use layer_mount.Layer.Ancestry.Agreement.{layer_ancestry_of-snoc}

-- A link under a higher entry is where the walk stops.
abbrev pub IsStopped : LayerAncestry → Type 0
IsStopped a = a.link_under_higher_entry ≡ true → stops a.first_non_directory ≡ true

module _ (disk : Disk) (config : LayerConfig) (layer : WString) (lower_index : Option ℕ) where
  abbrev step : RelPath → LayerAncestry → LayerAncestry
  step = step_layer_ancestry disk config layer lower_index

  step-IsStopped : (path : RelPath) (a : LayerAncestry) → IsStopped a → IsStopped (step path a)
  unfolding step_layer_ancestry walk_stop_at
  step-IsStopped path a h e = ground arith

  pub layer_ancestry_of-IsStopped :
      (path : RelPath) → IsStopped (layer_ancestry_of disk config layer lower_index path)
  unfolding layer_ancestry_of
  layer_ancestry_of-IsStopped =
      snoc_induction (λ path. IsStopped (layer_ancestry_of disk config layer lower_index path))
        (λ h. cc)
        (λ path c h.
          rw (layer_ancestry_of-snoc disk config layer lower_index path c)
            (step-IsStopped (path ++ c ∷ []) _ h))

  pub step-whited_out :
      (path : RelPath) (a : LayerAncestry) → a.whited_out ≡ true → (step path a).whited_out ≡ true
  unfolding step_layer_ancestry
  step-whited_out path a h = ground arith

  pub step-opaque :
      (path : RelPath) (a : LayerAncestry) → a.opaque ≡ true → (step path a).opaque ≡ true
  unfolding step_layer_ancestry
  step-opaque path a h = ground arith

  pub step-link :
      (path : RelPath) (a : LayerAncestry)
      → IsStopped a
      → a.link_under_higher_entry ≡ true
      → (step path a).link_under_higher_entry ≡ true
  unfolding step_layer_ancestry
  step-link path a s h = ground (arith, s h)

  pub step-stops :
      (path : RelPath) (a : LayerAncestry)
      → stops a.first_non_directory ≡ true
      → stops (step path a).first_non_directory ≡ true
  unfolding step_layer_ancestry
  step-stops path a h = ground arith
