-- ===== src/Layer/Listing/Child.antt =====
-- A child directory merged from its parent's ancestry is the child directory merged from the root.
use layer_mount.Base.{ℕ, suc, ◌+◌, ◌≡◌, refl, true, false, some}
use layer_mount.Base.{
  List, [], ◌∷◌, ◌++◌, arith, length, take, get_elem?, is_ok, Outcome, ok, failed,
}
use layer_mount.Base.{take_of_length-le, sym, ◌∙◌, Bool-cases, Outcome-cases, inl, inr, ap}
use native.Mathlib.Nat.{zero-add}
use layer_mount.Layer.Disk.{Disk, LayerConfig, WString, RelPath}
use layer_mount.Layer.Names.{TextService, case_folded_name}
use layer_mount.Layer.Ancestry.{LayerAncestry, step_layer_ancestry, layer_ancestry_of}
use layer_mount.Layer.Merge.{MergeLayer, DirectoryMerge, LayersMerge, merge_layers_from}
use layer_mount.Layer.Merge.{hides_layer_and_below, hides_layers_below, whiteout_names_in}
use layer_mount.Layer.Merge.{merge_layer_entries, is_empty}
use layer_mount.Layer.Listing.{MergedDirectoryWithAncestry, merge_layers, merge_layer_slots}
use layer_mount.Layer.Listing.{
  lower_layers, ancestry_of, is_refused, merge_child_directory, child_path_of,
}
use layer_mount.Layer.Listing.{merge_directory_with_ancestry, empty_merge, parent_ancestry}
use layer_mount.Layer.Listing.{entries_of}
use layer_mount.Layer.Ancestry.Agreement.{layer_ancestry_of-snoc}
use layer_mount.Layer.Ancestry.Growth.{step-whited_out, step-opaque, step-stops, step-link}
use layer_mount.Layer.Ancestry.Growth.{layer_ancestry_of-IsStopped}

abbrev Ancestries : Type 0
Ancestries = ℕ → MergeLayer → LayerAncestry

-- Where the parent's ancestry stops the walk, the child's does.
abbrev Follows : Ancestries → Ancestries → Type 0
Follows at below =
    (slot : ℕ) (layer : MergeLayer)
    → ((hides_layer_and_below layer (at slot layer) ≡ true)
        → hides_layer_and_below layer (below slot layer) ≡ true)
      × ((hides_layers_below layer (at slot layer) ≡ true)
          → hides_layers_below layer (below slot layer) ≡ true)

module _ (text : TextService) (disk : Disk) (dir child : RelPath) (at below : Ancestries)
    (follows : Follows at below) where
  -- The child's merge of the layers that the parent's merge reached is its merge of all layers,
  -- also by an ancestry that is known for the reached layers only.
  merge_layers_from_reached :
      (known : Ancestries) (slot : ℕ) (layers : List MergeLayer) (m m' : DirectoryMerge)
      → is_ok (merge_layers_from text disk dir at slot layers m).outcome ≡ true
      → ((i j : ℕ) (layer : MergeLayer)
          → i ≡ slot + j
          → get_elem? (merge_layers_from text disk dir at slot layers m).layers j
            ≡ some (at i layer)
          → known i layer ≡ below i layer)
      → merge_layers_from text disk child known slot
          (take (length (merge_layers_from text disk dir at slot layers m).layers) layers)
          m'
        ≡ merge_layers_from text disk child below slot layers m'
  unfolding merge_layers_from
  merge_layers_from_reached known slot [] m m' h k = refl
  merge_layers_from_reached known slot (layer ∷ layers) m m' h k =
      let same : known slot layer ≡ below slot layer =
        k slot 0 layer (omega arith) (ground arith) in
      elim (Bool-cases (hides_layer_and_below layer (at slot layer))) [
        | inl hidden ↦ rw (hidden, same) (ground (arith, (follows slot layer).0 hidden))
        | inr shown ↦
            elim (Outcome-cases
              (merge_layer_entries text disk layer dir (whiteout_names_in (at slot layer)) m)) [
                | inr (e, bad) ↦ absurd (ground arith)
                | inl (merged, good) ↦
                    elim (Bool-cases (hides_layers_below layer (at slot layer))) [
                      | inl last ↦ ground (arith, (follows slot layer).1 last)
                      | inr more ↦
                          let deeper =
                            merge_layers_from text disk dir at (suc slot) layers merged in
                          let all = merge_layers_from text disk dir at slot (layer ∷ layers) m in
                          let reached : all.layers ≡ at slot layer ∷ deeper.layers = ground arith in
                          let fine : is_ok deeper.outcome ≡ true = ground arith in
                          let ih = λ (merged' : DirectoryMerge).
                            merge_layers_from_reached known (suc slot) layers merged merged' fine
                              (λ i j l e g. k i (suc j) l (omega arith) (rw reached g)) in
                          elim (Outcome-cases (
                            merge_layer_entries text disk layer child
                              (whiteout_names_in (below slot layer)) m')) [
                                | inr (e, bad) ↦ ground arith
                                | inl (merged', good') ↦ ground (arith, ih merged')
                              ]
                    ]
              ]
      ]

lower_layers-length : (i : ℕ) (roots : List WString) → length (lower_layers i roots) ≡ length roots
lower_layers-length i [] = refl
lower_layers-length i (root ∷ roots) = ap suc (lower_layers-length (suc i) roots)

module _ (text : TextService) (disk : Disk) (config : LayerConfig) where
  pub all_slots :
      take (length config.lower_paths + 1) (merge_layer_slots config) ≡ merge_layer_slots config
  all_slots = take_of_length-le _ _ (omega (arith, lower_layers-length 0 config.lower_paths))

  Follows-child :
      (dir : RelPath) (child : WString)
      → Follows
          (ancestry_of text disk config dir)
          (ancestry_of text disk config (dir ++ child ∷ []))
  unfolding hides_layer_and_below hides_layers_below
  Follows-child dir child slot layer =
      let a = layer_ancestry_of disk config layer.path layer.layer_index dir in
      let next = layer_ancestry_of-snoc disk config layer.path layer.layer_index dir child in
      let path = dir ++ child ∷ [] in
      let out = step-whited_out disk config layer.path layer.layer_index path a in
      let opaque = step-opaque disk config layer.path layer.layer_index path a in
      let stop = step-stops disk config layer.path layer.layer_index path a in
      let link =
        step-link disk config layer.path layer.layer_index path a
          (layer_ancestry_of-IsStopped disk config layer.path layer.layer_index dir) in
      (λ h. ground (arith, next, out, link), λ h. ground (arith, next, out, opaque, stop))

  pub merge_directory-passes :
      (dir : RelPath)
      → is_refused text disk config dir ≡ false
      → merge_directory_with_ancestry text disk config dir
        ≡ merge_layers text disk config dir
            (length config.lower_paths + 1)
            (ancestry_of text disk config dir)
  unfolding merge_directory_with_ancestry
  merge_directory-passes dir h = rw h

  merge_directory-refused :
      (dir : RelPath)
      → is_refused text disk config dir ≡ true
      → merge_directory_with_ancestry text disk config dir
        ≡ record { entries = ok []; dir_path = dir; layers = [] }
  unfolding merge_directory_with_ancestry
  merge_directory-refused dir h = rw h

  is_ok-entries_of : (o : Outcome DirectoryMerge) → is_ok (entries_of o) ≡ true → is_ok o ≡ true
  is_ok-entries_of (ok m) h = refl
  is_ok-entries_of (failed e) h = h

  parent_ancestry-known :
      (layers : List LayerAncestry) (slot : ℕ) (layer : MergeLayer) {a : LayerAncestry}
      → get_elem? layers slot ≡ some a
      → parent_ancestry text disk config layers slot layer ≡ a
  parent_ancestry-known layers slot layer known = ground arith

  child_path_of-below :
      (dir : RelPath) (child : WString)
      → is_empty dir ≡ false
      → child_path_of dir child ≡ dir ++ child ∷ []
  child_path_of-below [] child below = ground (arith, below)
  child_path_of-below (first ∷ rest) child below = refl

  merge_child_directory-merge_layers :
      (dir : RelPath) (child : WString)
      → is_empty dir ≡ false
      → is_ok
          (merge_layers text disk config dir
            (length config.lower_paths + 1)
            (ancestry_of text disk config dir)).entries
        ≡ true
      → merge_child_directory text disk config
          (merge_layers text disk config dir
            (length config.lower_paths + 1)
            (ancestry_of text disk config dir))
          child
        ≡ merge_layers text disk config
            (dir ++ child ∷ [])
            (length config.lower_paths + 1)
            (ancestry_of text disk config (dir ++ child ∷ []))
  unfolding merge_child_directory merge_layers
  merge_child_directory-merge_layers dir child below good =
      rw (all_slots, child_path_of-below dir child below)
        (let at = ancestry_of text disk config dir in
          let slots = merge_layer_slots config in
          let reached = merge_layers_from text disk dir at 0 slots empty_merge in
          let same =
            merge_layers_from_reached text disk dir (dir ++ child ∷ []) at
              (ancestry_of text disk config (dir ++ child ∷ [])) (Follows-child dir child)
              (λ slot layer.
                step_layer_ancestry disk config layer.path layer.layer_index (dir ++ child ∷ [])
                  (parent_ancestry text disk config reached.layers slot layer))
              0 slots empty_merge empty_merge
              (is_ok-entries_of reached.outcome (rw all_slots at good))
              (λ i j layer e known.
                rw (e, zero-add, parent_ancestry-known _ _ _ known)
                  (sym
                    (layer_ancestry_of-snoc disk config layer.path layer.layer_index dir child))) in
          ap
            (λ (m : LayersMerge).
              let made : MergedDirectoryWithAncestry = record {
                entries = entries_of m.outcome;
                dir_path = dir ++ child ∷ [];
                layers = m.layers;
              } in
              made)
            same)

  -- For a directory other than the root and a child's name in lower case: where both pass the same path
  -- check, and every scan of the directory's merge succeeded, the child's merge that starts from the parent's ancestries and
  -- walks only the layers that the parent's merge reached is the child's merge from the root over
  -- all layers: the same entries or error, and the same ancestries.
  pub merge_child_directory-merge_directory :
      (dir : RelPath) (child : WString)
      → is_empty dir ≡ false
      → case_folded_name text child ≡ child
      → is_refused text disk config (dir ++ child ∷ []) ≡ is_refused text disk config dir
      → is_ok (merge_directory_with_ancestry text disk config dir).entries ≡ true
      → merge_child_directory text disk config
          (merge_directory_with_ancestry text disk config dir)
          child
        ≡ merge_directory_with_ancestry text disk config (dir ++ case_folded_name text child ∷ [])
  unfolding merge_layers_from merge_child_directory merge_layers
  merge_child_directory-merge_directory dir child below folded checked good =
      rw folded (elim (Bool-cases (is_refused text disk config dir)) [
        | inl refused ↦
            rw
              (
                merge_directory-refused dir refused,
                merge_directory-refused (dir ++ child ∷ []) (checked ∙ refused),
                child_path_of-below dir child below,
              )
              refl
        | inr passes ↦
            rw
              (
                merge_directory-passes dir passes,
                merge_directory-passes (dir ++ child ∷ []) (checked ∙ passes),
              )
              (merge_child_directory-merge_layers dir child below
                (rw (merge_directory-passes dir passes) at good))
      ])
