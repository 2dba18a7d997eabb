-- ===== src/Layer/Ancestry/Agreement.antt =====
-- The step-by-step ancestry of a directory says what the direct probes of the directory say.
use layer_mount.Base.{ℕ, ◌≡◌, refl, Bool, true, false, ◌||◌, ◌&&◌, Option, arith}
use layer_mount.Base.{[], ◌∷◌, ◌++◌, snoc_induction, append_assoc}
use layer_mount.Layer.Disk.{Disk, LayerConfig, WString, RelPath}
use layer_mount.Layer.Disk.{component_kind_in_layer}
use layer_mount.Layer.Walk.{WalkStop, walk_stop_at, is_link, walk_to_first_non_directory}
use layer_mount.Layer.Walk.{ends_at_link_or_unreadable}
use layer_mount.Layer.Walk.Snoc.{walk_misses, walk-snoc, walk_misses-snoc}
use layer_mount.Layer.Walk.Snoc.{walk_misses-no_stop}
use layer_mount.Layer.Markers.{any_directory_up_to_root, has_whiteout, probed, skipped}
use layer_mount.Layer.Markers.{is_opaque_in_layer}
use layer_mount.Layer.Markers.{has_opaque_self_or_ancestor}
use layer_mount.Layer.Tree.{IsTree, off_links_lem, has_whiteout-snoc, missing_below, is_closed}
use layer_mount.Layer.Tree.{no_whiteout_below, no_opaque_at}
use layer_mount.Layer.Markers.Upward.{any_directory_up_to_root-snoc}
use layer_mount.Layer.Ancestry.{LayerAncestry, step_layer_ancestry, ancestry_from, higher_holds}
use layer_mount.Layer.Ancestry.{layer_ancestry_of, root_ancestry}

module _ (disk : Disk) (config : LayerConfig) (layer : WString) (lower_index : Option ℕ) where
  ancestry_from-snoc :
      (walked rest : RelPath) (c : WString) (a : LayerAncestry)
      → ancestry_from disk config layer lower_index walked (rest ++ c ∷ []) a
        ≡ step_layer_ancestry disk config layer lower_index
            (walked ++ (rest ++ c ∷ []))
            (ancestry_from disk config layer lower_index walked rest a)
  unfolding ancestry_from
  ancestry_from-snoc walked [] c a = refl
  ancestry_from-snoc walked (x ∷ rest) c a = rw (← append_assoc walked (x ∷ []) (rest ++ c ∷ [])) (
      ancestry_from-snoc (walked ++ x ∷ []) rest c
        (step_layer_ancestry disk config layer lower_index (walked ++ x ∷ []) a))

  pub layer_ancestry_of-snoc :
      (path : RelPath) (c : WString)
      → layer_ancestry_of disk config layer lower_index (path ++ c ∷ [])
        ≡ step_layer_ancestry disk config layer lower_index
            (path ++ c ∷ [])
            (layer_ancestry_of disk config layer lower_index path)
  unfolding layer_ancestry_of
  layer_ancestry_of-snoc path c =
      ancestry_from-snoc [] path c (root_ancestry disk config layer lower_index)

abbrev is_file_stop : WalkStop → Bool
is_file_stop WalkStop.file = true
is_file_stop WalkStop.none = false
is_file_stop WalkStop.link = false
is_file_stop WalkStop.unreadable = false

-- What the direct probes of a path say, as the record of an ancestry keeps it.
pub record Agrees (disk : Disk) (layer : WString) (higher : RelPath → Bool) (path : RelPath)
    (a : LayerAncestry) : Type 0 where
  pub whited_out : a.whited_out ≡ any_directory_up_to_root (has_whiteout disk layer) skipped path
  pub opaque : a.opaque ≡ has_opaque_self_or_ancestor disk layer path
  pub first_non_directory :
      a.first_non_directory ≡ (walk_to_first_non_directory disk layer path).stop
  pub link_under_higher_entry : a.link_under_higher_entry ≡ (
      is_link (walk_to_first_non_directory disk layer path).stop
      && higher (walk_to_first_non_directory disk layer path).component)
  pub absent : a.absent ≡ walk_misses disk layer path

-- A path that the walk finds missing or below a file has nothing below it.
abbrev Closed : Disk → WString → RelPath → Type 0
Closed disk layer path =
    (walk_misses disk layer path || is_file_stop (walk_to_first_non_directory disk layer path).stop)
      ≡ true
    → is_closed (component_kind_in_layer disk layer path) ≡ true

module _ (disk : Disk) (layer : WString) (tree : IsTree disk layer) where
  Closed-snoc :
      (path : RelPath) (c : WString) → Closed disk layer path → Closed disk layer (path ++ c ∷ [])
  unfolding walk_stop_at
  Closed-snoc path c closed h = ground (
    arith,
    walk-snoc disk layer path c,
    walk_misses-snoc disk layer path c,
    missing_below disk layer tree path c,
  )

  Closed-all : (path : RelPath) → Closed disk layer path
  unfolding walk_misses walk_to_first_non_directory
  Closed-all = snoc_induction (Closed disk layer) (λ h. cc) Closed-snoc

  module _ (config : LayerConfig) (lower_index : Option ℕ) where
    abbrev pub AgreesAt : RelPath → LayerAncestry → Type 0
    AgreesAt path a = Agrees disk layer (higher_holds disk config layer lower_index) path a

    Agrees-root : AgreesAt [] (root_ancestry disk config layer lower_index)
    unfolding any_directory_up_to_root has_opaque_self_or_ancestor walk_misses
        walk_to_first_non_directory
    Agrees-root = record {
      whited_out = refl;
      opaque = refl;
      first_non_directory = refl;
      link_under_higher_entry = refl;
      absent = refl;
    }

    Agrees-snoc :
        (path : RelPath) (c : WString) (a : LayerAncestry)
        → AgreesAt path a
        → AgreesAt
            (path ++ c ∷ [])
            (step_layer_ancestry disk config layer lower_index (path ++ c ∷ []) a)
    unfolding step_layer_ancestry ends_at_link_or_unreadable walk_stop_at
        has_opaque_self_or_ancestor is_opaque_in_layer
    Agrees-snoc path c a agrees = record {
      whited_out = ground (
        arith,
        any_directory_up_to_root-snoc (has_whiteout disk layer) skipped path c,
        has_whiteout-snoc disk layer path c,
        no_whiteout_below disk layer tree path c,
        Closed-all path,
      );
      opaque = ground (
        arith,
        any_directory_up_to_root-snoc (is_opaque_in_layer disk layer) probed path c,
        off_links_lem disk layer (path ++ c ∷ []),
        walk-snoc disk layer path c,
        no_opaque_at disk layer tree (path ++ c ∷ []),
        missing_below disk layer tree path c,
        Closed-all path,
      );
      first_non_directory =
          ground (arith, walk-snoc disk layer path c, walk_misses-no_stop disk layer path);
      link_under_higher_entry =
          ground (arith, walk-snoc disk layer path c, walk_misses-no_stop disk layer path);
      absent = ground (
        arith,
        walk_misses-snoc disk layer path c,
        missing_below disk layer tree path c,
        Closed-all path,
      );
    }

    -- In a layer that is a tree, the ancestry built step by step says at every path what the direct
    -- probes of that path say: the whiteouts at the path or above it, the opaque markers up to the
    -- root, where the walk stops, whether it stops at a link that a higher layer holds too, and
    -- whether the walk ends at a missing component.
    pub layer_ancestry_of-Agrees :
        (path : RelPath) → AgreesAt path (layer_ancestry_of disk config layer lower_index path)
    unfolding layer_ancestry_of
    layer_ancestry_of-Agrees =
        snoc_induction
          (λ path. AgreesAt path (layer_ancestry_of disk config layer lower_index path)) Agrees-root
          (λ path c h.
            rw (layer_ancestry_of-snoc disk config layer lower_index path c)
              (Agrees-snoc path c _ h))
