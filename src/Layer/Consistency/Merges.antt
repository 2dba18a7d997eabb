-- ===== src/Layer/Consistency/Merges.antt =====
-- What the merge of the layers shows under a key.
use layer_mount.Base.{ℕ, ◌≡◌, refl, Bool, true, false, ◌&&◌, ◌||◌, Option, none, some}
use layer_mount.Base.{List, [], ◌∷◌, ◌++◌, map, ◌==◌, eq_nat, eq_list, arith, is_ok}
use layer_mount.Base.{if◌then◌else◌, Bool-cases, inl, inr, ==_eq, ==_refl}
use layer_mount.Base.{ok}
use layer_mount.Layer.Source.{LayerSource}
use layer_mount.Layer.Disk.{Disk, WString, RelPath, FindData, Enumeration, read, not_opened}
use layer_mount.Layer.Markers.{whiteout_prefix}
use layer_mount.Layer.Names.{TextService}
use layer_mount.Layer.Merge.{LayerDirectoryScan, LayerDirectoryEntry, has_name, has_key, entry_of}
use layer_mount.Layer.Merge.{WhiteoutNames, scan_layer_directory, error_no_more_files}
use layer_mount.Layer.Merge.{is_directory_absent_error, empty_scan, DirectoryMerge, MergedEntry}
use layer_mount.Layer.Merge.{MergeLayer, entry_from, add_layer_entries}
use layer_mount.Layer.Consistency.Folding.{IsFolding, lower_prefix}
use layer_mount.Layer.Consistency.Scans.{IsUserKey, listed, has_entry}
use layer_mount.Layer.Consistency.Scans.{scan_entries-key, marks}

-- A complete enumeration of a directory lists the names that a probe finds there, whatever their
-- case, and a directory that is not there holds no entry.
pub record IsListed (text : TextService) (disk : Disk) (layer : WString) (dir : RelPath)
    : Type 0 where
  pub complete :
      (found : List FindData) (name : WString)
      → disk.enumerate layer dir ≡ read found error_no_more_files
      → is_ok (disk.attributes layer (dir ++ name ∷ [])) ≡ listed text (map text.lower name) found
  pub not_there :
      (error : ℕ) (name : WString)
      → disk.enumerate layer dir ≡ not_opened error
      → is_directory_absent_error error ≡ true
      → is_ok (disk.attributes layer (dir ++ name ∷ [])) ≡ false

-- The layer that a merge shows a key from.
abbrev pub Origin : Type 0
Origin = LayerSource × Option ℕ

abbrev pub origin_of : Option MergedEntry → Option Origin
origin_of none = none
origin_of (some entry) = some (entry.source, entry.lower_index)

unfoldable pub shown : WString → DirectoryMerge → Option Origin
shown key merge = origin_of (entry_of key merge.merged_entries)

entry_of-append {ℓ} :
    {V : Type ℓ} (key k : WString) (v : V) (xs : List (WString × V))
    → entry_of key (xs ++ (k, v) ∷ [])
      ≡ (elim (entry_of key xs) [ some w ↦ some w | none ↦ if k == key then some v else none ])
unfolding entry_of
entry_of-append key k v [] = refl
entry_of-append key k v ((j, w) ∷ xs) = ground (arith, entry_of-append key k v xs)

has_key-entry_of {ℓ} :
    {V : Type ℓ} (key : WString) (xs : List (WString × V))
    → has_key key xs ≡ (elim (entry_of key xs) [ some w ↦ true | none ↦ false ])
unfolding entry_of has_key
has_key-entry_of key [] = refl
has_key-entry_of key ((j, w) ∷ xs) = ground (arith, has_key-entry_of key xs)

-- What a layer adds to what is shown under a key: nothing where the key is shown or hidden.
abbrev pub adds : Option Origin → Bool → Bool → Origin → Option Origin
adds (some o) hidden there origin = some o
adds none hidden there origin = if hidden then none else if there then some origin else none

-- One round of the loop of MergeLayerEntries.
add_entry_to : MergeLayer → LayerDirectoryEntry → DirectoryMerge → DirectoryMerge
add_entry_to layer entry m =
    if has_key entry.key m.merged_entries || has_name entry.key m.hidden_names
    then m
    else record m { merged_entries = m.merged_entries ++ (entry.key, entry_from layer entry) ∷ [] }

add_entry_to-key :
    (layer : MergeLayer) (key : WString) (entry : LayerDirectoryEntry) (m : DirectoryMerge)
    → (shown key (add_entry_to layer entry m)
        ≡ adds
            (shown key m)
            (has_name key m.hidden_names)
            (entry.key == key)
            (layer.layer_source, layer.layer_index))
      × ((add_entry_to layer entry m).hidden_names ≡ m.hidden_names)
unfolding add_entry_to shown
add_entry_to-key layer key entry m = elim (Bool-cases (entry.key == key)) [
  | inl e ↦
      rw (e, ==_eq entry.key key e)
        (ground (
          arith,
          has_key-entry_of key m.merged_entries,
          entry_of-append key key (entry_from layer entry) m.merged_entries,
          ==_refl key,
        ))
  | inr e ↦ ground (arith, entry_of-append key entry.key (entry_from layer entry) m.merged_entries)
]

pub add_layer_entries-key :
    (layer : MergeLayer) (key : WString) (entries : List LayerDirectoryEntry) (m : DirectoryMerge)
    → (shown key (add_layer_entries layer entries m)
        ≡ adds
            (shown key m)
            (has_name key m.hidden_names)
            (has_entry key entries)
            (layer.layer_source, layer.layer_index))
      × ((add_layer_entries layer entries m).hidden_names ≡ m.hidden_names)
unfolding add_layer_entries has_entry add_entry_to
add_layer_entries-key layer key [] m = ground arith
add_layer_entries-key layer key (entry ∷ rest) m = ground (
  arith,
  add_entry_to-key layer key entry m,
  add_layer_entries-key layer key rest (add_entry_to layer entry m),
)

module _ (text : TextService) (folding : IsFolding text) (dir : RelPath) (key : WString)
    (user : IsUserKey text dir key) (disk : Disk) where
  pub scan_layer_directory-key :
      (layer : WString) (names : WhiteoutNames)
      → IsListed text disk layer dir
      → (scan : LayerDirectoryScan) → scan_layer_directory text disk layer dir names ≡ ok scan
      → (has_entry key scan.entries ≡ is_ok (disk.attributes layer (dir ++ key ∷ [])))
        × (has_name key scan.whited_out_names
            ≡ (marks names && is_ok (disk.attributes layer (dir ++ (whiteout_prefix ++ key) ∷ []))))
  unfolding scan_layer_directory has_entry has_name
  scan_layer_directory-key layer names lists scan e = go (disk.enumerate layer dir) refl
    where
      go :
          (listing : Enumeration)
          → disk.enumerate layer dir ≡ listing
          → (has_entry key scan.entries ≡ is_ok (disk.attributes layer (dir ++ key ∷ [])))
            × (has_name key scan.whited_out_names ≡ (
                marks names
                && is_ok (disk.attributes layer (dir ++ (whiteout_prefix ++ key) ∷ []))))
      go (not_opened error) l =
          ground
            (arith, lists.not_there error key l, lists.not_there error (whiteout_prefix ++ key) l)
      go (read found end_error) l = ground (
        arith,
        lists.complete found key,
        lists.complete found (whiteout_prefix ++ key),
        scan_entries-key text folding dir key user names found empty_scan,
        user.folded,
        lower_prefix text folding key,
      )
