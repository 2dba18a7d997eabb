-- ===== src/Layer/Tests.antt =====
-- An upper and one lower, with the properties of the layers applied to them.
use layer_mount.Base.{ℕ, ◌≡◌, refl, ap, subst, Bool, true, false, ◌&&◌, none, some, arith}
use layer_mount.Base.{
  List, [], ◌∷◌, ◌++◌, map, codes, ◌==◌, eq_nat, eq_list, leb, ok, failed, is_ok,
}
use layer_mount.Base.{Outcome, if◌then◌else◌, ◌+◌, ◌-◌}
use layer_mount.Layer.Disk.{
  is_directory_link, Disk, LayerConfig, Attributes, FindData, Enumeration, WString, RelPath,
}
use layer_mount.Layer.Disk.{not_opened, read, component_kind_in_layer, entry_kind_of}
use layer_mount.Layer.Names.{TextService, case_folded_name, is_whiteout_name}
use layer_mount.Layer.Tree.{IsTree, is_closed, is_gone_entry}
use layer_mount.Layer.Lookup.{look_up}
use layer_mount.Layer.Markers.{
  has_whiteout_under_walked_directory, has_opaque_metadata, is_opaque_in_layer, holds_opaque_marker,
}
use layer_mount.Layer.View.{is_reserved_overlay_path, all_safe}
use layer_mount.Layer.Ancestry.{step_layer_ancestry, layer_ancestry_of}
use layer_mount.Layer.Ancestry.Agreement.{AgreesAt, layer_ancestry_of-Agrees}
use layer_mount.Layer.Merge.{MergedEntry, entry_of, merge_layers_from, hides_layer_and_below}
use layer_mount.Layer.Merge.{merge_layer_entries, hides_layers_below}
use layer_mount.Layer.Listing.{
  merge_directory_with_ancestry, merge_layers, merge_child_directory, is_refused,
}
use layer_mount.Layer.Listing.Child.{merge_child_directory-merge_directory}
use layer_mount.Layer.Consistency.Folding.{IsFolding}
use layer_mount.Layer.Consistency.Scans.{IsUserKey, listed}
use layer_mount.Layer.Consistency.Merges.{IsListed, origin_of}
use layer_mount.Layer.Consistency.View.{IsLayer, origin, merge_directory-look_up}

-- The case folds of ASCII.
abbrev pub ascii : TextService
ascii = record {
  lower = λ c. if leb 65 c && leb c 90 then c + 32 else c;
  upper = λ c. if leb 97 c && leb c 122 then c - 32 else c;
}

ascii-IsFolding : IsFolding ascii
ascii-IsFolding = record { dot = λ c. ground arith; w = λ c. ground arith; h = λ c. ground arith }

abbrev file : WString → FindData
file name = record {
  name = name;
  found_attributes = record { directory = false; reparse_point = false };
}

abbrev pub upper : WString
upper = codes "u"

abbrev pub lower : WString
lower = codes "l"

-- The upper hides the lower's `a` and holds a `b` of its own.
abbrev root_files : WString → List FindData
root_files layer =
    if layer == upper
    then file (codes ".wh.a") ∷ file (codes "b") ∷ []
    else file (codes "a") ∷ file (codes "B") ∷ file (codes "c") ∷ []

abbrev attributes_in : WString → RelPath → Outcome Attributes
attributes_in layer [] = ok (record { directory = true; reparse_point = false })
attributes_in layer (name ∷ []) =
    if listed ascii (map ascii.lower name) (root_files layer)
    then ok (record { directory = false; reparse_point = false })
    else failed 2
attributes_in layer (name ∷ below ∷ rest) = failed 3

abbrev enumerate_in : WString → RelPath → Enumeration
enumerate_in layer [] = read (root_files layer) 18
enumerate_in layer (name ∷ rest) = not_opened 3

abbrev pub flat : Disk
flat = record {
  attributes = attributes_in;
  reparse_tag = λ layer path. failed 4390;
  enumerate = enumerate_in;
  name_surrogate = λ tag. false;
  stream_attributes = λ layer path stream. failed 2;
  record_attributes = λ layer path suffix. none;
}

abbrev pub config : LayerConfig
config = record { upper_path = upper; lower_paths = lower ∷ [] }

flat-nothing_below :
    (layer : WString) (path : RelPath) (name : WString)
    → is_closed (component_kind_in_layer flat layer path) ≡ true
    → is_gone_entry (flat.attributes layer (path ++ name ∷ [])) ≡ true
unfolding component_kind_in_layer entry_kind_of
flat-nothing_below layer [] name closed = absurd (ground arith)
flat-nothing_below layer (n ∷ []) name closed = refl
flat-nothing_below layer (n ∷ m ∷ []) name closed = refl
flat-nothing_below layer (n ∷ m ∷ o ∷ path) name closed = refl

flat-IsTree : (layer : WString) → IsTree flat layer
unfolding has_opaque_metadata
flat-IsTree layer = record {
  nothing_below = flat-nothing_below layer;
  no_stray_opaque = λ path closed. refl;
}

abbrev files_of : Enumeration → List FindData
files_of (not_opened error) = []
files_of (read found error) = found

is_ok-if : (b : Bool) (a : Attributes) (error : ℕ) → is_ok (if b then ok a else failed error) ≡ b
is_ok-if true a error = refl
is_ok-if false a error = refl

flat-IsListed : (layer : WString) → IsListed ascii flat layer []
flat-IsListed layer = record {
  complete = λ found name at.
      subst
        (λ files.
          is_ok (flat.attributes layer (name ∷ [])) ≡ listed ascii (map ascii.lower name) files)
        (ap files_of at)
        (is_ok-if (listed ascii (map ascii.lower name) (root_files layer))
          (record { directory = false; reparse_point = false }) 2);
  not_there = λ error name at. absurd (ground arith);
}

key-IsUserKey : IsUserKey ascii [] (codes "c")
key-IsUserKey = record {
  folded = refl;
  not_dot = refl;
  not_dots = refl;
  not_marker = refl;
  not_sidecar = refl;
}

flat-IsLayer : (layer : WString) → IsLayer ascii flat [] layer
flat-IsLayer layer = (flat-IsTree layer, flat-IsListed layer)

abbrev entries_in : Outcome (List (WString × MergedEntry)) → List (WString × MergedEntry)
entries_in (ok entries) = entries
entries_in (failed error) = []

abbrev root_entries : List (WString × MergedEntry)
unfolding merge_directory_with_ancestry
root_entries = entries_in (merge_directory_with_ancestry ascii flat config []).entries

root_ok : (merge_directory_with_ancestry ascii flat config []).entries ≡ ok root_entries
unfolding merge_directory_with_ancestry root_entries is_reserved_overlay_path merge_layers
    merge_layers_from hides_layer_and_below merge_layer_entries hides_layers_below layer_ancestry_of
    is_opaque_in_layer holds_opaque_marker listed
root_ok = refl

merge_directory-look_up_example :
    origin_of (entry_of (codes "c") root_entries) ≡ origin (look_up flat config (codes "c" ∷ []))
unfolding is_refused is_reserved_overlay_path
merge_directory-look_up_example =
    merge_directory-look_up ascii ascii-IsFolding flat config [] (codes "c") key-IsUserKey
      root_entries (flat-IsLayer upper) (flat-IsLayer lower, tt) refl root_ok

layer_ancestry_of-Agrees_example :
    AgreesAt flat lower
      (flat-IsTree lower)
      config
      (some 0)
      (codes "a" ∷ [])
      (layer_ancestry_of flat config lower (some 0) (codes "a" ∷ []))
layer_ancestry_of-Agrees_example =
    layer_ancestry_of-Agrees flat lower (flat-IsTree lower) config (some 0) (codes "a" ∷ [])

-- A directory `d` in both layers, with a file of each and a directory `s` in both.
abbrev sub_files : WString → List FindData
sub_files layer = if layer == upper then file (codes "x") ∷ [] else file (codes "y") ∷ []

abbrev directory_attributes : Attributes
directory_attributes = record { directory = true; reparse_point = false }

abbrev nested_attributes : WString → RelPath → Outcome Attributes
nested_attributes layer [] = ok directory_attributes
nested_attributes layer (name ∷ []) =
    if name == codes "d" then ok directory_attributes else failed 2
nested_attributes layer (dir ∷ name ∷ []) =
    if dir == codes "d" && name == codes "s"
    then ok directory_attributes
    else if dir == codes "d" && listed ascii (map ascii.lower name) (sub_files layer)
    then ok (record { directory = false; reparse_point = false })
    else failed 2
nested_attributes layer (dir ∷ name ∷ below ∷ rest) =
    if dir == codes "d" && (name == codes "s" && below == codes "z")
    then ok (record { directory = false; reparse_point = false })
    else failed 3

abbrev nested_listing : WString → RelPath → Enumeration
nested_listing layer [] =
    read (record { name = codes "d"; found_attributes = directory_attributes } ∷ []) 18
nested_listing layer (name ∷ []) =
    if name == codes "d"
    then read
        (record { name = codes "s"; found_attributes = directory_attributes } ∷ sub_files layer) 18
    else not_opened 3
nested_listing layer (dir ∷ name ∷ []) =
    if dir == codes "d" && name == codes "s" then read (file (codes "z") ∷ []) 18 else not_opened 3
nested_listing layer (dir ∷ name ∷ below ∷ rest) = not_opened 3

abbrev nested : Disk
nested = record flat { attributes = nested_attributes; enumerate = nested_listing }

merge_child_directory-merge_directory_example :
    merge_child_directory ascii nested config
      (merge_directory_with_ancestry ascii nested config (codes "d" ∷ []))
      (codes "s")
    ≡ merge_directory_with_ancestry ascii nested config
        (codes "d" ∷ case_folded_name ascii (codes "s") ∷ [])
unfolding merge_directory_with_ancestry is_refused is_reserved_overlay_path merge_layers
    merge_layers_from hides_layer_and_below merge_layer_entries hides_layers_below layer_ancestry_of
    is_opaque_in_layer holds_opaque_marker listed all_safe is_whiteout_name case_folded_name
    step_layer_ancestry component_kind_in_layer entry_kind_of is_directory_link
    has_whiteout_under_walked_directory
merge_child_directory-merge_directory_example =
    merge_child_directory-merge_directory ascii nested config (codes "d" ∷ []) (codes "s") refl refl
      refl refl
