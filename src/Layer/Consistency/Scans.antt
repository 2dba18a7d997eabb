-- ===== src/Layer/Consistency/Scans.antt =====
-- What the scan of one layer's directory holds under a key.
use layer_mount.Base.{◌≡◌, refl, Bool, true, false, ◌&&◌, ◌||◌, none, some}
use layer_mount.Base.{List, [], ◌∷◌, ◌++◌, map, codes, ◌==◌, eq_nat, eq_list, arith}
use layer_mount.Base.{Bool-cases, Option-cases, inl, inr, ==_eq}
use layer_mount.Base.{list_eq_iff}
use layer_mount.Layer.Disk.{WString, RelPath, FindData}
use layer_mount.Layer.Markers.{whiteout_prefix}
use layer_mount.Layer.Names.{TextService, case_folded_name, is_whiteout_name, sidecar_dir_name}
use layer_mount.Layer.Names.{whited_out_name_of_entry}
use layer_mount.Layer.Merge.{LayerDirectoryScan, LayerDirectoryEntry, scan_entries, has_name}
use layer_mount.Layer.Merge.{WhiteoutNames, are_markers, are_ordinary, add_entry, is_empty}
use layer_mount.Layer.Merge.{add_marker_or_entry, add_ordinary_entry, visible_entry_key}
use layer_mount.Layer.Merge.{is_reserved_name}
use layer_mount.Layer.Consistency.Folding.{IsFolding, starts_marker, is_whiteout_name-folded}
use layer_mount.Layer.Consistency.Folding.{hides_key_iff, lower_dot}

-- Whether a list of names holds one with the folded name.
unfoldable pub listed : TextService → WString → List FindData → Bool
listed text key [] = false
listed text key (found ∷ rest) = (map text.lower found.name == key) || listed text key rest

unfoldable pub has_entry : WString → List LayerDirectoryEntry → Bool
has_entry key [] = false
has_entry key (entry ∷ rest) = entry.key == key || has_entry key rest

pub has_entry-append :
    (key : WString) (xs ys : List LayerDirectoryEntry)
    → has_entry key (xs ++ ys) ≡ (has_entry key xs || has_entry key ys)
unfolding has_entry
has_entry-append key [] ys = refl
has_entry-append key (x ∷ xs) ys = ground (arith, has_entry-append key xs ys)

pub has_name-append :
    (key : WString) (xs ys : List WString)
    → has_name key (xs ++ ys) ≡ (has_name key xs || has_name key ys)
unfolding has_name
has_name-append key [] ys = refl
has_name-append key (x ∷ xs) ys = ground (arith, has_name-append key xs ys)

-- A key that a user's entry can have: folded, no dot entry, no marker, not the sidecar directory.
pub record IsUserKey (text : TextService) (dir : RelPath) (key : WString) : Type 0 where
  pub folded : map text.lower key ≡ key
  pub not_dot : (key == codes ".") ≡ false
  pub not_dots : (key == codes "..") ≡ false
  pub not_marker : starts_marker key ≡ false
  pub not_sidecar : (is_empty dir && (key == sidecar_dir_name)) ≡ false

abbrev pub marks : WhiteoutNames → Bool
marks are_markers = true
marks are_ordinary = false

module _ (text : TextService) (folding : IsFolding text) (dir : RelPath) (key : WString)
    (user : IsUserKey text dir key) where
  key_not_reserved : (is_empty dir && is_reserved_name text key) ≡ false
  unfolding is_reserved_name
  key_not_reserved =
      let plain : is_whiteout_name text key ≡ false =
        rw (is_whiteout_name-folded text folding key, user.folded) user.not_marker in
      ground (arith, user.not_sidecar, plain)

  not_dot_name :
      (name : WString)
      → map text.lower name ≡ key
      → ((name == codes ".") || (name == codes "..")) ≡ false
  not_dot_name name e =
      let dot = λ (same : name ≡ codes "."). (rw same at e) in
      let dots = λ (same : name ≡ codes ".."). (rw same at e) in
      ground (
        arith,
        user.not_dot,
        user.not_dots,
        lower_dot text folding,
        dot,
        dots,
        list_eq_iff name (codes "."),
        list_eq_iff name (codes ".."),
      )

  -- The key under which the scan keeps a name.
  visible_entry_key-user :
      (name : WString)
      → (elim (visible_entry_key text dir name) [ none ↦ false | some k ↦ k == key ])
        ≡ (map text.lower name == key)
  unfolding visible_entry_key case_folded_name
  visible_entry_key-user name = elim (Bool-cases (map text.lower name == key)) [
    | inl e ↦
        let same : map text.lower name ≡ key = ==_eq (map text.lower name) key e in
        rw (not_dot_name name same, same, key_not_reserved)
    | inr e ↦ ground arith
  ]

  add_ordinary_entry-key :
      (found : FindData) (scan : LayerDirectoryScan)
      → (has_entry key (add_ordinary_entry text dir found scan).entries
          ≡ (has_entry key scan.entries || (map text.lower found.name == key)))
        × ((add_ordinary_entry text dir found scan).whited_out_names ≡ scan.whited_out_names)
  unfolding add_ordinary_entry has_entry
  add_ordinary_entry-key found scan = elim (Option-cases (visible_entry_key text dir found.name)) [
    | inl hidden ↦ (ground (arith, visible_entry_key-user found.name), ground arith)
    | inr (k, shown) ↦ (
      ground (
        arith,
        visible_entry_key-user found.name,
        has_entry-append key scan.entries (record { key = k; find_data = found } ∷ []),
      ),
      ground arith,
    )
  ]

  whiteout_is_not_key :
      (name : WString) → is_whiteout_name text name ≡ true → (map text.lower name == key) ≡ false
  whiteout_is_not_key name h = elim (Bool-cases (map text.lower name == key)) [
    | inr e ↦ e
    | inl e ↦ ground (
      arith,
      is_whiteout_name-folded text folding name,
      ==_eq (map text.lower name) key e,
      user.not_marker,
    )
  ]

  whited_out_is_whiteout :
      (name : WString) {hidden : WString}
      → whited_out_name_of_entry text name ≡ some hidden
      → is_whiteout_name text name ≡ true
  unfolding whited_out_name_of_entry
  whited_out_is_whiteout name e = ground arith

  add_entry-key :
      (names : WhiteoutNames) (found : FindData) (scan : LayerDirectoryScan)
      → (has_entry key (add_entry text names dir found scan).entries
          ≡ (has_entry key scan.entries || (map text.lower found.name == key)))
        × (has_name key (add_entry text names dir found scan).whited_out_names ≡ (
            has_name key scan.whited_out_names
            || (marks names && (map text.lower found.name == whiteout_prefix ++ key))))
  unfolding add_marker_or_entry has_name
  add_entry-key are_ordinary found scan = (
    (add_ordinary_entry-key found scan).0,
    rw (add_ordinary_entry-key found scan).1 (ground arith),
  )
  add_entry-key are_markers found scan =
      let hides = hides_key_iff text folding found.name key user.not_marker in
      elim (Option-cases (whited_out_name_of_entry text found.name)) [
        | inl other ↦
            ground (arith, hides, whiteout_is_not_key found.name, add_ordinary_entry-key found scan)
        | inr (hidden, e) ↦ ground (
          arith,
          hides,
          whiteout_is_not_key found.name,
          whited_out_is_whiteout found.name e,
          has_name-append key scan.whited_out_names (case_folded_name text hidden ∷ []),
        )
      ]

  pub scan_entries-key :
      (names : WhiteoutNames) (found : List FindData) (scan : LayerDirectoryScan)
      → (has_entry key (scan_entries text names dir found scan).entries
          ≡ (has_entry key scan.entries || listed text key found))
        × (has_name key (scan_entries text names dir found scan).whited_out_names ≡ (
            has_name key scan.whited_out_names
            || (marks names && listed text (whiteout_prefix ++ key) found)))
  unfolding scan_entries listed
  scan_entries-key names [] scan = ground arith
  scan_entries-key names (found ∷ rest) scan = ground (
    arith,
    add_entry-key names found scan,
    scan_entries-key names rest (add_entry text names dir found scan),
  )
