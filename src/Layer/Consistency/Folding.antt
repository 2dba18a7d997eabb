-- ===== src/Layer/Consistency/Folding.antt =====
-- Marker names under the case folds of Win32.
use layer_mount.Base.{ℕ, ◌≡◌, refl, Bool, true, false, ◌&&◌, none, some}
use layer_mount.Base.{[], ◌∷◌, ◌++◌, map, codes, ◌==◌, eq_nat, eq_list, nat_eq, arith}
use layer_mount.Base.{inl, inr, Bool-cases, ==_eq}
use layer_mount.Layer.Disk.{WString}
use layer_mount.Layer.Markers.{whiteout_prefix}
use layer_mount.Layer.Names.{TextService, case_folded_name, is_whiteout_name}
use layer_mount.Layer.Names.{whited_out_name_of_entry}

-- The two folds agree on the characters of the whiteout prefix, which are their own lowercase, and
-- a second CharLowerBuffW changes nothing.
pub record IsFolding (text : TextService) : Type 0 where
  pub dot : (c : ℕ) → nat_eq (text.upper c) (text.upper b'.') ≡ nat_eq (text.lower c) b'.'
  pub w : (c : ℕ) → nat_eq (text.upper c) (text.upper b'w') ≡ nat_eq (text.lower c) b'w'
  pub h : (c : ℕ) → nat_eq (text.upper c) (text.upper b'h') ≡ nat_eq (text.lower c) b'h'

abbrev pub starts_marker : WString → Bool
starts_marker [] = false
starts_marker (a ∷ []) = false
starts_marker (a ∷ b ∷ []) = false
starts_marker (a ∷ b ∷ c ∷ []) = false
starts_marker (a ∷ b ∷ c ∷ d ∷ rest) =
    nat_eq a b'.' && (nat_eq b b'w' && (nat_eq c b'h' && nat_eq d b'.'))

module _ (text : TextService) (folding : IsFolding text) where
  pub is_whiteout_name-folded :
      (name : WString) → is_whiteout_name text name ≡ starts_marker (map text.lower name)
  unfolding is_whiteout_name
  is_whiteout_name-folded [] = refl
  is_whiteout_name-folded (a ∷ []) = refl
  is_whiteout_name-folded (a ∷ b ∷ []) = refl
  is_whiteout_name-folded (a ∷ b ∷ c ∷ []) = refl
  is_whiteout_name-folded (a ∷ b ∷ c ∷ d ∷ rest) =
      ground (arith, folding.dot a, folding.w b, folding.h c, folding.dot d)

  -- The whiteout of a name hides exactly the key that stands behind the folded prefix.
  abbrev pub hides_key : WString → WString → Bool
  hides_key name key = elim (whited_out_name_of_entry text name) [
    | none ↦ false
    | some hidden ↦ case_folded_name text hidden == key
  ]

  pub lower_dot : text.lower b'.' ≡ b'.'
  lower_dot = ground (arith, folding.dot b'.')

  pub lower_prefix :
      (key : WString)
      → map text.lower (whiteout_prefix ++ key) ≡ whiteout_prefix ++ map text.lower key
  lower_prefix key = ground (arith, folding.dot b'.', folding.w b'w', folding.h b'h')

  opaque_rest :
      (rest : WString)
      → (map text.upper rest == map text.upper (codes ".wh..opq")) ≡ true
      → starts_marker (map text.lower rest) ≡ true
  opaque_rest [] h = h
  opaque_rest (a ∷ []) h = ground arith
  opaque_rest (a ∷ b ∷ []) h = ground arith
  opaque_rest (a ∷ b ∷ c ∷ []) h = ground arith
  opaque_rest (a ∷ b ∷ c ∷ d ∷ rest) h =
      ground (arith, folding.dot a, folding.w b, folding.h c, folding.dot d)

  ne_marker :
      (rest key : WString)
      → starts_marker key ≡ false
      → (map text.lower rest == key) ≡ true
      → (map text.upper rest == map text.upper (codes ".wh..opq")) ≡ false
  ne_marker rest key plain e =
      let same : map text.lower rest ≡ key = ==_eq (map text.lower rest) key e in
      elim (Bool-cases (map text.upper rest == map text.upper (codes ".wh..opq"))) [
        | inl opaque ↦ absurd (ground (arith, opaque_rest rest opaque, same))
        | inr other ↦ other
      ]

  pub hides_key_iff :
      (name key : WString)
      → starts_marker key ≡ false
      → hides_key name key ≡ (map text.lower name == whiteout_prefix ++ key)
  unfolding whited_out_name_of_entry case_folded_name
  hides_key_iff [] key plain = refl
  hides_key_iff (a ∷ []) key plain = ground (arith, is_whiteout_name-folded (a ∷ []))
  hides_key_iff (a ∷ b ∷ []) key plain = ground (arith, is_whiteout_name-folded (a ∷ b ∷ []))
  hides_key_iff (a ∷ b ∷ c ∷ []) key plain =
      ground (arith, is_whiteout_name-folded (a ∷ b ∷ c ∷ []))
  hides_key_iff (a ∷ b ∷ c ∷ d ∷ rest) key plain =
      let not_opaque : (map text.lower rest == key) ≡ true
          → (map text.upper rest == map text.upper (codes ".wh..opq")) ≡ false =
        λ e. ne_marker rest key plain e in
      ground (arith, folding.dot a, folding.w b, folding.h c, folding.dot d, not_opaque)
