-- ===== src/PathText/Prefixes.antt =====
-- The extended prefix, added and taken off (src/LayerMount.dll/impl/LayerPath.cpp:
-- WithExtendedPrefix, WithoutExtendedPrefix).
use layer_mount.Base.{
  ◌≡◌, refl, sym, ap, Bool, true, false, ◌&&◌, ◌||◌, not, Option, none, some, [], ◌∷◌, ◌++◌, ◌==◌,
  eq_nat, ==_eq, inl, inr, Bool-cases, arith, drop, ap₂,
}
use layer_mount.Layer.Disk.{WString}
use layer_mount.PathText.{
  backslash, extended, extended_unc, device, unc, has_prefix, component_start,
  is_full_path_as_written, is_colon_second, without_extended_prefix, prefixed, prefixed_if,
  with_extended_prefix,
}

and_false : (b : Bool) → (b && false) ≡ false
and_false true = refl
and_false false = refl

unc-drop : (path : WString) → has_prefix unc path ≡ true → unc ++ drop 2 path ≡ path
unc-drop [] starts = ground (arith, starts)
unc-drop (c ∷ []) starts = ground (arith, starts)
unc-drop (c ∷ d ∷ rest) starts =
    let first : (c == backslash) ≡ true = ground (arith, starts) in
    let second : (d == backslash) ≡ true = ground (arith, starts) in
    ap₂ (λ x y. x ∷ y ∷ rest) (sym (==_eq c backslash first)) (sym (==_eq d backslash second))

-- A full path that is not a UNC path starts with a drive.
drive :
    (path : WString)
    → is_full_path_as_written path ≡ true
    → has_prefix unc path ≡ false
    → is_colon_second path ≡ true
unfolding is_full_path_as_written component_start
drive [] written plain = ground (arith, written)
drive (c ∷ []) written plain = ground (arith, written)
drive (c ∷ d ∷ []) written plain = ground (arith, written)
drive (c ∷ d ∷ e ∷ rest) written plain = elim (Bool-cases (d == b':' && e == backslash)) [
  | inl drives ↦ ground (arith, drives)
  | inr other ↦ elim (Bool-cases (c == backslash && (d == backslash && not (e == backslash)))) [
    | inl starts ↦ ground (arith, starts, plain)
    | inr no_start ↦
        let clash : false ≡ true = rw (other, no_start) at written in ground (arith, clash)
  ]
]

no_unc_in_drive :
    (path : WString)
    → is_colon_second path ≡ true
    → has_prefix extended_unc (extended ++ path) ≡ false
no_unc_in_drive [] colon = ground (arith, colon)
no_unc_in_drive (c ∷ []) colon = ground (arith, colon)
no_unc_in_drive (c ∷ d ∷ rest) colon = rw (==_eq d b':' colon) (and_false (c == 85))

module _ (full_path_name : WString → Option WString) where
  prefixed-extended : (full : WString) → has_prefix extended (prefixed full_path_name full) ≡ true
  prefixed-extended full = elim (Bool-cases (has_prefix unc full)) [
    | inl starts ↦ rw starts refl
    | inr plain ↦ rw plain refl
  ]

  without-prefixed :
      (path : WString)
      → is_full_path_as_written path ≡ true
      → without_extended_prefix (prefixed full_path_name path) ≡ path
  unfolding without_extended_prefix
  without-prefixed path written = elim (Bool-cases (has_prefix unc path)) [
    | inl starts ↦ rw starts (unc-drop path starts)
    | inr plain ↦
        let colon = drive path written plain in rw (plain, no_unc_in_drive path colon, colon) refl
  ]

  kept :
      (path : WString)
      → (has_prefix extended path || has_prefix device path) ≡ true
      → with_extended_prefix full_path_name path ≡ path
  unfolding with_extended_prefix
  kept path as_is = rw as_is refl

  added :
      (path : WString)
      → (has_prefix extended path || has_prefix device path) ≡ false
      → is_full_path_as_written path ≡ true
      → with_extended_prefix full_path_name path ≡ prefixed full_path_name path
  unfolding with_extended_prefix
  added path plain written = rw (plain, written) refl

  resolved :
      (path : WString)
      → (has_prefix extended path || has_prefix device path) ≡ false
      → is_full_path_as_written path ≡ false
      → with_extended_prefix full_path_name path
        ≡ prefixed_if full_path_name path (full_path_name path)
  unfolding with_extended_prefix
  resolved path plain other = rw (plain, other) refl

  added-same :
      (path : WString)
      → has_prefix extended path ≡ true
      → with_extended_prefix full_path_name path ≡ path
  unfolding with_extended_prefix
  added-same path starts = rw starts refl

  added-twice_if :
      (path : WString) (resolved : Option WString)
      → full_path_name path ≡ resolved
      → with_extended_prefix full_path_name path ≡ prefixed_if full_path_name path resolved
      → with_extended_prefix full_path_name (with_extended_prefix full_path_name path)
        ≡ with_extended_prefix full_path_name path
  added-twice_if path none is once = ap (with_extended_prefix full_path_name) once
  added-twice_if path (some full) is once =
      added-same (with_extended_prefix full_path_name path) (rw once (prefixed-extended full))

  added-twice :
      (path : WString)
      → with_extended_prefix full_path_name (with_extended_prefix full_path_name path)
        ≡ with_extended_prefix full_path_name path
  added-twice path = elim (Bool-cases (has_prefix extended path || has_prefix device path)) [
    | inl as_is ↦ ap (with_extended_prefix full_path_name) (kept path as_is)
    | inr plain ↦ elim (Bool-cases (is_full_path_as_written path)) [
      | inl written ↦
          added-same (with_extended_prefix full_path_name path)
            (rw (added path plain written) (prefixed-extended path))
      | inr other ↦ added-twice_if path (full_path_name path) refl (resolved path plain other)
    ]
  ]

  went_on :
      (path full : WString)
      → has_prefix device path ≡ false
      → full_path_name path ≡ some full
      → has_prefix extended (with_extended_prefix full_path_name path) ≡ true
  went_on path full ordinary is = elim (Bool-cases (has_prefix extended path)) [
    | inl starts ↦ rw (added-same path starts) starts
    | inr plain ↦
        let bare : (has_prefix extended path || has_prefix device path) ≡ false =
          rw (plain, ordinary) refl in
        elim (Bool-cases (is_full_path_as_written path)) [
          | inl written ↦ rw (added path bare written) (prefixed-extended path)
          | inr other ↦ rw (resolved path bare other, is) (prefixed-extended full)
        ]
  ]

  -- For a path that is no device path and that Windows gives a full path for: it gets the extended
  -- prefix, and a path that has got it stays as it is.
  pub with_extended_prefix-once :
      (path full : WString)
      → has_prefix device path ≡ false
      → full_path_name path ≡ some full
      → (has_prefix extended (with_extended_prefix full_path_name path) ≡ true)
        × (with_extended_prefix full_path_name (with_extended_prefix full_path_name path)
            ≡ with_extended_prefix full_path_name path)
  with_extended_prefix-once path full ordinary is =
      (went_on path full ordinary is, added-twice path)

  -- A full path as written, without a prefix, gets the extended prefix, whatever Windows gives for
  -- it, and gives the path again when the prefix is taken off: that of a drive or of a share.
  pub with_extended_prefix-without :
      (path : WString)
      → is_full_path_as_written path ≡ true
      → (has_prefix extended path || has_prefix device path) ≡ false
      → (has_prefix extended (with_extended_prefix full_path_name path) ≡ true)
        × (without_extended_prefix (with_extended_prefix full_path_name path) ≡ path)
  with_extended_prefix-without path written plain = (
    rw (added path plain written) (prefixed-extended path),
    rw (added path plain written) (without-prefixed path written),
  )
