-- ===== src/PathText/Normal.antt =====
-- The normal form of a relative path (src/LayerMount.dll/impl/LayerPath.cpp:
-- NormalizePathPreserveCase).
use layer_mount.Base.{
  ℕ, suc, ◌≤◌, ◌≡◌, refl, ap, ap₂, Bool, false, ◌&&◌, ◌||◌, [], ◌∷◌, map, ◌==◌, eq_nat, inl, inr,
  Bool-cases, arith, length,
}
use layer_mount.Layer.Disk.{WString}
use layer_mount.Tracker.{is_empty}
use layer_mount.PathText.{
  backslash, slash, to_backslash, skip_leading, trim_trailing, normalize_path_preserve_case,
  has_slash,
}

abbrev pub starts_with_backslash : WString → Bool
starts_with_backslash [] = false
starts_with_backslash (c ∷ rest) = c == backslash

abbrev pub ends_with_backslash : WString → Bool
ends_with_backslash [] = false
ends_with_backslash (c ∷ []) = c == backslash
ends_with_backslash (c ∷ d ∷ rest) = ends_with_backslash (d ∷ rest)

-- No slash, and no backslash at an end.
abbrev pub IsNormal : WString → Type 0
IsNormal path =
    (has_slash path ≡ false)
    × (starts_with_backslash path ≡ false)
    × (ends_with_backslash path ≡ false)

or_left : (a b : Bool) → (a || b) ≡ false → a ≡ false
or_left a b neither = ground arith

or_right : (a b : Bool) → (a || b) ≡ false → b ≡ false
or_right a b neither = ground arith

to_backslash-no_slash : (c : ℕ) → (to_backslash c == slash) ≡ false
to_backslash-no_slash c = elim (Bool-cases (c == slash)) [
  | inl is ↦ rw is refl
  | inr other ↦ rw (other, other) refl
]

map-has_slash : (path : WString) → has_slash (map to_backslash path) ≡ false
map-has_slash [] = refl
map-has_slash (c ∷ rest) = rw (to_backslash-no_slash c) (map-has_slash rest)

skip-has_slash : (path : WString) → has_slash path ≡ false → has_slash (skip_leading path) ≡ false
unfolding skip_leading
skip-has_slash [] none_there = refl
skip-has_slash (c ∷ rest) none_there = elim (Bool-cases (c == backslash)) [
  | inl is ↦ rw is (skip-has_slash rest (or_right _ _ none_there))
  | inr other ↦ rw other none_there
]

trim-has_slash : (path : WString) → has_slash path ≡ false → has_slash (trim_trailing path) ≡ false
unfolding trim_trailing
trim-has_slash [] none_there = refl
trim-has_slash (c ∷ rest) none_there =
    elim (Bool-cases (is_empty (trim_trailing rest) && c == backslash)) [
      | inl gone ↦ rw gone refl
      | inr stays ↦
          rw (stays, or_left (c == slash) _ none_there)
            (trim-has_slash rest (or_right _ _ none_there))
    ]

skip-starts : (path : WString) → starts_with_backslash (skip_leading path) ≡ false
unfolding skip_leading
skip-starts [] = refl
skip-starts (c ∷ rest) = elim (Bool-cases (c == backslash)) [
  | inl is ↦ rw is (skip-starts rest)
  | inr other ↦ rw (other, other) refl
]

trim-starts :
    (path : WString)
    → starts_with_backslash path ≡ false
    → starts_with_backslash (trim_trailing path) ≡ false
unfolding trim_trailing
trim-starts [] clean = refl
trim-starts (c ∷ rest) clean = elim (Bool-cases (is_empty (trim_trailing rest) && c == backslash)) [
  | inl gone ↦ rw gone refl
  | inr stays ↦ rw stays clean
]

ends-cons :
    (c : ℕ) (trimmed : WString)
    → (is_empty trimmed && c == backslash) ≡ false
    → ends_with_backslash trimmed ≡ false
    → ends_with_backslash (c ∷ trimmed) ≡ false
ends-cons c [] stays clean = stays
ends-cons c (d ∷ rest) stays clean = clean

trim-ends : (path : WString) → ends_with_backslash (trim_trailing path) ≡ false
unfolding trim_trailing
trim-ends [] = refl
trim-ends (c ∷ rest) = elim (Bool-cases (is_empty (trim_trailing rest) && c == backslash)) [
  | inl gone ↦ rw gone refl
  | inr stays ↦ rw stays (ends-cons c (trim_trailing rest) stays (trim-ends rest))
]

trim-same : (path : WString) → ends_with_backslash path ≡ false → trim_trailing path ≡ path
unfolding trim_trailing
trim-same [] clean = refl
trim-same (c ∷ []) clean = rw clean refl
trim-same (c ∷ d ∷ rest) clean = rw (trim-same (d ∷ rest) clean) refl

skip-same : (path : WString) → starts_with_backslash path ≡ false → skip_leading path ≡ path
unfolding skip_leading
skip-same [] clean = refl
skip-same (c ∷ rest) clean = rw clean refl

map-same : (path : WString) → has_slash path ≡ false → map to_backslash path ≡ path
map-same [] clean = refl
map-same (c ∷ rest) clean =
    ap₂ ◌∷◌ (rw (or_left (c == slash) _ clean) refl) (map-same rest (or_right _ _ clean))

length-skip : (path : WString) → length (skip_leading path) ≤ length path
unfolding skip_leading
length-skip [] = omega arith
length-skip (c ∷ rest) = elim (Bool-cases (c == backslash)) [
  | inl is ↦ rw is (omega (arith, length-skip rest))
  | inr other ↦ rw other (omega arith)
]

length-trim : (path : WString) → length (trim_trailing path) ≤ length path
unfolding trim_trailing
length-trim [] = omega arith
length-trim (c ∷ rest) = elim (Bool-cases (is_empty (trim_trailing rest) && c == backslash)) [
  | inl gone ↦ rw gone (omega arith)
  | inr stays ↦ rw stays (omega (arith, length-trim rest))
]

length-map : (path : WString) → length (map to_backslash path) ≡ length path
length-map [] = refl
length-map (c ∷ rest) = ap suc (length-map rest)

normal-same : (path : WString) → IsNormal path → normalize_path_preserve_case path ≡ path
unfolding normalize_path_preserve_case
normal-same path (clean, start, end) =
    rw (map-same path clean, skip-same path start) (trim-same path end)

-- For any text: its normal form has no slash and no backslash at an end, is no longer than the text,
-- and a text that is already so is its own normal form, the normal form included.
pub normalize_path_preserve_case-IsNormal :
    (path : WString)
    → IsNormal (normalize_path_preserve_case path)
      × (length (normalize_path_preserve_case path) ≤ length path)
      × (IsNormal path → normalize_path_preserve_case path ≡ path)
      × (normalize_path_preserve_case (normalize_path_preserve_case path)
          ≡ normalize_path_preserve_case path)
unfolding normalize_path_preserve_case
normalize_path_preserve_case-IsNormal path =
    let replaced = map to_backslash path in
    let normal : IsNormal (trim_trailing (skip_leading replaced)) = (
      trim-has_slash (skip_leading replaced) (skip-has_slash replaced (map-has_slash path)),
      trim-starts (skip_leading replaced) (skip-starts replaced),
      trim-ends (skip_leading replaced),
    ) in
    (
      normal,
      omega (arith, length-trim (skip_leading replaced), length-skip replaced, length-map path),
      normal-same path,
      normal-same (trim_trailing (skip_leading replaced)) normal,
    )
